-- ===== src/Spec/Overrides/Configs.antt =====
-- Values supplied at deploy time: what a later reader of the flattened entries sees.
use agentfile.Common.{
  ◌≡◌, refl, inl, inr, true, false, none, some, List, [], ◌∷◌, ◌++◌, map, arith, if◌then◌else◌,
  Option-cases,
}
use agentfile.Common.Maps.{Assoc, lookup, delete, keys, lookup-delete, mem-keys, keys-mem}
use agentfile.Common.Sets.{Distinct, sort_strings, mem-sort_strings}
use agentfile.Common.Texts.{Text, text_eq_iff, text_eq_refl, mem}
use agentfile.Spec.Types.{Config, str}
use agentfile.Spec.Configs.{last_config, last_config-append, effective}
use agentfile.Spec.Overrides.{set_values, new_config, provide_configs}

abbrev pub keys_of : List Config → List Text
keys_of [] = []
keys_of (c ∷ cs) = c.key ∷ keys_of cs

-- What the loop leaves over: the values of keys that no entry has.
remaining_lem :
    (k : Text) (m : Assoc Text) (cs : List Config)
    → lookup k (set_values m cs).1 ≡ (if mem k (keys_of cs) then none else lookup k m)
unfolding set_values
remaining_lem k m [] = refl
remaining_lem k m (c ∷ cs) = elim (Option-cases (lookup c.key m)) [
  | inl e ↦ ground (arith, remaining_lem k m cs, text_eq_iff k c.key)
  | inr (v, e) ↦ ground (
    arith,
    remaining_lem k (delete c.key m) cs,
    lookup-delete c.key k m,
    text_eq_iff k c.key,
    text_eq_iff c.key k,
  )
]

keys_of-set_values : (m : Assoc Text) (cs : List Config) → keys_of (set_values m cs).0 ≡ keys_of cs
unfolding set_values
keys_of-set_values m [] = refl
keys_of-set_values m (c ∷ cs) = elim (Option-cases (lookup c.key m)) [
  | inl e ↦ ground (arith, keys_of-set_values m cs)
  | inr (v, e) ↦ ground (arith, keys_of-set_values (delete c.key m) cs)
]

last_config-absent :
    (k : Text) (cs : List Config) → mem k (keys_of cs) ≡ false → last_config k cs ≡ none
unfolding last_config
last_config-absent k [] h = refl
last_config-absent k (c ∷ cs) h =
    ground (arith, last_config-absent k cs, text_eq_iff k c.key, text_eq_iff c.key k)

set-absent :
    (k : Text) (m : Assoc Text) (cs : List Config)
    → mem k (keys_of cs) ≡ false
    → last_config k (set_values m cs).0 ≡ none
set-absent k m cs h = last_config-absent k (set_values m cs).0 (rw (keys_of-set_values m cs) h)

-- With distinct keys every declared entry whose key has a value takes it.
set_values-effective :
    (k : Text) (m : Assoc Text) (cs : List Config)
    → Distinct (keys_of cs)
    → mem k (keys_of cs) ≡ true
    → effective k (set_values m cs).0
      ≡ elim (lookup k m) [ some v ↦ some (str v) | none ↦ effective k cs ]
unfolding set_values effective last_config
set_values-effective k m [] d h = cc
set_values-effective k m (c ∷ cs) d h = elim (Option-cases (lookup c.key m)) [
  | inl e ↦ ground (
    arith,
    set_values-effective k m cs,
    text_eq_iff k c.key,
    text_eq_iff c.key k,
    set-absent k m cs,
    last_config-absent k cs,
  )
  | inr (v, e) ↦ ground (
    arith,
    set_values-effective k (delete c.key m) cs,
    lookup-delete c.key k m,
    text_eq_iff k c.key,
    text_eq_iff c.key k,
    set-absent k (delete c.key m) cs,
    last_config-absent k cs,
  )
]

new_configs_lem :
    (k : Text) (m : Assoc Text) (ks : List Text)
    → last_config k (map (new_config m) ks) ≡ (if mem k ks then some (new_config m k) else none)
unfolding last_config new_config
new_configs_lem k m [] = refl
new_configs_lem k m (j ∷ ks) =
    ground (arith, new_configs_lem k m ks, text_eq_iff j k, text_eq_iff k j)

-- The entries that are appended for what is left over.
added_lem :
    (k : Text) (r : Assoc Text)
    → last_config k (map (new_config r) (sort_strings (keys r)))
      ≡ elim (lookup k r) [ some v ↦ some (new_config r k) | none ↦ none ]
added_lem k r = elim (Option-cases (lookup k r)) [
  | inl e ↦ ground (
    arith,
    new_configs_lem k r (sort_strings (keys r)),
    mem-sort_strings k (keys r),
    mem-keys k r,
  )
  | inr (v, e) ↦ ground (
    arith,
    new_configs_lem k r (sort_strings (keys r)),
    mem-sort_strings k (keys r),
    keys-mem k {v = v} r,
  )
]

-- With distinct keys, every supplied value is what the flattened entries show for its key, and the
-- other keys show what they did.
pub provide_configs-effective :
    (k : Text) (values : Assoc Text) (cs : List Config)
    → Distinct (keys_of cs)
    → effective k (provide_configs values cs)
      ≡ elim (lookup k values) [ some v ↦ some (str v) | none ↦ effective k cs ]
unfolding provide_configs effective new_config
provide_configs-effective k values cs d =
    let r = (set_values values cs).1 in
    ground (
      arith,
      last_config-append k (set_values values cs).0 (map (new_config r) (sort_strings (keys r))),
      added_lem k r,
      remaining_lem k values cs,
      set_values-effective k values cs d,
      set-absent k values cs,
      last_config-absent k cs,
    )

set_values-append :
    (m : Assoc Text) (a b : List Config)
    → set_values m (a ++ b) ≡ (
      (set_values m a).0 ++ (set_values (set_values m a).1 b).0,
      (set_values (set_values m a).1 b).1,
    )
unfolding set_values
set_values-append m [] b = refl
set_values-append m (c ∷ a) b = elim (Option-cases (lookup c.key m)) [
  | inl e ↦ ground (arith, set_values-append m a b)
  | inr (v, e) ↦ ground (arith, set_values-append (delete c.key m) a b)
]

-- Once an earlier entry has used a value up, a later entry of the key stays as it is.
set_values-later :
    (c : Config) (m : Assoc Text) (b : List Config)
    → lookup c.key m ≡ none
    → mem c.key (keys_of b) ≡ false
    → last_config c.key (set_values m (c ∷ b)).0 ≡ some c
unfolding set_values last_config
set_values-later c m b e n =
    rw (e, set_values) (rw (set-absent c.key m b n, text_eq_refl c.key) refl)

-- A key that an earlier entry has too keeps the value of its last entry, whatever is supplied.
provide_configs-repeated :
    (c : Config) (values : Assoc Text) (a b : List Config)
    → mem c.key (keys_of a) ≡ true
    → mem c.key (keys_of b) ≡ false
    → effective c.key (provide_configs values (a ++ c ∷ b)) ≡ c.value
unfolding provide_configs effective
provide_configs-repeated c values a b h n =
    let m = (set_values values a).1 in
    let r = (set_values values (a ++ c ∷ b)).1 in
    ground (
      arith,
      set_values-append values a (c ∷ b),
      set_values-later c m b,
      remaining_lem c.key values a,
      last_config-append c.key (set_values values a).0 (set_values m (c ∷ b)).0,
      last_config-append c.key (set_values values (a ++ c ∷ b)).0
          (map (new_config r) (sort_strings (keys r))),
      added_lem c.key r,
      remaining_lem c.key m (c ∷ b),
      text_eq_refl c.key,
    )
