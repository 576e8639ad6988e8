-- ===== src/System/Workspace/Mounts/Links.antt =====
-- executor/system/workspace.go: a link for a mount is in the tree of the agent.
use agentfile.Common.{
  ◌≡◌, refl, sym, ap, ◌∙◌, ◌⊎◌, inl, inr, true, false, some, List, [], ◌∷◌, ◌++◌, arith, Bool-cases,
  Option-cases,
}
use mathlib.Core.Path.{subst}
use agentfile.Common.Paths.{join, join_slash}
use agentfile.Common.Texts.{Text, codes, text_eq, text_eq_iff, has_prefix, trim_prefix}
use agentfile.System.Workspace.Mounts.{
  segments, climb, walk, to_path, rel, escapes, mount_link_path, drop_last, dir,
}

-- The elements of the link start with those of the root, and what follows does not climb.
abbrev pub Under : Text → Text → Type 0
Under root link =
    (rest : List Text) × (segments link ≡ segments root ++ rest) × (escapes (to_path rest) ≡ false)

-- The directory that holds a link: its elements without the last.
abbrev pub IsDirOf : Text → Text → Type 0
IsDirOf link path =
    (init : List Text) × (path ≡ b'/' ∷ join_slash init)
    × (((x : Text) × (segments link ≡ init ++ x ∷ [])) ⊎ ((segments link ≡ []) × (init ≡ [])))

drop_last-split :
    (xs : List Text)
    → ((x : Text) × (xs ≡ drop_last xs ++ x ∷ [])) ⊎ ((xs ≡ []) × (drop_last xs ≡ []))
unfolding drop_last
drop_last-split [] = inr (refl, refl)
drop_last-split (s ∷ []) = inl (s, refl)
drop_last-split (s ∷ t ∷ ts) = elim (drop_last-split (t ∷ ts)) [
  | inl (x, e) ↦ inl (x, ap (λ (l : List Text). s ∷ l) e)
  | inr (e, k) ↦ absurd cc
]

pub dir-IsDirOf : (link : Text) → IsDirOf link (dir link)
unfolding dir
dir-IsDirOf link = (drop_last (segments link), refl, drop_last-split (segments link))

-- A path that starts with two dots is seen.
escapes-climb : (rest : List Text) → escapes (to_path (codes ".." ∷ rest)) ≡ true
unfolding escapes to_path text_eq has_prefix join_slash
escapes-climb [] = refl
escapes-climb (s ∷ rest) = refl

-- If what is left does not climb, nothing of the base was left.
walk-none :
    (base targ rest : List Text)
    → walk base targ ≡ some rest
    → escapes (to_path rest) ≡ false
    → targ ≡ base ++ rest
unfolding walk climb
walk-none [] targ rest h k = ground arith
walk-none (s ∷ base) [] rest h k = ground (arith, escapes-climb (climb base []))
walk-none (s ∷ base) (t ∷ targ) rest h k = elim (Bool-cases (text_eq s t)) [
  | inl e ↦
      let same = (text_eq_iff s t).0 e in
      let tail = walk-none base targ rest (ground arith) k in
      ap (λ x. x ∷ targ) (sym same) ∙ ap (λ xs. s ∷ xs) tail
  | inr e ↦ ground (arith, escapes-climb (climb base (t ∷ targ)))
]

pub mount_link_path-Under :
    (root target link : Text) → mount_link_path root target ≡ some link → Under root link
unfolding mount_link_path rel
mount_link_path-Under root target link h =
    let here = join root (trim_prefix target (codes "/")) in
    elim (Option-cases (walk (segments root) (segments here))) [
      | inl n ↦ absurd (ground arith)
      | inr (rest, e) ↦
          let safe : escapes (to_path rest) ≡ false = ground arith in
          let same : here ≡ link = ground arith in
          (
            rest,
            subst (λ l. segments l ≡ segments root ++ rest) same
                (walk-none (segments root) (segments here) rest e safe),
            safe,
          )
    ]
