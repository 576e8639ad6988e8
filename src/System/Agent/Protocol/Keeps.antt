-- ===== src/System/Agent/Protocol/Keeps.antt =====
-- The changes of the protocol of runs keep its invariant.
use agentfile.Common.{
  ℕ, suc, ◌<◌, ◌≡◌, refl, sym, ap, ◌∙◌, ◌≢◌, ◌⊎◌, inl, inr, true, false, none, some, ◌∷◌, arith,
  ◌==◌, ==_iff, Bool-cases,
}
use mathlib.Core.Path.{subst}
use mathlib.Core.Option.{some-injective}
use agentfile.System.Agent.{has_run}
use agentfile.System.Agent.Protocol.{
  Runs, Role, outside, in_run, leaving, owner, awaits, Change, stays, waits, returns, begins,
  releases, closes, assign, Inv,
}

assign-cases :
    (i : ℕ) (a : Role) (roles : ℕ → Role) (j : ℕ)
    → ((j ≡ i) × (assign i a roles j ≡ a)) ⊎ ((j ≢ i) × (assign i a roles j ≡ roles j))
unfolding assign
assign-cases i a roles j = elim (Bool-cases (j == i)) [
  | inl e ↦ inl ((==_iff j i).0 e, rw e refl)
  | inr e ↦ inr (λ q. ground (arith, ==_iff j i), rw e refl)
]

leaving-ne-in_run : (n m : ℕ) → leaving n ≢ in_run m
leaving-ne-in_run n m = cc

pub outside-ne-in_run : (m : ℕ) → outside ≢ in_run m
outside-ne-in_run m = cc

-- A fact about a role after an assignment is one about the new role or about an old one.
back :
    (P : Role → Type 0) (i : ℕ) (a : Role) (roles : ℕ → Role) (j : ℕ)
    → P (assign i a roles j)
    → ((j ≡ i) × P a) ⊎ ((j ≢ i) × P (roles j))
back P i a roles j h = elim (assign-cases i a roles j) [
  | inl (e, q) ↦ inl (e, subst P q h)
  | inr (e, q) ↦ inr (e, subst P q h)
]

assign_self : (i : ℕ) (a : Role) (roles : ℕ → Role) → assign i a roles i ≡ a
unfolding assign
assign_self i a roles = elim (assign-cases i a roles i) [
  | inl (e, q) ↦ q
  | inr (e, q) ↦ absurd (e refl)
]

assign_other : (i : ℕ) (a : Role) (roles : ℕ → Role) (j : ℕ) → j ≢ i → assign i a roles j ≡ roles j
assign_other i a roles j h = elim (assign-cases i a roles j) [
  | inl (e, q) ↦ absurd (h e)
  | inr (e, q) ↦ q
]

-- Who owns a run still does, unless it was the one whose role changed.
owner-kept :
    (i : ℕ) (a : Role) (roles : ℕ → Role) (n : ℕ)
    → (owner (roles i) ≡ some n → owner a ≡ some n)
    → (j : ℕ) × (owner (roles j) ≡ some n)
    → (j : ℕ) × (owner (assign i a roles j) ≡ some n)
owner-kept i a roles n h (j, k) = elim (assign-cases i a roles j) [
  | inl (e, q) ↦ (j, ap owner q ∙ h (subst (λ x. owner (roles x) ≡ some n) e k))
  | inr (e, q) ↦ (j, ap owner q ∙ k)
]

owner-same :
    (a : Role) (i : ℕ) (roles : ℕ → Role)
    → owner a ≡ owner (roles i)
    → (j n : ℕ) → owner (assign i a roles j) ≡ some n
    → owner (roles j) ≡ some n
owner-same a i roles same j n h = elim (back (λ x. owner x ≡ some n) i a roles j h) [
  | inl (e, q) ↦ subst (λ x. owner (roles x) ≡ some n) (sym e) (sym same ∙ q)
  | inr (e, q) ↦ q
]

owner-in_run : (a : Role) (n : ℕ) → a ≡ in_run n → owner a ≡ some n
unfolding owner
owner-in_run a n e = ap owner e

-- A goroutine that keeps what it owns, and waits for a run only if it did or the run is there.
quiet-Inv :
    {r : Runs} {a : Role} (i : ℕ) (roles : ℕ → Role)
    → owner a ≡ owner (roles i)
    → ((n : ℕ) → a ≡ in_run n → roles i ≡ in_run n)
    → ((n : ℕ) → roles i ≡ in_run n → a ≡ in_run n)
    → ((n : ℕ) → awaits a ≡ some n → (awaits (roles i) ≡ some n) ⊎ (r.ran ≡ some n))
    → Inv r roles
    → Inv r (assign i a roles)
quiet-Inv {r = r} {a = a} i roles same to from ask v =
    let owned : (j n : ℕ) → owner (assign i a roles j) ≡ some n → owner (roles j) ≡ some n =
      λ j n. owner-same a i roles same j n in
    let kept : (n : ℕ)
        → (j : ℕ) × (owner (roles j) ≡ some n)
        → (j : ℕ) × (owner (assign i a roles j) ≡ some n) =
      λ n. owner-kept i a roles n (λ h. same ∙ h) in
    record {
      fresh = λ j n h. v.fresh j n (owned j n h);
      unique = λ j k n h g. v.unique j k n (owned j n h) (owned k n g);
      is_open = λ j n h. v.is_open j n (owned j n h);
      inside = λ j n h. elim (back (λ x. x ≡ in_run n) i a roles j h) [
        | inl (e, q) ↦ v.inside i n (to n q)
        | inr (e, q) ↦ v.inside j n q
      ];
      held = λ h.
          let (j, n, q) = v.held h in
          elim (assign-cases i a roles j) [
            | inl (e, g) ↦ (j, n, g ∙ from n (subst (λ x. roles x ≡ in_run n) e q))
            | inr (e, g) ↦ (j, n, g ∙ q)
          ];
      clear = v.clear;
      past = v.past;
      once = v.once;
      awaited = λ j n h. elim (back (λ x. awaits x ≡ some n) i a roles j h) [
        | inl (e, q) ↦ elim (ask n q) [
          | inl was ↦ elim (v.awaited i n was) [ inl o ↦ inl (kept n o) | inr c ↦ inr c ]
          | inr here ↦ elim (Bool-cases r.running) [
            | inl up ↦
                let (k, m, g) = v.held up in
                let same_run : some m ≡ some n = sym (v.inside k m g).1 ∙ here in
                inl (kept n (k, owner-in_run (roles k) m g ∙ same_run))
            | inr down ↦ absurd (ground (arith, (v.clear down).0))
          ]
        ]
        | inr (e, q) ↦ elim (v.awaited j n q) [ inl o ↦ inl (kept n o) | inr c ↦ inr c ]
      ];
    }

-- The number of a run that begins is new.
next_open : (r : Runs) (roles : ℕ → Role) → Inv r roles → has_run r.next r.closed ≡ false
next_open r roles v = elim (Bool-cases (has_run r.next r.closed)) [
  | inl e ↦ absurd (omega (arith, v.past r.next e))
  | inr e ↦ e
]

begins-Inv :
    (r : Runs) (i : ℕ) (roles : ℕ → Role)
    → roles i ≡ outside
    → r.running ≡ false
    → Inv r roles
    → Inv
        (record r { running = true; cancel = some r.next; ran = some r.next; next = suc r.next })
        (assign i (in_run r.next) roles)
unfolding owner awaits
begins-Inv r i roles e down v = record {
  fresh = λ j n h. elim (back (λ x. owner x ≡ some n) i (in_run r.next) roles j h) [
    | inl (u, q) ↦ let w : r.next ≡ n = some-injective r.next n q in omega (arith, w)
    | inr (u, q) ↦ omega (arith, v.fresh j n q)
  ];
  unique = λ j k n h g. elim (back (λ x. owner x ≡ some n) i (in_run r.next) roles j h) [
    | inl (u, q) ↦ elim (back (λ x. owner x ≡ some n) i (in_run r.next) roles k g) [
      | inl (t, p) ↦ u ∙ sym t
      | inr (t, p) ↦ absurd (omega (arith, some-injective r.next n q, v.fresh k n p))
    ]
    | inr (u, q) ↦ elim (back (λ x. owner x ≡ some n) i (in_run r.next) roles k g) [
      | inl (t, p) ↦ absurd (omega (arith, some-injective r.next n p, v.fresh j n q))
      | inr (t, p) ↦ v.unique j k n q p
    ]
  ];
  is_open = λ j n h. elim (back (λ x. owner x ≡ some n) i (in_run r.next) roles j h) [
    | inl (u, q) ↦
        subst (λ m. has_run m r.closed ≡ false) (some-injective r.next n q) (next_open r roles v)
    | inr (u, q) ↦ v.is_open j n q
  ];
  inside = λ j n h. elim (back (λ x. x ≡ in_run n) i (in_run r.next) roles j h) [
    | inl (u, q) ↦ (refl, ap owner q, ap owner q)
    | inr (u, q) ↦ absurd (ground (arith, (v.inside j n q).0))
  ];
  held = λ h. (i, r.next, assign_self i (in_run r.next) roles);
  clear = λ h. absurd (ground arith);
  past = λ n h. omega (arith, v.past n h);
  once = v.once;
  awaited = λ j n h. elim (back (λ x. awaits x ≡ some n) i (in_run r.next) roles j h) [
    | inl (u, q) ↦ absurd (ground arith)
    | inr (u, q) ↦ elim (v.awaited j n q) [
      | inl o ↦
          inl (owner-kept i (in_run r.next) roles n (λ p. absurd (ground (arith, ap owner e))) o)
      | inr c ↦ inr c
    ]
  ];
}

releases-Inv :
    (r : Runs) (n i : ℕ) (roles : ℕ → Role)
    → roles i ≡ in_run n
    → Inv r roles
    → Inv (record r { running = false; cancel = none; ran = none }) (assign i (leaving n) roles)
unfolding owner awaits
releases-Inv r n i roles e v =
    let same : owner (leaving n) ≡ owner (roles i) = ap owner (sym e) in
    record {
      fresh = λ j m h. v.fresh j m (owner-same (leaving n) i roles same j m h);
      unique = λ j k m h g.
          v.unique j k m (owner-same (leaving n) i roles same j m h)
            (owner-same (leaving n) i roles same k m g);
      is_open = λ j m h. v.is_open j m (owner-same (leaving n) i roles same j m h);
      inside = λ j m h. elim (back (λ x. x ≡ in_run m) i (leaving n) roles j h) [
        | inl (u, q) ↦ absurd (leaving-ne-in_run n m q)
        | inr (u, q) ↦
            let w : some n ≡ some m = sym (v.inside i n e).1 ∙ (v.inside j m q).1 in
            absurd (u (v.unique j i m (ap owner q) (ap owner e ∙ w)))
      ];
      held = λ h. absurd (ground arith);
      clear = λ h. (refl, refl);
      past = v.past;
      once = v.once;
      awaited = λ j m h. elim (back (λ x. awaits x ≡ some m) i (leaving n) roles j h) [
        | inl (u, q) ↦ absurd (ground arith)
        | inr (u, q) ↦ elim (v.awaited j m q) [
          | inl o ↦ inl (owner-kept i (leaving n) roles m (λ p. same ∙ p) o)
          | inr c ↦ inr c
        ]
      ];
    }

closes-Inv :
    (r : Runs) (n i : ℕ) (roles : ℕ → Role)
    → roles i ≡ leaving n
    → Inv r roles
    → Inv (record r { closed = n ∷ r.closed }) (assign i outside roles)
unfolding owner awaits has_run
closes-Inv r n i roles e v =
    let mine : owner (roles i) ≡ some n = ap owner e in
    let others : (j m : ℕ)
        → owner (assign i outside roles j) ≡ some m
        → (j ≢ i) × (owner (roles j) ≡ some m) =
      λ j m h. elim (back (λ x. owner x ≡ some m) i outside roles j h) [
        | inl (u, q) ↦ absurd (ground arith)
        | inr (u, q) ↦ (u, q)
      ] in
    record {
      fresh = λ j m h. v.fresh j m (others j m h).1;
      unique = λ j k m h g. v.unique j k m (others j m h).1 (others k m g).1;
      is_open = λ j m h. elim (Bool-cases (m == n)) [
        | inl u ↦ absurd (
            (others j m h).0
              (v.unique j i m (others j m h).1 (mine ∙ ap some (sym ((==_iff m n).0 u)))))
        | inr u ↦ rw u (v.is_open j m (others j m h).1)
      ];
      inside = λ j m h. elim (back (λ x. x ≡ in_run m) i outside roles j h) [
        | inl (u, q) ↦ absurd (outside-ne-in_run m q)
        | inr (u, q) ↦ v.inside j m q
      ];
      held = λ h.
          let (j, m, q) = v.held h in
          elim (assign-cases i outside roles j) [
            | inl (u, g) ↦
                absurd (leaving-ne-in_run n m (sym e ∙ subst (λ x. roles x ≡ in_run m) u q))
            | inr (u, g) ↦ (j, m, g ∙ q)
          ];
      clear = v.clear;
      past = λ m h. elim (Bool-cases (m == n)) [
        | inl u ↦ subst (λ x. x < r.next) (sym ((==_iff m n).0 u)) (v.fresh i n mine)
        | inr u ↦ v.past m (ground (arith, u))
      ];
      once = (v.is_open i n mine, v.once);
      awaited = λ j m h. elim (back (λ x. awaits x ≡ some m) i outside roles j h) [
        | inl (u, q) ↦ absurd (ground arith)
        | inr (u, q) ↦ elim (v.awaited j m q) [
          | inl (k, o) ↦ elim (assign-cases i outside roles k) [
            | inl (t, g) ↦
                let w : some n ≡ some m = sym mine ∙ subst (λ x. owner (roles x) ≡ some m) t o in
                inr (ground (arith, ==_iff m n, some-injective n m w))
            | inr (t, g) ↦ inl (k, ap owner g ∙ o)
          ]
          | inr c ↦ inr (ground (arith, c))
        ]
      ];
    }

pub Change-Inv :
    {r s : Runs} {p a : Role} (i : ℕ) (roles : ℕ → Role)
    → roles i ≡ p
    → Change r p s a
    → Inv r roles
    → Inv s (assign i a roles)
unfolding owner awaits
Change-Inv i roles e stays v =
    quiet-Inv i roles (ap owner (sym e)) (λ n h. e ∙ h) (λ n h. sym e ∙ h)
      (λ n h. inl (ap awaits e ∙ h)) v
Change-Inv i roles e waits v =
    quiet-Inv i roles (ap owner (sym e)) (λ n h. absurd (ground arith))
      (λ n h. absurd (ground arith)) (λ n h. inr h) v
Change-Inv i roles e (returns {o = o}) v =
    quiet-Inv i roles (ap owner (sym e)) (λ n h. absurd (ground arith))
      (λ n h. absurd (ground arith)) (λ n h. absurd (ground arith)) v
Change-Inv {r = r} i roles e (begins down) v = begins-Inv r i roles e down v
Change-Inv {r = r} i roles e (releases {n = n}) v = releases-Inv r n i roles e v
Change-Inv {r = r} i roles e (closes {n = n}) v = closes-Inv r n i roles e v
