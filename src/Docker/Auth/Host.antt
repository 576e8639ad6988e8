-- ===== src/Docker/Auth/Host.antt =====
-- executor/docker/auth.go and spec/reference.go agree on the registry of a reference.
use agentfile.Common.{
  ℕ, suc, ◌≡◌, refl, sym, ap, ◌∙◌, inl, inr, true, false, ◌&&◌, Option, none, some, [], ◌∷◌, arith,
  ◌==◌, if◌then◌else◌, Bool-cases, Option-cases,
}
use mathlib.Core.Path.{subst}
use agentfile.Common.Lists.{take}
use agentfile.Common.Texts.{Text, contains, index, last_index}
use agentfile.Spec.Reference.{first_segment, is_host}
use agentfile.Docker.Auth.{docker_hub_short, is_host_like, before, host_candidate, registry_host}

before-cons : (c x : ℕ) (s : Text) → before c (x ∷ s) ≡ (if x == c then [] else x ∷ before c s)
unfolding before index
before-cons c x s = elim (Bool-cases (x == c)) [
  | inl e ↦ ground (arith, e)
  | inr e ↦ elim (Option-cases (index c s)) [
    | inl n ↦ ground (arith, e, n)
    | inr (i, n) ↦ ground (arith, e, n)
  ]
]

before_none : (c : ℕ) (s : Text) → contains c s ≡ false → before c s ≡ s
unfolding contains before index
before_none c [] h = refl
before_none c (x ∷ s) h = elim (Bool-cases (x == c)) [
  | inl e ↦ absurd (ground arith)
  | inr e ↦ before-cons c x s ∙ rw e (ap (λ t. x ∷ t) (before_none c s (ground arith)))
]

before_nil : (c : ℕ) → before c [] ≡ []
unfolding before index
before_nil c = refl

-- What stands before the first of a character stands before the last.
before-take :
    (c : ℕ) (s : Text) (i : ℕ) → last_index c s ≡ some i → before c (take i s) ≡ before c s
unfolding last_index
before-take c [] i h = absurd (ground arith)
before-take c (x ∷ s) i h = elim (Option-cases (last_index c s)) [
  | inr (k, e) ↦
      let same : suc k ≡ i = ground arith in
      subst (λ n. before c (take n (x ∷ s)) ≡ before c (x ∷ s)) same
        (before-cons c x (take k s)
          ∙ ap (λ t. if x == c then [] else x ∷ t) (before-take c s k e)
          ∙ sym (before-cons c x s))
  | inl e ↦ elim (Bool-cases (x == c)) [
    | inl q ↦
        let same : 0 ≡ i = ground arith in
        subst (λ n. before c (take n (x ∷ s)) ≡ before c (x ∷ s)) same
          (before_nil c ∙ sym (before-cons c x s ∙ rw q refl))
    | inr q ↦ absurd (ground arith)
  ]
]

last_index-contains :
    (c : ℕ) (s : Text) → contains c s ≡ elim (last_index c s) [ none ↦ false | some i ↦ true ]
unfolding contains last_index
last_index-contains c [] = refl
last_index-contains c (x ∷ s) = ground (arith, last_index-contains c s)

host_candidate_lem :
    (ref : Text)
    → host_candidate ref ≡ (if contains b'/' ref then some (first_segment ref) else none)
unfolding host_candidate first_segment before
host_candidate_lem ref = elim (Option-cases (last_index b'/' ref)) [
  | inl e ↦ rw (last_index-contains b'/' ref, host_candidate, e) refl
  | inr (i, e) ↦
      rw (last_index-contains b'/' ref, host_candidate, e) (ap some (before-take b'/' ref i e))
]

-- What is made of the candidate.
abbrev host_of : Option Text → Text
host_of o = elim o [
  | none ↦ docker_hub_short
  | some first ↦ if is_host_like first then first else docker_hub_short
]

-- The registry of a ref without a digest is its first segment, if a slash follows and the rules of
-- spec/reference.go take it for a host, and Docker Hub otherwise.
pub registry_host_lem :
    (ref : Text)
    → contains b'@' ref ≡ false
    → registry_host ref ≡ (
        if contains b'/' ref && is_host (first_segment ref)
        then first_segment ref
        else docker_hub_short)
unfolding registry_host host_candidate is_host_like is_host first_segment before
registry_host_lem ref h =
    ap (λ r. host_of (host_candidate r)) (before_none b'@' ref h)
    ∙ ap host_of (host_candidate_lem ref)
    ∙ elim (Bool-cases (contains b'/' ref)) [ inl e ↦ rw e refl | inr e ↦ rw e refl ]
