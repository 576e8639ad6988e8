-- ===== src/Common/Results.antt =====
-- Go's `(T, error)` as a value: an error that is not nil ends the function.
use agentfile.Common.Lists.{All, All-map}
use mathlib.Core.Logic.{◌↔◌, ◌≢◌, ◌⊎◌, inl, inr}
use native.Mathlib.Omega.{arith}
use mathlib.Core.Path.{◌≡◌, refl}
use mathlib.Core.List.{List, [], ◌∷◌}
use mathlib.Core.Bool.{Bool, true, false}

pub data Result (E : Type 0) (A : Type 0) : Type 0 where
  ok : A → Result E A
  err : E → Result E A

infixl 5 ◌>>=◌ ◌>>◌
abbrev pub ◌>>=◌ : {E A B : Type 0} → Result E A → (A → Result E B) → Result E B
err why >>= next = err why
ok x >>= next = next x

abbrev pub ◌>>◌ : {E B : Type 0} → Result E (Unit {0}) → Result E B → Result E B
m >> k = m >>= λ _. k

-- `if test { return e }`
abbrev pub reject_if : {E : Type 0} → Bool → E → Result E (Unit {0})
reject_if true e = err e
reject_if false e = ok tt

-- A chain that succeeds went through a first part that did.
pub >>=-eq-ok :
    {E A B : Type 0} (first : Result E A) (next : A → Result E B) {r : B}
    → (first >>= next) ≡ ok r
    → (x : A) × (first ≡ ok x) × (next x ≡ ok r)
>>=-eq-ok (err why) next e = cc
>>=-eq-ok (ok x) next e = (x, refl, e)

pub >>-eq-ok :
    {E B : Type 0} (m : Result E (Unit {0})) (k : Result E B) {b : B}
    → (m >> k) ≡ ok b
    → (m ≡ ok tt) × (k ≡ ok b)
>>-eq-ok (ok u) k h = (refl, h)
>>-eq-ok (err e) k h = cc

module _ {E A : Type 0} where
  -- for _, x := range xs { if err := f(x); err != nil { return err } }
  unfoldable pub check_all : (A → Result E (Unit {0})) → List A → Result E (Unit {0})
  check_all f [] = ok tt
  check_all f (x ∷ xs) = do f x; check_all f xs

  pub check_all-ok :
      (f : A → Result E (Unit {0})) (xs : List A)
      → All (λ x. f x ≡ ok tt) xs
      → check_all f xs ≡ ok tt
  unfolding check_all
  check_all-ok f [] h = refl
  check_all-ok f (x ∷ xs) h = rw h.0 (check_all-ok f xs h.1)

  pub ok-check_all :
      (f : A → Result E (Unit {0})) (xs : List A)
      → check_all f xs ≡ ok tt
      → All (λ x. f x ≡ ok tt) xs
  unfolding check_all
  ok-check_all f [] h = tt
  ok-check_all f (x ∷ xs) h =
      let (now, later) = >>-eq-ok (f x) (check_all f xs) h in (now, ok-check_all f xs later)

-- A checked list obeys the rule that the check decides.
pub check_all_iff :
    {E A : Type 0} (f : A → Result E (Unit {0})) (P : A → Type 0) (xs : List A)
    → ((x : A) → (f x ≡ ok tt) ↔ P x)
    → (check_all f xs ≡ ok tt) ↔ All P xs
check_all_iff f P xs iff = (
  λ h. All-map _ P xs (λ x. (iff x).0) (ok-check_all f xs h),
  λ h. check_all-ok f xs (All-map P _ xs (λ x. (iff x).1) h),
)

pub Result-cases :
    {E A : Type 0} (m : Result E A) → ((a : A) × (m ≡ ok a)) ⊎ ((e : E) × (m ≡ err e))
Result-cases (ok a) = inl (a, refl)
Result-cases (err e) = inr (e, refl)

-- A chain fails with an error only if one of its parts does.
pub >>=-ne-err :
    {E A B : Type 0} (m : Result E A) (f : A → Result E B) {e : E}
    → m ≢ err e
    → ((a : A) → f a ≢ err e)
    → (m >>= f) ≢ err e
>>=-ne-err (ok a) f h k = k a
>>=-ne-err (err c) f h k = λ x. h (ground arith)
