-- ===== src/System/Io/Keeps.antt =====
-- What the operations of a part of the code have in common.
use agentfile.Common.{
  ◌≡◌, refl, sym, inl, inr, Bool, true, false, Option, none, some, List, [], ◌∷◌, if◌then◌else◌,
}
use mathlib.Core.Path.{subst}
use agentfile.Common.Lists.{All}
use agentfile.Common.Results.{Result, ok, err, Result-cases}
use agentfile.Executor.Runtime.{HostMount}
use agentfile.System.Io.{
  Effect, Failure, State, Io, run, then_on, ◌>>=◌, ◌>>◌, give, pure, raise, read, set_mounts,
  set_view, join_error, ignore, for_each, act, View,
}

-- Whatever the state, the operations that a part of the code adds are of this kind.
pub data Keeps {A : Type 0} (P : Effect → Type 0) (m : Io A) : Type 0 where
  keep : ((s : State) → All P s.done → All P (run m s).0.done) → Keeps P m

module _ {P : Effect → Type 0} where
  pub kept :
      {A : Type 0} {m : Io A} → Keeps P m → (s : State) → All P s.done → All P (run m s).0.done
  kept (keep k) = k

  -- A chain of two parts, of which the second runs on a result of the first.
  pub Keeps-after :
      {A B : Type 0} {m : Io A} {f : A → Io B}
      → Keeps P m
      → ((s : State) (x : A) → (run m s).1 ≡ ok x → Keeps P (f x))
      → Keeps P (m >>= f)
  unfolding ◌>>=◌
  Keeps-after {m = m} {f = f} (keep k) next = keep (λ s h. elim (Result-cases (run m s).1) [
    | inl (x, e) ↦
        subst (λ r. All P (then_on f (run m s).0 r).0.done) (sym e)
          (kept (next s x e) (run m s).0 (k s h))
    | inr (why, e) ↦ subst (λ r. All P (then_on f (run m s).0 r).0.done) (sym e) (k s h)
  ])

  pub Keeps->>= :
      {A B : Type 0} {m : Io A} {f : A → Io B}
      → Keeps P m
      → ((x : A) → Keeps P (f x))
      → Keeps P (m >>= f)
  Keeps->>= k next = Keeps-after k (λ s x e. next x)

  pub Keeps->> :
      {B : Type 0} {m : Io (Unit {0})} {k : Io B} → Keeps P m → Keeps P k → Keeps P (m >> k)
  unfolding ◌>>◌
  Keeps->> first next = Keeps->>= first (λ _. next)

  pub Keeps-give : {A : Type 0} (r : Result Failure A) → Keeps P (give r)
  unfolding give
  Keeps-give r = keep (λ s h. h)

  pub Keeps-pure : {A : Type 0} (x : A) → Keeps P (pure x)
  unfolding pure
  Keeps-pure x = keep (λ s h. h)

  pub Keeps-raise : {A : Type 0} (e : Failure) → Keeps P (raise {A = A} e)
  unfolding raise
  Keeps-raise e = keep (λ s h. h)

  pub Keeps-read : Keeps P read
  unfolding read
  Keeps-read = keep (λ s h. h)

  pub Keeps-set_mounts : (ms : List HostMount) → Keeps P (set_mounts ms)
  unfolding set_mounts
  Keeps-set_mounts ms = keep (λ s h. h)

  pub Keeps-set_view : (view : View) → Keeps P (set_view view)
  unfolding set_view
  Keeps-set_view view = keep (λ s h. h)

  pub Keeps-ignore : {m : Io (Unit {0})} → Keeps P m → Keeps P (ignore m)
  unfolding ignore
  Keeps-ignore (keep k) = keep k

  pub Keeps-join_error :
      {A : Type 0} (e : Failure) {m : Io A} → Keeps P m → Keeps P (join_error e m)
  unfolding join_error
  Keeps-join_error e (keep k) = keep k

  pub Keeps-for_each :
      {A : Type 0} {Q : A → Type 0} {f : A → Io (Unit {0})} (xs : List A)
      → ((x : A) → Q x → Keeps P (f x))
      → All Q xs
      → Keeps P (for_each f xs)
  unfolding for_each
  Keeps-for_each [] each h = Keeps-pure tt
  Keeps-for_each (x ∷ xs) each (now, later) = Keeps->> (each x now) (Keeps-for_each xs each later)

  pub Keeps-every :
      {A : Type 0} (f : A → Io (Unit {0})) (xs : List A)
      → ((x : A) → Keeps P (f x))
      → Keeps P (for_each f xs)
  unfolding for_each
  Keeps-every f [] each = Keeps-pure tt
  Keeps-every f (x ∷ xs) each = Keeps->> (each x) (Keeps-every f xs each)

  pub Keeps-if :
      {A : Type 0} (b : Bool) {m n : Io A}
      → (b ≡ true → Keeps P m)
      → (b ≡ false → Keeps P n)
      → Keeps P (if b then m else n)
  Keeps-if true y n = y refl
  Keeps-if false y n = n refl

  pub Keeps-elim :
      {A B : Type 0} (o : Option A) {m : Io B} {f : A → Io B}
      → Keeps P m
      → ((x : A) → Keeps P (f x))
      → Keeps P (elim o [ none ↦ m | some x ↦ f x ])
  Keeps-elim none nothing just = nothing
  Keeps-elim (some x) nothing just = just x

  pub Keeps-act : (fails : List Effect → Effect → Bool) (e : Effect) → P e → Keeps P (act fails e)
  unfolding act
  Keeps-act fails e p = keep (λ s h. (p, h))

pub Result-elim :
    {E A B : Type 0} (R : Io B → Type 0) (r : Result E A) {m : E → Io B} {f : A → Io B}
    → ((e : E) → R (m e))
    → ((x : A) → r ≡ ok x → R (f x))
    → R (elim r [ err e ↦ m e | ok x ↦ f x ])
Result-elim R (ok x) bad good = good x refl
Result-elim R (err e) bad good = bad e

pub Option-elim :
    {A B : Type 0} (R : Io B → Type 0) (o : Option A) {m : Io B} {f : A → Io B}
    → R m
    → ((x : A) → o ≡ some x → R (f x))
    → R (elim o [ none ↦ m | some x ↦ f x ])
Option-elim R none bad good = bad
Option-elim R (some x) bad good = good x refl
