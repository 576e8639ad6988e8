-- ===== src/Executor/Status/Channels.antt =====
-- What sends, closes and receives do to the other channels.
use agentfile.Common.{
  ℕ, zero, suc, ◌≤◌, ◌≡◌, refl, ◌∙◌, ◌≢◌, ap, true, false, some, List, [], ◌∷◌, ◌++◌, arith,
}
use agentfile.Common.Lists.{length, length-append, drop, All}
use agentfile.Executor.Status.{Status, Channel, offer, send, broadcast, is_open, close, receive}

-- The buffer is within its size.
abbrev pub IsBounded : Channel → Type 0
IsBounded c = length c.buffer ≤ 16

-- The subscribers' channels are open.
abbrev pub AllOpen : List Channel → List (ℕ × ℕ) → Type 0
AllOpen cs [] = Unit
AllOpen cs ((id, ch) ∷ subs) = (is_open ch cs ≡ true) × AllOpen cs subs

-- What leaves the same channels open, and keeps the bounds if they are kept.
pub record Agrees (cs ds : List Channel) : Type 0 where
  pub opens : (n : ℕ) → is_open n ds ≡ is_open n cs
  pub count : length ds ≡ length cs
  pub bounded : All IsBounded cs → All IsBounded ds

pub offer-IsBounded : (s : Status) (c : Channel) → IsBounded c → IsBounded (offer s c)
unfolding offer
offer-IsBounded s c h = ground (arith, length-append c.buffer (s ∷ []))

offer-closed : (s : Status) (c : Channel) → (offer s c).closed ≡ c.closed
unfolding offer
offer-closed s c = ground arith

is_open-cons :
    (c d : Channel) (cs ds : List Channel)
    → d.closed ≡ c.closed
    → ((n : ℕ) → is_open n ds ≡ is_open n cs)
    → (n : ℕ) → is_open n (d ∷ ds) ≡ is_open n (c ∷ cs)
unfolding is_open
is_open-cons c d cs ds e h zero = rw e refl
is_open-cons c d cs ds e h (suc n) = h n

send-open :
    (s : Status) (n : ℕ) (cs : List Channel)
    → is_open n cs ≡ true
    → (ds : List Channel) × (send s n cs ≡ some ds) × Agrees cs ds
unfolding send is_open
send-open s n [] h = cc
send-open s zero (c ∷ cs) h = (
  offer s c ∷ cs,
  ground arith,
  record {
    opens = is_open-cons c (offer s c) cs cs (offer-closed s c) (λ n. refl);
    count = refl;
    bounded = λ b. (offer-IsBounded s c b.0, b.1);
  },
)
send-open s (suc n) (c ∷ cs) h =
    let (ds, e, a) = send-open s n cs h in
    (
      c ∷ ds,
      ground arith,
      record {
        opens = is_open-cons c c cs ds refl a.opens;
        count = omega (arith, a.count);
        bounded = λ b. (b.0, a.bounded b.1);
      },
    )

pub AllOpen-Agrees :
    (cs ds : List Channel) (subs : List (ℕ × ℕ)) → Agrees cs ds → AllOpen cs subs → AllOpen ds subs
AllOpen-Agrees cs ds [] a h = tt
AllOpen-Agrees cs ds ((id, ch) ∷ subs) a h = (a.opens ch ∙ h.0, AllOpen-Agrees cs ds subs a h.1)

-- A broadcast to open channels is never stopped, and leaves all channels as open as they were.
pub broadcast-open :
    (s : Status) (subs : List (ℕ × ℕ)) (cs : List Channel)
    → AllOpen cs subs
    → (ds : List Channel) × (broadcast s subs cs ≡ some ds) × Agrees cs ds
unfolding broadcast
broadcast-open s [] cs h = (cs, refl, record { opens = λ n. refl; count = refl; bounded = λ b. b })
broadcast-open s ((id, ch) ∷ subs) cs h =
    let (ds, e, a) = send-open s ch cs h.0 in
    let (es, f, b) = broadcast-open s subs ds (AllOpen-Agrees cs ds subs a h.1) in
    (
      es,
      rw (e, broadcast) f,
      record {
        opens = λ n. b.opens n ∙ a.opens n;
        count = b.count ∙ a.count;
        bounded = λ x. b.bounded (a.bounded x);
      },
    )

drop_one : (b : List Status) → length (drop 1 b) ≤ length b
drop_one [] = omega arith
drop_one (s ∷ b) = omega arith

pub receive-Agrees : (n : ℕ) (cs : List Channel) → Agrees cs (receive n cs)
unfolding receive
receive-Agrees n [] = record { opens = λ n. refl; count = refl; bounded = λ b. b }
receive-Agrees zero (c ∷ cs) = record {
  opens = is_open-cons c (record c { buffer = drop 1 c.buffer }) cs cs refl (λ n. refl);
  count = refl;
  bounded = λ b. (omega (arith, b.0, drop_one c.buffer), b.1);
}
receive-Agrees (suc n) (c ∷ cs) =
    let a = receive-Agrees n cs in
    record {
      opens = is_open-cons c c cs (receive n cs) refl a.opens;
      count = omega (arith, a.count);
      bounded = λ b. (b.0, a.bounded b.1);
    }

-- A close reaches no other channel.
pub is_open-close : (n m : ℕ) (cs : List Channel) → n ≢ m → is_open n (close m cs) ≡ is_open n cs
unfolding is_open close
is_open-close n m [] ne = refl
is_open-close zero zero (c ∷ cs) ne = absurd (ne refl)
is_open-close zero (suc m) (c ∷ cs) ne = refl
is_open-close (suc n) zero (c ∷ cs) ne = refl
is_open-close (suc n) (suc m) (c ∷ cs) ne = is_open-close n m cs (λ e. ne (ap suc e))

pub length-close : (m : ℕ) (cs : List Channel) → length (close m cs) ≡ length cs
unfolding close
length-close m [] = refl
length-close zero (c ∷ cs) = refl
length-close (suc m) (c ∷ cs) = omega (arith, length-close m cs)

pub close-IsBounded : (m : ℕ) (cs : List Channel) → All IsBounded cs → All IsBounded (close m cs)
unfolding close
close-IsBounded m [] b = b
close-IsBounded zero (c ∷ cs) b = b
close-IsBounded (suc m) (c ∷ cs) b = (b.0, close-IsBounded m cs b.1)

-- A new channel at the end is open, and the others stay as they are.
pub is_open-new :
    (n : ℕ) (c : Channel) (cs : List Channel)
    → is_open n cs ≡ true
    → is_open n (cs ++ c ∷ []) ≡ true
unfolding is_open
is_open-new n c [] h = cc
is_open-new zero c (d ∷ cs) h = h
is_open-new (suc n) c (d ∷ cs) h = is_open-new n c cs h

pub is_open-last :
    (c : Channel) (cs : List Channel) → c.closed ≡ false → is_open (length cs) (cs ++ c ∷ []) ≡ true
unfolding is_open
is_open-last c [] h = ground arith
is_open-last c (d ∷ cs) h = is_open-last c cs h
