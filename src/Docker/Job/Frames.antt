-- ===== src/Docker/Job/Frames.antt =====
-- executor/docker/exec_async.go: dockerStdCopy, over the bytes that the stream holds and whether
-- it ends in an error other than its end. The writers are buffers, which take every byte.
pub mod RoundTrip
use agentfile.Common.{
  ℕ, zero, suc, ◌+◌, ◌*◌, ◌/◌, ◌%◌, ◌<◌, ◌≡◌, Bool, false, Option, none, some, List, [], ◌∷◌, ◌++◌,
  arith, ltb, ◌==◌, if◌then◌else◌,
}
use agentfile.Common.Lists.{length, take, drop}

-- What io.ReadFull puts into the header of eight bytes: the stream and the size, a big-endian uint32.
pub record Header : Type 0 where
  pub stream : ℕ
  pub size : ℕ

abbrev pub uint32 : ℕ → ℕ → ℕ → ℕ → ℕ
uint32 a b c d = ((a * 256 + b) * 256 + c) * 256 + d

unfoldable pub read_header : List ℕ → Option (Header × List ℕ)
read_header (s ∷ _ ∷ _ ∷ _ ∷ a ∷ b ∷ c ∷ d ∷ rest) =
    some (record { stream = s; size = uint32 a b c d }, rest)
read_header _ = none

-- What was copied, and whether an error is returned.
pub record Copied : Type 0 where
  pub stdout : List ℕ
  pub stderr : List ℕ
  pub failed : Bool

pub data Outcome : Type 0 where
  copied : Copied → Outcome
  out_of_fuel : Outcome

-- io.CopyN(dst, ...), by the stream
unfoldable pub deliver : ℕ → List ℕ → Copied → Copied
deliver s payload c =
    if s == 1
    then record c { stdout = c.stdout ++ payload }
    else if s == 2
    then record c { stderr = c.stderr ++ payload }
    else c

unfoldable pub finish_copy : Bool → Copied → Outcome
finish_copy broken c = copied (record c { failed = broken })

unfoldable pub copy_loop : ℕ → Bool → List ℕ → Copied → Outcome
unfolding read_header deliver finish_copy
copy_loop zero broken bytes c = out_of_fuel
copy_loop (suc fuel) broken bytes c = elim (read_header bytes) [
  | none ↦ finish_copy broken c
  | some (h, rest) ↦
      let c' = deliver h.stream (take h.size rest) c in
      if h.size == 0
      then copy_loop fuel broken rest c
      else if ltb (length rest) h.size
      then finish_copy broken c'
      else copy_loop fuel broken (drop h.size rest) c'
]

-- Every round takes a header.
unfoldable pub docker_std_copy : Bool → List ℕ → Outcome
unfolding copy_loop
docker_std_copy broken bytes =
    copy_loop (length bytes + 1) broken bytes (record { stdout = []; stderr = []; failed = false })

-- Frames, as the daemon writes them.
pub record Frame : Type 0 where
  pub stream : ℕ
  pub payload : List ℕ

unfoldable pub big_endian : ℕ → List ℕ
big_endian n = n / 16777216 ∷ n / 65536 % 256 ∷ n / 256 % 256 ∷ n % 256 ∷ []

unfoldable pub encode_frame : Frame → List ℕ
unfolding big_endian
encode_frame f = f.stream ∷ 0 ∷ 0 ∷ 0 ∷ big_endian (length f.payload) ++ f.payload

unfoldable pub encode_frames : List Frame → List ℕ
unfolding encode_frame
encode_frames [] = []
encode_frames (f ∷ fs) = encode_frame f ++ encode_frames fs

-- The payloads of a stream, one after the other.
unfoldable pub payloads : ℕ → List Frame → List ℕ
payloads n [] = []
payloads n (f ∷ fs) = let rest = payloads n fs in if f.stream == n then f.payload ++ rest else rest

-- The sizes fit into 32 bits.
abbrev pub FramesFit : List Frame → Type 0
FramesFit [] = Unit
FramesFit (f ∷ fs) = (length f.payload < 4294967296) × FramesFit fs

uint32-big_endian :
    (n : ℕ) → n < 4294967296 → uint32 (n / 16777216) (n / 65536 % 256) (n / 256 % 256) (n % 256) ≡ n
uint32-big_endian n h = omega arith
