-- ===== src/Docker/Job/Frames/RoundTrip.antt =====
-- executor/docker/exec_async.go: copying what was framed.
use mathlib.Core.List.{append_assoc, append-nil}
use agentfile.Common.{
  ℕ, zero, suc, ◌+◌, ◌≤◌, ◌<◌, ◌≡◌, refl, ap, ◌∙◌, ◌≢◌, inl, inr, Bool, true, false, some, List, [],
  ◌∷◌, ◌++◌, arith, ltb, ◌==◌, Bool-cases, Option-cases,
}
use agentfile.Common.Lists.{length, length-append, take, drop, take-length, drop-length}
use agentfile.Docker.Job.Frames.{
  Header, read_header, Copied, copied, out_of_fuel, deliver, finish_copy, copy_loop,
  docker_std_copy, Frame, big_endian, encode_frame, encode_frames, payloads, FramesFit,
  uint32-big_endian,
}

deliver-nil : (s : ℕ) (c : Copied) → deliver s [] c ≡ c
unfolding deliver
deliver-nil s c = rw (append-nil c.stdout, append-nil c.stderr) (ground arith)

empty_of_length : (xs : List ℕ) → (length xs == 0) ≡ true → xs ≡ []
empty_of_length [] h = refl
empty_of_length (x ∷ xs) h = ground arith

read_header-encode :
    (f : Frame) (rest : List ℕ)
    → length f.payload < 4294967296
    → read_header (encode_frame f ++ rest)
      ≡ some (record { stream = f.stream; size = length f.payload }, f.payload ++ rest)
unfolding read_header encode_frame big_endian
read_header-encode f rest h =
    ap (λ n. some (record { stream = f.stream; size = n }, f.payload ++ rest))
      (uint32-big_endian (length f.payload) h)

-- One frame is copied in one round.
copy_loop-frame :
    (fuel : ℕ) (broken : Bool) (f : Frame) (rest : List ℕ) (c : Copied)
    → length f.payload < 4294967296
    → copy_loop (suc fuel) broken (encode_frame f ++ rest) c
      ≡ copy_loop fuel broken rest (deliver f.stream f.payload c)
unfolding copy_loop
copy_loop-frame fuel broken f rest c h = elim (Bool-cases (length f.payload == 0)) [
  | inl e ↦
      let nil : f.payload ≡ [] = empty_of_length f.payload e in
      rw (read_header-encode f rest h, copy_loop) (rw (e, nil, deliver-nil f.stream c) refl)
  | inr e ↦
      let fits : ltb (length (f.payload ++ rest)) (length f.payload) ≡ false =
        ground (arith, length-append f.payload rest) in
      rw (read_header-encode f rest h, copy_loop)
        (rw (e, fits, take-length f.payload rest, drop-length f.payload rest) refl)
]

abbrev with_frames : List Frame → Bool → Copied → Copied
with_frames fs broken c = record {
  stdout = c.stdout ++ payloads 1 fs;
  stderr = c.stderr ++ payloads 2 fs;
  failed = broken;
}

with_frames-cons :
    (f : Frame) (fs : List Frame) (broken : Bool) (c : Copied)
    → with_frames fs broken (deliver f.stream f.payload c) ≡ with_frames (f ∷ fs) broken c
unfolding deliver payloads
with_frames-cons f fs broken c = ground (
  arith,
  append_assoc c.stdout f.payload (payloads 1 fs),
  append_assoc c.stderr f.payload (payloads 2 fs),
)

copy_loop-frames :
    (fuel : ℕ) (broken : Bool) (fs : List Frame) (c : Copied)
    → length fs < fuel
    → FramesFit fs
    → copy_loop fuel broken (encode_frames fs) c ≡ copied (with_frames fs broken c)
unfolding encode_frames
copy_loop-frames zero broken fs c h k = absurd (omega arith)
copy_loop-frames (suc fuel) broken [] c h k =
    unfold copy_loop finish_copy read_header payloads in
    rw (append-nil c.stdout, append-nil c.stderr) refl
copy_loop-frames (suc fuel) broken (f ∷ fs) c h k =
    copy_loop-frame fuel broken f (encode_frames fs) c k.0
    ∙ copy_loop-frames fuel broken fs (deliver f.stream f.payload c) (omega arith) k.1
    ∙ ap copied (with_frames-cons f fs broken c)

length-encode_frames : (fs : List Frame) → length fs ≤ length (encode_frames fs)
unfolding encode_frames encode_frame big_endian
length-encode_frames [] = omega arith
length-encode_frames (f ∷ fs) =
    omega (arith, length-append (encode_frame f) (encode_frames fs), length-encode_frames fs)

-- What was framed comes apart: copying a stream of frames whose sizes fit into 32 bits gives the payloads
-- of stream 1 and those of stream 2, each in order; other streams are dropped, and a frame without a
-- payload changes nothing.
pub docker_std_copy-encode_frames :
    (broken : Bool) (fs : List Frame)
    → FramesFit fs
    → docker_std_copy broken (encode_frames fs)
      ≡ copied (record { stdout = payloads 1 fs; stderr = payloads 2 fs; failed = broken })
unfolding docker_std_copy
docker_std_copy-encode_frames broken fs k =
    copy_loop-frames (length (encode_frames fs) + 1) broken fs
      (record { stdout = []; stderr = []; failed = false }) (omega (arith, length-encode_frames fs))
      k

copied_ne : (broken : Bool) (c : Copied) → finish_copy broken c ≢ out_of_fuel
unfolding finish_copy
copied_ne broken c e = cc

read_header-rest :
    (bytes : List ℕ) (h : Header) (rest : List ℕ)
    → read_header bytes ≡ some (h, rest)
    → length rest < length bytes
unfolding read_header
read_header-rest [] h rest e = cc
read_header-rest (_ ∷ []) h rest e = cc
read_header-rest (_ ∷ _ ∷ []) h rest e = cc
read_header-rest (_ ∷ _ ∷ _ ∷ []) h rest e = cc
read_header-rest (_ ∷ _ ∷ _ ∷ _ ∷ []) h rest e = cc
read_header-rest (_ ∷ _ ∷ _ ∷ _ ∷ _ ∷ []) h rest e = cc
read_header-rest (_ ∷ _ ∷ _ ∷ _ ∷ _ ∷ _ ∷ []) h rest e = cc
read_header-rest (_ ∷ _ ∷ _ ∷ _ ∷ _ ∷ _ ∷ _ ∷ []) h rest e = cc
read_header-rest (_ ∷ _ ∷ _ ∷ _ ∷ _ ∷ _ ∷ _ ∷ _ ∷ bytes) h rest e = ground arith

length-drop_le : (n : ℕ) (xs : List ℕ) → length (drop n xs) ≤ length xs
length-drop_le zero xs = omega arith
length-drop_le (suc n) [] = omega arith
length-drop_le (suc n) (x ∷ xs) = omega (arith, length-drop_le n xs)

copy_loop-ne :
    (fuel : ℕ) (broken : Bool) (bytes : List ℕ) (c : Copied)
    → length bytes < fuel
    → copy_loop fuel broken bytes c ≢ out_of_fuel
unfolding copy_loop
copy_loop-ne zero broken bytes c h = absurd (omega arith)
copy_loop-ne (suc fuel) broken bytes c h = elim (Option-cases (read_header bytes)) [
  | inl e ↦ rw (e, copy_loop) (copied_ne broken c)
  | inr ((hd, rest), e) ↦
      let shorter = read_header-rest bytes hd rest e in
      let c' = deliver hd.stream (take hd.size rest) c in
      λ x. ground (
        arith,
        e,
        copied_ne broken c',
        copy_loop-ne fuel broken rest c (omega arith),
        copy_loop-ne fuel broken (drop hd.size rest) c'
            (omega (arith, length-drop_le hd.size rest)),
      )
]

-- The copy ends on every stream.
docker_std_copy-ne-out_of_fuel :
    (broken : Bool) (bytes : List ℕ) → docker_std_copy broken bytes ≢ out_of_fuel
unfolding docker_std_copy
docker_std_copy-ne-out_of_fuel broken bytes =
    copy_loop-ne (length bytes + 1) broken bytes
      (record { stdout = []; stderr = []; failed = false }) (omega arith)
