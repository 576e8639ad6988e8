-- ===== src/Docker/Launch/Supplied.antt =====
-- executor/docker/agent.go and container.go: no container is created before its images are there.
use mathlib.Core.Path.{subst}
use agentfile.Common.{
  ◌≡◌, refl, sym, ap, ◌∙◌, ◌⊎◌, inl, inr, Bool, true, List, [], ◌∷◌, arith, Bool-cases,
}
use agentfile.Common.Lists.{All}
use agentfile.Common.Texts.{Text, is_empty}
use agentfile.Docker.Launch
use agentfile.Docker.Launch.Images.{image_sources}
use agentfile.Executor.Status.{FailureReason}

-- The daemon has found the image or pulled it.
abbrev pub Available : Launch.Daemon → Text → List Launch.Call → Type 0
Available daemon ref [] = ⊥
Available daemon ref (c ∷ calls) =
    (((c ≡ Launch.inspect_image ref) ⊎ (c ≡ Launch.pull_image ref))
      × (daemon.succeeds calls c ≡ true))
    ⊎ Available daemon ref calls

-- So it has, unless the ref is empty.
abbrev pub IsThere : Launch.Daemon → List Launch.Call → Text → Type 0
IsThere daemon calls ref = (is_empty ref ≡ true) ⊎ Available daemon ref calls

-- What is needed when a call is made.
abbrev pub Needs : Launch.Daemon → List Launch.Call → Launch.Call → Type 0
Needs daemon calls (Launch.create_container config host name) =
    IsThere daemon calls config.image × All (IsThere daemon calls) (image_sources host.mounts)
Needs daemon calls _ = Unit

-- Each container that was created had its images.
abbrev pub IsSupplied : Launch.Daemon → List Launch.Call → Type 0
IsSupplied daemon [] = Unit
IsSupplied daemon (c ∷ calls) = Needs daemon calls c × IsSupplied daemon calls

module _ (daemon : Launch.Daemon) where
  pub Available-later :
      (c : Launch.Call) (calls : List Launch.Call) (ref : Text)
      → IsThere daemon calls ref
      → IsThere daemon (c ∷ calls) ref
  Available-later c calls ref (inl e) = inl e
  Available-later c calls ref (inr a) = inr (inr a)

  -- A round leaves the image there if it goes on, and keeps the others.
  ensure_image-IsThere :
      (ref : Text) (l : Launch.Launch)
      → (Launch.ensure_image daemon ref l).1 ≡ true
      → IsThere daemon (Launch.ensure_image daemon ref l).0.calls ref
  unfolding Launch.ensure_image Launch.call Launch.done
  ensure_image-IsThere ref l h =
      elim (Bool-cases (daemon.succeeds l.calls (Launch.inspect_image ref))) [
        | inl e ↦ rw e (inr (inl (inl refl, e)))
        | inr e ↦ rw e (inr (inl (inr refl, rw e at h)))
      ]

  ensure_image-keep :
      (ref k : Text) (l : Launch.Launch)
      → IsThere daemon l.calls k
      → IsThere daemon (Launch.ensure_image daemon ref l).0.calls k
  unfolding Launch.ensure_image Launch.call Launch.done
  ensure_image-keep ref k l h =
      elim (Bool-cases (daemon.succeeds l.calls (Launch.inspect_image ref))) [
        | inl e ↦ rw e (Available-later (Launch.inspect_image ref) l.calls k h)
        | inr e ↦
            let looked = Launch.inspect_image ref ∷ l.calls in
            rw e (
              Available-later (Launch.pull_image ref) looked k
                (Available-later (Launch.inspect_image ref) l.calls k h))
      ]

  ensure_image-IsSupplied :
      (ref : Text) (l : Launch.Launch)
      → IsSupplied daemon l.calls
      → IsSupplied daemon (Launch.ensure_image daemon ref l).0.calls
  unfolding Launch.ensure_image Launch.call Launch.done
  ensure_image-IsSupplied ref l h =
      elim (Bool-cases (daemon.succeeds l.calls (Launch.inspect_image ref))) [
        | inl e ↦ rw e (tt, h)
        | inr e ↦ rw e (tt, (tt, h))
      ]

  pub ensure_images-keep :
      (refs : List Text) (k : Text) (l : Launch.Launch)
      → IsThere daemon l.calls k
      → IsThere daemon (Launch.ensure_images daemon refs l).0.calls k
  unfolding Launch.ensure_images
  ensure_images-keep [] k l h = h
  ensure_images-keep (ref ∷ refs) k l h =
      let kept = ensure_image-keep ref k l h in
      elim (Bool-cases (Launch.ensure_image daemon ref l).1) [
        | inl e ↦
            rw (Launch.ensure_images, e)
              (ensure_images-keep refs k (Launch.ensure_image daemon ref l).0 kept)
        | inr e ↦ rw (Launch.ensure_images, e) kept
      ]

  pub ensure_images-IsThere :
      (refs : List Text) (l : Launch.Launch)
      → (Launch.ensure_images daemon refs l).1 ≡ true
      → All (IsThere daemon (Launch.ensure_images daemon refs l).0.calls) refs
  unfolding Launch.ensure_images
  ensure_images-IsThere [] l h = tt
  ensure_images-IsThere (ref ∷ refs) l h =
      let after = (Launch.ensure_image daemon ref l).0 in
      elim (Bool-cases (Launch.ensure_image daemon ref l).1) [
        | inl e ↦
            let step : Launch.ensure_images daemon (ref ∷ refs) l
                ≡ Launch.ensure_images daemon refs after =
              rw (Launch.ensure_images, e) refl in
            subst (λ (r : Launch.Launch × Bool). All (IsThere daemon r.0.calls) (ref ∷ refs))
              (sym step)
              (
                ensure_images-keep refs ref after (ensure_image-IsThere ref l e),
                ensure_images-IsThere refs after
                    (ap (λ (r : Launch.Launch × Bool). r.1) (sym step) ∙ h),
              )
        | inr e ↦ absurd (ground arith)
      ]

  pub ensure_images-IsSupplied :
      (refs : List Text) (l : Launch.Launch)
      → IsSupplied daemon l.calls
      → IsSupplied daemon (Launch.ensure_images daemon refs l).0.calls
  unfolding Launch.ensure_images
  ensure_images-IsSupplied [] l h = h
  ensure_images-IsSupplied (ref ∷ refs) l h =
      let kept = ensure_image-IsSupplied ref l h in
      elim (Bool-cases (Launch.ensure_image daemon ref l).1) [
        | inl e ↦
            rw (Launch.ensure_images, e)
              (ensure_images-IsSupplied refs (Launch.ensure_image daemon ref l).0 kept)
        | inr e ↦ rw (Launch.ensure_images, e) kept
      ]

  pub fail_unless-IsSupplied :
      (reason : FailureReason) (l : Launch.Launch)
      → IsSupplied daemon l.calls
      → IsSupplied daemon (Launch.fail_unless daemon reason l).calls
  unfolding Launch.fail_unless Launch.call
  fail_unless-IsSupplied reason l h = elim (Bool-cases (daemon.cancelled l.calls)) [
    | inl e ↦ rw e h
    | inr e ↦ rw e (tt, h)
  ]
