-- ===== src/Orchestrator/Stops.antt =====
-- The stages of `_process_mounted` (box/bin/ca-usb-run) up to the signature's verification: they stop a
-- run before the stick may be written to.
use nebula_ca_harness.Prelude.{
  ℕ, ◌≤◌, String, ◌≡◌, refl, ap, subst, inl, inr, Bool, true, false, Option, none, some, length,
  ltb, arith, string_eq, Result, ok, err, ◌>>=◌, bind_inv, ok-injective, Bool-cases, Result-cases,
}
use nebula_ca_harness.Commitlog.{Bytes}
use nebula_ca_harness.Verify.{Tools, verify, verify_breakglass_primary, verify_cosign}
use nebula_ca_harness.Verify
use nebula_ca_harness.Orchestrator.{
  Copy, copied, too_large, unreadable, copy_capped, tmp_tar, tmp_sig, tmp_bg, allowed, breakglass,
  tar_cap, sig_cap, World,
}
use nebula_ca_harness.Orchestrator.Admit.{
  Stop, unverified, verified, unforeseen, Loaded, authenticate, break_glass, cosign_of, copy_or,
  verify_stop, or_stop, load, load_bg,
}

-- The run ends before a signature is verified, or by an exception.
abbrev pub is_early : Stop → Bool
is_early (verified reason phase c) = false
is_early (unverified reason) = true
is_early unforeseen = true

abbrev pub IsEarly : {A : Type 0} → Result Stop A → Type 0
IsEarly (ok a) = Unit
IsEarly (err e) = is_early e ≡ true

IsEarly-bind :
    {A B : Type 0} (m : Result Stop A) (f : A → Result Stop B)
    → IsEarly m
    → ((a : A) → IsEarly (f a))
    → IsEarly (m >>= f)
IsEarly-bind (ok a) f h k = k a
IsEarly-bind (err e) f h k = h

copy_or-IsEarly : (reason : String) (c : Copy) → IsEarly (copy_or reason c)
copy_or-IsEarly reason (copied b) = tt
copy_or-IsEarly reason too_large = refl
copy_or-IsEarly reason unreadable = refl

load_bg-IsEarly : (o : Option (Option Bytes)) → IsEarly (load_bg o)
unfolding load_bg
load_bg-IsEarly none = tt
load_bg-IsEarly (some data') = go (copy_capped data' sig_cap)
  where
    go :
        (c : Copy)
        → IsEarly (elim c as (λ _. Result Stop Bool) [
          | copied b ↦ ok true
          | too_large ↦ err (unverified "oversize")
          | unreadable ↦ ok false
        ])
    go (copied b) = tt
    go too_large = refl
    go unreadable = tt

pub load-IsEarly : (w : World) (job_tar : Option Bytes) → IsEarly (load w job_tar)
unfolding load
load-IsEarly w job_tar =
    IsEarly-bind (copy_or "bad_manifest" (copy_capped job_tar tar_cap)) _
      (copy_or-IsEarly _ (copy_capped job_tar tar_cap))
      λ tar.
        IsEarly-bind (copy_or "verify_failed" (copy_capped w.job_sig sig_cap)) _
          (copy_or-IsEarly _ (copy_capped w.job_sig sig_cap))
          λ sig. IsEarly-bind (load_bg w.bg_sig) _ (load_bg-IsEarly w.bg_sig) λ bg_present. tt

or_stop-IsEarly : {A : Type 0} (r : Result Verify.Reason A) → IsEarly (or_stop verify_stop r)
or_stop-IsEarly (ok a) = tt
or_stop-IsEarly (err Verify.verify_failed) = refl
or_stop-IsEarly (err Verify.cosign_failed) = refl
or_stop-IsEarly (err Verify.value_error) = refl

cosign_of-IsEarly : (b : Bool) (r : Result Verify.Reason (Unit {0})) → IsEarly (cosign_of b r)
cosign_of-IsEarly false r = tt
cosign_of-IsEarly true (ok u) = tt
cosign_of-IsEarly true (err Verify.verify_failed) = tt
cosign_of-IsEarly true (err Verify.cosign_failed) = tt
cosign_of-IsEarly true (err Verify.value_error) = refl

break_glass-IsEarly : (t : Tools) → IsEarly (break_glass t)
unfolding break_glass
break_glass-IsEarly t =
    IsEarly-bind (or_stop verify_stop (verify_breakglass_primary t tmp_tar tmp_sig breakglass)) _
      (or_stop-IsEarly (verify_breakglass_primary t tmp_tar tmp_sig breakglass)) λ p. tt

pub authenticate-IsEarly : (t : Tools) (bg_present : Bool) → IsEarly (authenticate t bg_present)
unfolding authenticate
authenticate-IsEarly t bg_present = elim (Result-cases (verify t tmp_tar tmp_sig allowed)) [
  | inl (p, e) ↦
      rw (e, authenticate)
        (IsEarly-bind (cosign_of bg_present (verify_cosign t tmp_tar tmp_bg breakglass allowed)) _
          (cosign_of-IsEarly bg_present (verify_cosign t tmp_tar tmp_bg breakglass allowed))
          λ c. tt)
  | inr (f, e) ↦ fallback f e
]
  where
    fallback :
        (f : Verify.Reason)
        → verify t tmp_tar tmp_sig allowed ≡ err f
        → IsEarly (authenticate t bg_present)
    fallback Verify.verify_failed e = rw (e, authenticate) (break_glass-IsEarly t)
    fallback Verify.cosign_failed e = rw (e, authenticate) (break_glass-IsEarly t)
    fallback Verify.value_error e = rw (e, authenticate) refl

copy_or_inv :
    (reason : String) (cap : ℕ) (o : Option Bytes) {b : Bytes}
    → copy_or reason (copy_capped o cap) ≡ ok b
    → (o ≡ some b) × (length b ≤ cap)
unfolding copy_capped
copy_or_inv reason cap none h = absurd cc
copy_or_inv reason cap (some c) {b} h = elim (Bool-cases (ltb cap (length c))) [
  | inl e ↦ absurd (cc (rw (e, copy_capped) at h))
  | inr e ↦
      let same : c ≡ b = ok-injective (rw (e, copy_capped) at h) in
      (ap some same, subst (λ x. length x ≤ cap) same (ground arith))
]

pub load_inv :
    (w : World) (job_tar : Option Bytes) {l : Loaded}
    → load w job_tar ≡ ok l
    → (job_tar ≡ some l.tar) × (length l.tar ≤ tar_cap)
unfolding load
load_inv w job_tar h =
    bind_inv (copy_or "bad_manifest" (copy_capped job_tar tar_cap)) h λ tar e1 h1.
      bind_inv (copy_or "verify_failed" (copy_capped w.job_sig sig_cap)) h1 λ sig e2 h2.
        bind_inv (load_bg w.bg_sig) h2 λ bg e3 h3.
          subst (λ l. (job_tar ≡ some l.tar) × (length l.tar ≤ tar_cap)) (ok-injective h3)
            (copy_or_inv "bad_manifest" tar_cap job_tar e1)
