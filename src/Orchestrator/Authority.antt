-- ===== src/Orchestrator/Authority.antt =====
-- On whose authority a run of box/bin/ca-usb-run remounts the stick for writing and starts a child.
use nebula_ca_harness.Prelude.{
  String, ◌≡◌, refl, sym, subst, ◌⊎◌, inl, inr, Bool, true, false, not, ◌&&◌, Option, none, some,
  string_eq, str_iff, arith, Result, ok, err, bind_inv, require_inv, ok-injective, Result-cases,
  ◌==◌,
}
use nebula_ca_harness.Commitlog.{Bytes}
use nebula_ca_harness.Verify.{Tools, verify, verify_breakglass_primary, verify_cosign, is_abs}
use nebula_ca_harness.Verify
use nebula_ca_harness.Verify.Cosign.{Vouches, verify_iff, IsCosigned, verify_cosign-IsCosigned}
use nebula_ca_harness.Manifest.{Manifest, parse}
use nebula_ca_harness.Extract.{Tree, extract}
use nebula_ca_harness.Extract
use nebula_ca_harness.Orchestrator.{tmp_tar, tmp_sig, tmp_bg, allowed, breakglass, World, Context}
use nebula_ca_harness.Orchestrator.Admit.{
  Identity, Admitted, Stop, authenticate, break_glass, cosign_of, or_stop, unpack, payload_names,
  manifest_bytes,
}

-- What the program has seen of the signatures of a tar before it trusts an identity: either the
-- operators' anchor vouches for the principal, and the co-signature counts if it is one; or the
-- break-glass anchor does, and there is no co-signature.
abbrev pub IsAuthentic : Tools → Identity → Type 0
IsAuthentic t i =
    ((i.bg_authorized ≡ false)
      × Vouches t tmp_tar tmp_sig allowed i.principal
      × ((i.cosigned ≡ false) ⊎ IsCosigned t tmp_tar tmp_bg breakglass allowed))
    ⊎ ((i.bg_authorized ≡ true)
        × Vouches t tmp_tar tmp_sig breakglass i.principal
        × (i.cosigned ≡ false))

cosign_of-IsCosigned :
    (t : Tools) (bg_present : Bool) (r : Result Verify.Reason (Unit {0})) (cosigned : Bool)
    → verify_cosign t tmp_tar tmp_bg breakglass allowed ≡ r
    → cosign_of bg_present r ≡ ok cosigned
    → (cosigned ≡ false) ⊎ IsCosigned t tmp_tar tmp_bg breakglass allowed
cosign_of-IsCosigned t false r cosigned e h = inl (sym (ok-injective h))
cosign_of-IsCosigned t true (ok tt) cosigned e h =
    inr (verify_cosign-IsCosigned t tmp_tar tmp_bg breakglass allowed e)
cosign_of-IsCosigned t true (err Verify.verify_failed) cosigned e h = inl (sym (ok-injective h))
cosign_of-IsCosigned t true (err Verify.cosign_failed) cosigned e h = inl (sym (ok-injective h))
cosign_of-IsCosigned t true (err Verify.value_error) cosigned e h = absurd cc

-- `verify_breakglass_primary` is `verify` with another anchor.
breakglass_primary-Vouches :
    (t : Tools) (principal : String)
    → verify_breakglass_primary t tmp_tar tmp_sig breakglass ≡ ok principal
    → Vouches t tmp_tar tmp_sig breakglass principal
unfolding verify_breakglass_primary verify
breakglass_primary-Vouches t principal h =
    ((verify_iff t tmp_tar tmp_sig breakglass principal).0 h).1

break_glass-IsAuthentic : (t : Tools) (i : Identity) → break_glass t ≡ ok i → IsAuthentic t i
unfolding break_glass
break_glass-IsAuthentic t i h =
    elim (Result-cases (verify_breakglass_primary t tmp_tar tmp_sig breakglass)) [
      | inl (p, e) ↦
          let same : record { principal = p; bg_authorized = true; cosigned = false } ≡ i =
            ok-injective (rw (e, break_glass) at h) in
          subst (IsAuthentic t) same (inr (refl, breakglass_primary-Vouches t p e, refl))
      | inr (f, e) ↦ absurd cc (rw (e, break_glass) at h)
    ]

pub authenticate-IsAuthentic :
    (t : Tools) (bg_present : Bool) (i : Identity)
    → authenticate t bg_present ≡ ok i
    → IsAuthentic t i
unfolding authenticate
authenticate-IsAuthentic t bg_present i h = elim (Result-cases (verify t tmp_tar tmp_sig allowed)) [
  | inl (p, e) ↦
      bind_inv (cosign_of bg_present (verify_cosign t tmp_tar tmp_bg breakglass allowed))
        (rw (e, authenticate) at h)
        λ cosigned e1 h1. subst (IsAuthentic t) (ok-injective h1) (
          inl (
            refl,
            ((verify_iff t tmp_tar tmp_sig allowed p).0 e).1,
            cosign_of-IsCosigned t bg_present _ cosigned refl e1,
          ))
  | inr (f, e) ↦ fallback f e (rw (e, authenticate) at h)
]
  where
    fallback :
        (f : Verify.Reason)
        → verify t tmp_tar tmp_sig allowed ≡ err f
        → (elim f as (λ _. Result Stop Identity) [
          | Verify.verify_failed ↦ break_glass t
          | Verify.cosign_failed ↦ break_glass t
          | Verify.value_error ↦ err Stop.unforeseen
        ])
          ≡ ok i
        → IsAuthentic t i
    fallback Verify.verify_failed e h = break_glass-IsAuthentic t i h
    fallback Verify.cosign_failed e h = break_glass-IsAuthentic t i h
    fallback Verify.value_error e h = absurd cc

-- The manifest is the parsed `manifest.json` of the tar's extraction into an empty directory.
abbrev pub IsUnpacked : World → Bytes → Manifest → Type 0
IsUnpacked w tar m =
    let x = extract w.accepts (w.open_tar tar) Extract.nil in
    (raw : Bytes) × (x.result ≡ ok tt)
    × (Extract.find x.tree "manifest.json" ≡ some (Extract.file raw))
    × (parse w.codec.loads raw (payload_names x.tree) ≡ ok m)

or_stop_inv : {E A : Type 0} (f : E → Stop) (r : Result E A) {a : A} → or_stop f r ≡ ok a → r ≡ ok a
or_stop_inv f (ok b) h = cc
or_stop_inv f (err e) h = absurd cc

manifest_bytes_inv :
    (c : Context) (t : Tree) {raw : Bytes}
    → manifest_bytes c t ≡ ok raw
    → Extract.find t "manifest.json" ≡ some (Extract.file raw)
unfolding manifest_bytes
manifest_bytes_inv c t h = go (Extract.find t "manifest.json") h
  where
    go :
        (o : Option Extract.Node) {raw : Bytes}
        → (elim o as (λ _. Result Stop Bytes) [
          | none ↦ err (Stop.verified "bad_manifest" "manifest" c)
          | some n ↦ elim n as (λ _. Result Stop Bytes) [
            | Extract.file b ↦ ok b
            | Extract.folder d ↦ err (Stop.verified "bad_manifest" "manifest" c)
            | Extract.other ↦ err (Stop.verified "bad_manifest" "manifest" c)
          ]
        ])
          ≡ ok raw
        → o ≡ some (Extract.file raw)
    go none h = absurd cc
    go (some (Extract.file b)) h = cc
    go (some (Extract.folder d)) h = absurd cc
    go (some Extract.other) h = absurd cc

-- A job is in the scope of the signature that authenticated it.
abbrev pub IsInScope : Identity → Manifest → Type 0
IsInScope i m = (i.bg_authorized ≡ false) ⊎ (m.operation ≡ "rotate-job-signers")

in_scope :
    (i : Identity) (m : Manifest)
    → not (i.bg_authorized && not (m.operation == "rotate-job-signers")) ≡ true
    → IsInScope i m
in_scope i m h = ground (arith, str_iff m.operation "rotate-job-signers")

pub unpack-IsUnpacked :
    (w : World) (i : Identity) (tar : Bytes) (a : Admitted)
    → unpack w i tar ≡ ok a
    → (a.identity ≡ i) × IsUnpacked w tar a.manifest × IsInScope i a.manifest
unfolding unpack
unpack-IsUnpacked w i tar a h =
    let x = extract w.accepts (w.open_tar tar) Extract.nil in
    bind_inv (or_stop _ x.result) h λ u e1 h1. bind_inv (manifest_bytes _ x.tree) h1 λ raw e2 h2.
      bind_inv (or_stop _ (parse w.codec.loads raw (payload_names x.tree))) h2 λ m e3 h3.
        require_inv (not (i.bg_authorized && not (m.operation == "rotate-job-signers"))) _ h3
          λ e4 h4.
            subst (λ a. (a.identity ≡ i) × IsUnpacked w tar a.manifest × IsInScope i a.manifest)
              (ok-injective h4)
              (
                refl,
                (
                  raw,
                  or_stop_inv _ x.result e1,
                  manifest_bytes_inv _ x.tree e2,
                  or_stop_inv _ (parse w.codec.loads raw (payload_names x.tree)) e3,
                ),
                in_scope i m e4,
              )
