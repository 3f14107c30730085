-- ===== src/Orchestrator/Admit.antt =====
-- box/bin/ca-usb-run `_process_mounted` up to the freshness check: the copies of the stick's files, the
-- signatures, the extraction and the manifest.
use nebula_ca_harness.Prelude.{
  String, Bool, true, false, not, ◌&&◌, Option, none, some, List, [], ◌∷◌, ◌==◌, string_eq,
  if◌then◌else◌, Result, ok, err, ◌>>=◌, ◌>>◌, require,
}
use nebula_ca_harness.Json.{pos, bool, int, str}
use nebula_ca_harness.Commitlog.{Bytes}
use nebula_ca_harness.Verify.{Tools, verify, verify_breakglass_primary, verify_cosign}
use nebula_ca_harness.Verify
use nebula_ca_harness.Extract.{Tree, find, extract}
use nebula_ca_harness.Extract
use nebula_ca_harness.Manifest.{Manifest, parse}
use nebula_ca_harness.Manifest
use nebula_ca_harness.Orchestrator.{
  World, Context, unknown, Copy, copied, too_large, unreadable, copy_capped, tmp_tar, tmp_sig,
  tmp_bg, allowed, breakglass, tar_cap, sig_cap,
}

-- How a run ends before the freshness check: at a refusal before the signature is verified, at one
-- after it with its phase, or at an exception that is not foreseen.
pub data Stop : Type 0 where
  unverified : String → Stop
  verified : String → String → Context → Stop
  unforeseen : Stop

-- What the copies in the tmpfs hold.
pub record Loaded : Type 0 where
  pub tar : Bytes
  pub bg_present : Bool

-- Who vouches for the bytes.
pub record Identity : Type 0 where
  pub principal : String
  pub bg_authorized : Bool
  pub cosigned : Bool

-- A job that came through to the freshness check.
pub record Admitted : Type 0 where
  pub identity : Identity
  pub manifest : Manifest
  -- Nothing but a directory is where `payload` has to be.
  pub has_payload_place : Bool

abbrev pub copy_or : String → Copy → Result Stop Bytes
copy_or reason (copied b) = ok b
copy_or reason too_large = err (unverified "oversize")
copy_or reason unreadable = err (unverified reason)

-- The copy of `job.tar.bg.sig`, and whether it counts as present.
unfoldable pub load_bg : Option (Option Bytes) → Result Stop Bool
unfolding copy_capped
load_bg none = ok false
load_bg (some data') = elim (copy_capped data' sig_cap) [
  | copied b ↦ ok true
  | too_large ↦ err (unverified "oversize")
  | unreadable ↦ ok false
]

-- `VerifyError.reason`, where a `ValueError` is not caught.
abbrev pub verify_stop : Verify.Reason → Stop
verify_stop Verify.verify_failed = unverified "verify_failed"
verify_stop Verify.cosign_failed = unverified "cosign_failed"
verify_stop Verify.value_error = unforeseen

abbrev pub extract_stop : Context → Extract.Reason → Stop
extract_stop c Extract.path_traversal = verified "path_traversal" "extract" c
extract_stop c Extract.cap_exceeded = verified "cap_exceeded" "extract" c
extract_stop c Extract.bad_tar = verified "bad_manifest" "extract" c
extract_stop c Extract.value_error = unforeseen

abbrev pub manifest_stop : Context → Manifest.Reason → Stop
manifest_stop c Manifest.bad_manifest = verified "bad_manifest" "manifest" c
manifest_stop c Manifest.jobs_gt_1 = verified "jobs_gt_1" "manifest" c
manifest_stop c Manifest.oversize = verified "oversize" "manifest" c
manifest_stop c Manifest.cap_exceeded = verified "cap_exceeded" "manifest" c
manifest_stop c Manifest.path_traversal = verified "path_traversal" "manifest" c

abbrev pub or_stop : {E A : Type 0} → (E → Stop) → Result E A → Result Stop A
or_stop f (ok a) = ok a
or_stop f (err e) = err (f e)

abbrev pub entry_names : Tree → List String
entry_names Extract.nil = []
entry_names (Extract.entry name n t) = name ∷ entry_names t

-- The names in the directory `payload`, none where it is no directory.
unfoldable pub payload_names : Tree → List String
unfolding find
payload_names t = elim (find t "payload") [
  | none ↦ []
  | some n ↦ elim n [ Extract.folder d ↦ entry_names d | Extract.file b ↦ [] | Extract.other ↦ [] ]
]

abbrev pub has_payload_place : Option Extract.Node → Bool
has_payload_place none = true
has_payload_place (some (Extract.folder d)) = true
has_payload_place (some n) = false

unfoldable pub manifest_bytes : Context → Tree → Result Stop Bytes
unfolding find
manifest_bytes c t = elim (find t "manifest.json") [
  | none ↦ err (verified "bad_manifest" "manifest" c)
  | some n ↦ elim n [
    | Extract.file b ↦ ok b
    | Extract.folder d ↦ err (verified "bad_manifest" "manifest" c)
    | Extract.other ↦ err (verified "bad_manifest" "manifest" c)
  ]
]

-- What is known of a job whose manifest is parsed.
abbrev pub context_of : Admitted → Context
context_of a = record {
  job_id = str a.manifest.job_id;
  operation = str a.manifest.operation;
  principal = str a.identity.principal;
  seq = int (pos a.manifest.seq);
  cosigned = bool a.identity.cosigned;
}

-- The tools, which read the copy of the tar.
abbrev pub reading : Bytes → Tools → Tools
reading tar t = record t { bytes = λ path. if path == tmp_tar then some tar else t.bytes path }

-- `verify_cosign`, where only `VerifyError` is caught.
abbrev pub cosign_of : Bool → Result Verify.Reason (Unit {0}) → Result Stop Bool
cosign_of false r = ok false
cosign_of true (ok _) = ok true
cosign_of true (err Verify.verify_failed) = ok false
cosign_of true (err Verify.cosign_failed) = ok false
cosign_of true (err Verify.value_error) = err unforeseen

-- The primary signature against the break-glass anchor.
unfoldable pub break_glass : Tools → Result Stop Identity
break_glass t = do
  principal ← or_stop verify_stop (verify_breakglass_primary t tmp_tar tmp_sig breakglass)
  ok (record { principal = principal; bg_authorized = true; cosigned = false })

-- The primary signature against `allowed_signers`, then against `breakglass_signers`. The co-signature
-- is looked at for the first alone.
unfoldable pub authenticate : Tools → Bool → Result Stop Identity
unfolding break_glass
authenticate t bg_present = elim (verify t tmp_tar tmp_sig allowed) [
  | ok principal ↦ do
    cosigned ← cosign_of bg_present (verify_cosign t tmp_tar tmp_bg breakglass allowed)
    ok (record { principal = principal; bg_authorized = false; cosigned = cosigned })
  | err e ↦ elim e [
    | Verify.verify_failed ↦ break_glass t
    | Verify.cosign_failed ↦ break_glass t
    | Verify.value_error ↦ err unforeseen
  ]
]

module _ (w : World) where
  -- The copies of step 3.
  unfoldable pub load : Option Bytes → Result Stop Loaded
  unfolding copy_capped load_bg
  load job_tar = do
    tar ← copy_or "bad_manifest" (copy_capped job_tar tar_cap)
    _ ← copy_or "verify_failed" (copy_capped w.job_sig sig_cap)
    bg_present ← load_bg w.bg_sig
    ok (record { tar = tar; bg_present = bg_present })

  -- Step 5 up to the freshness check: extraction, manifest, and the scope of a break-glass signature.
  unfoldable pub unpack : Identity → Bytes → Result Stop Admitted
  unfolding payload_names manifest_bytes
  unpack i tar = do
    let c : Context = record unknown { principal = str i.principal }
    let extraction = extract w.accepts (w.open_tar tar) Extract.nil
    _ ← or_stop (extract_stop c) extraction.result
    raw ← manifest_bytes c extraction.tree
    m ← or_stop (manifest_stop c) (parse w.codec.loads raw (payload_names extraction.tree))
    let a : Admitted = record {
      identity = i;
      manifest = m;
      has_payload_place = has_payload_place (find extraction.tree "payload");
    }
    require (not (i.bg_authorized && not (m.operation == "rotate-job-signers")))
        (verified "verify_failed" "manifest" (context_of a))
    ok a

  -- Steps 3 to 5.
  unfoldable pub admit : Option Bytes → Result Stop Admitted
  unfolding load authenticate unpack
  admit job_tar = do
    l ← load job_tar
    i ← authenticate (reading l.tar w.tools) l.bg_present
    unpack i l.tar
