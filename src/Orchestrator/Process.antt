-- ===== src/Orchestrator/Process.antt =====
-- box/bin/ca-usb-run `_process_mounted`, `_recovery_branch` and `_run_locked`: a stick from its mount to
-- the end of the run.
use nebula_ca_harness.Prelude.{
  ℕ, String, Bool, true, false, Option, none, some, [], ◌∷◌, string_eq, if◌then◌else◌, Result, ok,
  err,
}
use nebula_ca_harness.Json.{ℤ, pos, Value, null, bool, int, Fields, get}
use nebula_ca_harness.Commitlog.{Bytes, Store, set_field}
use nebula_ca_harness.Manifest.{Manifest}
use nebula_ca_harness.Freshness.{Verdict, fresh, wrong_box, clock_insane, stale_seq, check}
use nebula_ca_harness.Freshness
use nebula_ca_harness.Dispatch
use nebula_ca_harness.Orchestrator.{
  lit, audited, remounted, dispatched, wrote_kit, Outcome, World, after, unknown, line, Order,
  finish, fail_unverified, fail_verified,
}
use nebula_ca_harness.Orchestrator.Deliver.{commit_and_deliver, no_confirmation}
use nebula_ca_harness.Orchestrator.Replay.{replay}
use nebula_ca_harness.Recovery.Kit.{write}
use nebula_ca_harness.Orchestrator.Admit.{
  context_of, admit, Stop, Admitted, unverified, verified, unforeseen,
}

-- The words of a verdict and of a `DispatchError`.
abbrev pub verdict_name : Verdict → String
verdict_name Freshness.fresh = "fresh"
verdict_name Freshness.replay = "replay"
verdict_name Freshness.wrong_box = "wrong_box"
verdict_name Freshness.clock_insane = "clock_insane"
verdict_name Freshness.stale_seq = "stale_seq"

abbrev pub bundle_id : Manifest → Value
bundle_id m = get m.top "bundle_id"

abbrev pub payload_dir : String
payload_dir = "/run/ca-usb-tmp/extract/payload"

abbrev pub out_dir : String
out_dir = "/run/ca-usb-tmp/out"

-- `config.OP_TIMEOUT_S`
abbrev pub timeout_s : ℕ
timeout_s = 300

module _ (w : World) where
  unfoldable pub stopped : Stop → Store → Outcome
  unfolding fail_unverified fail_verified finish
  stopped (unverified reason) s = fail_unverified w reason s
  stopped (verified reason phase c) s = fail_verified w reason phase c s
  stopped unforeseen s = finish w false s

  -- The job's dict that dispatch gets, and the call.
  abbrev pub job_of : Manifest → Fields
  job_of m = set_field "seq" (int (pos m.seq)) m.job

  unfoldable pub dispatch : Admitted → Dispatch.Run
  unfolding set_field
  dispatch a =
      Dispatch.run w.host a.manifest.operation (job_of a.manifest) payload_dir out_dir
        (bool a.identity.cosigned) (bool a.identity.bg_authorized) timeout_s w.handlers_dirs

  -- What follows a child that ran, or a refusal.
  abbrev pub after_dispatch : Admitted → Result Dispatch.Fault ℤ → Store → Outcome
  after_dispatch a (ok rc) s =
      commit_and_deliver w (context_of a) a.manifest.job_id a.manifest.seq (bundle_id a.manifest) rc
        s
  after_dispatch a (err Dispatch.cosign_failed) s =
      fail_verified w "cosign_failed" "dispatch" (context_of a) s
  after_dispatch a (err Dispatch.bad_manifest) s =
      fail_verified w "bad_manifest" "dispatch" (context_of a) s
  after_dispatch a (err Dispatch.handler_failed) s =
      fail_verified w "handler_failed" "dispatch" (context_of a) s
  after_dispatch a (err Dispatch.os_error) s = finish w false s
  after_dispatch a (err Dispatch.key_error) s = finish w false s

  -- Steps 6 to 10 of a fresh job.
  unfoldable pub run_fresh : Admitted → Store → Outcome
  unfolding dispatch no_confirmation commit_and_deliver fail_verified finish
  run_fresh a s =
      let r = dispatch a in
      let order : Order = record {
        operation = a.manifest.operation;
        job = job_of a.manifest;
        cosigned = a.identity.cosigned;
        bg_authorized = a.identity.bg_authorized;
        acts = r.acts;
      } in
      if a.has_payload_place
      then (if w.presses
          then after (lit "READY" ∷ lit "RUNNING" ∷ dispatched order ∷ [])
              (after_dispatch a r.result s)
          else after (lit "READY" ∷ []) (
              no_confirmation w (context_of a) a.manifest.job_id a.manifest.seq
                (bundle_id a.manifest) s))
      else finish w false s

  unfoldable pub by_verdict : Admitted → Verdict → Store → Outcome
  unfolding fail_verified replay run_fresh
  by_verdict a Freshness.fresh s = run_fresh a s
  by_verdict a Freshness.replay s =
      replay w (context_of a) a.manifest.job_id (bundle_id a.manifest) s
  by_verdict a v s = fail_verified w (verdict_name v) "freshness" (context_of a) s

  -- The pipeline for a `job.tar` that is there.
  unfoldable pub run_job : Option Bytes → Store → Outcome
  unfolding admit stopped by_verdict
  run_job job_tar s = elim (admit w job_tar) [
    | err stop ↦ stopped stop s
    | ok a ↦ by_verdict a (check s a.manifest w.year a.manifest.operation) s
  ]

  abbrev returned : {E A : Type 0} → Result E A → Bool
  returned (ok a) = true
  returned (err e) = false

  -- `_recovery_branch`
  unfoldable pub recovery_branch : Store → Outcome
  unfolding finish write
  recovery_branch s =
      let confirm2 = w.presses_again in
      let kit = write w.box w.box_dirs (bool confirm2) w.kit_place in
      if w.presses
      then after (lit "RECOVERY_OFFER" ∷ lit "RECOVERY_CONFIRM2" ∷ lit "RECOVERY_WRITE" ∷ []) (
          if w.can_remount
          then after (remounted ∷ wrote_kit confirm2 kit.state ∷ [])
              (finish w (returned kit.result) s)
          else finish w false s)
      else after (lit "RECOVERY_OFFER" ∷ []) (finish w true s)

  -- `_process_mounted`
  unfoldable pub process_mounted : Store → Outcome
  unfolding recovery_branch run_job
  process_mounted s = elim w.job_tar [ none ↦ recovery_branch s | some job_tar ↦ run_job job_tar s ]

  -- `_run_locked`
  unfoldable pub run_locked : Store → Outcome
  unfolding process_mounted
  run_locked s = if w.can_mount then after (lit "VERIFYING" ∷ []) (process_mounted s) else record {
    events = lit "VERIFYING" ∷ audited (line unknown "mount_failed" null) ∷ lit "ERROR" ∷ [];
    store = s;
  }
