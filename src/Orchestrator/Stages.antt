-- ===== src/Orchestrator/Stages.antt =====
-- What a run of box/bin/ca-usb-run is trusted with, and what holds of the events of its stages.
use nebula_ca_harness.Prelude.{
  ◌≤◌, ◌≡◌, refl, sym, ap, ◌∙◌, subst, inl, inr, true, false, Option, none, some, length, string_eq,
  Result, ok, err, Option-cases, Result-cases,
}
use nebula_ca_harness.Json.{ℤ, null, bool, pos, int}
use nebula_ca_harness.Commitlog.{Bytes, Store, set_field}
use nebula_ca_harness.Manifest.{Manifest}
use nebula_ca_harness.Freshness.{Verdict, fresh, replay, wrong_box, clock_insane, stale_seq, check}
use nebula_ca_harness.Freshness
use nebula_ca_harness.Dispatch
use nebula_ca_harness.Orchestrator.{
  Event, remounted, dispatched, wrote_kit, Order, tar_cap, World, finish,
}
use nebula_ca_harness.Recovery.{Place}
use nebula_ca_harness.Recovery.Kit.{write}
use nebula_ca_harness.Orchestrator.Deliver.{
  commit_and_deliver, no_confirmation, collect_outputs, unconfirmed,
}
use nebula_ca_harness.Orchestrator.Process.{
  bundle_id, stopped, dispatch, after_dispatch, run_fresh, by_verdict, run_job, payload_dir,
  out_dir, timeout_s, recovery_branch, process_mounted, run_locked,
}
use nebula_ca_harness.Orchestrator.Admit.{
  Identity, Admitted, Stop, unverified, verified, unforeseen, authenticate, reading, load, unpack,
  admit, context_of,
}
use nebula_ca_harness.Orchestrator.Authority.{
  IsAuthentic, authenticate-IsAuthentic, IsUnpacked, IsInScope, unpack-IsUnpacked,
}
use nebula_ca_harness.Orchestrator.Stops.{
  is_early, IsEarly, load-IsEarly, authenticate-IsEarly, load_inv,
}
use nebula_ca_harness.Orchestrator.Events.{
  Holds, IsQuiet, Holds-if, finish-Holds, fail_unverified-Holds, fail_verified-Holds,
}
use nebula_ca_harness.Orchestrator.Deliveries.{IsTold, commit_then_deliver-Holds, replay-Holds}

-- The copy of a `job.tar` on the stick, and who vouches for it.
abbrev pub IsTrusted : World → Bytes → Identity → Type 0
IsTrusted w tar i =
    (w.job_tar ≡ some (some tar)) × (length tar ≤ tar_cap) × IsAuthentic (reading tar w.tools) i

-- A stick without `job.tar`, and a press of the button.
abbrev pub IsOffered : World → Type 0
IsOffered w = (w.job_tar ≡ none) × (w.presses ≡ true)

-- An order is that of a job which was trusted, unpacked, in scope, fresh and confirmed.
abbrev pub IsOrdered : World → Store → Order → Type 0
IsOrdered w s₀ o =
    (tar : Bytes) × (i : Identity) × (m : Manifest) × IsTrusted w tar i
    × IsUnpacked w tar m
    × IsInScope i m
    × (check s₀ m w.year m.operation ≡ fresh)
    × (w.presses ≡ true)
    × (o.operation ≡ m.operation)
    × (o.job ≡ set_field "seq" (int (pos m.seq)) m.job)
    × (o.cosigned ≡ i.cosigned)
    × (o.bg_authorized ≡ i.bg_authorized)
    × (o.acts
        ≡ Dispatch.Run.acts (
            Dispatch.run w.host m.operation o.job payload_dir out_dir (bool i.cosigned)
              (bool i.bg_authorized) timeout_s w.handlers_dirs))

-- What a recovery leaves at CA-RECOVERY.
abbrev pub kit_left : World → Place
kit_left w = (write w.box w.box_dirs (bool w.presses_again) w.kit_place).state

module _ (w : World) (s₀ : Store) (P : Store → Event → Type 0) (q : IsQuiet P)
    (of_order : (s : Store) (o : Order) → IsOrdered w s₀ o → P s (dispatched o)) where
  module _ (tar : Bytes) (a : Admitted) (trusted : IsTrusted w tar a.identity)
      (unpacked : IsUnpacked w tar a.manifest) (scope : IsInScope a.identity a.manifest)
      (told : IsTold w P) where
    after_dispatch-Holds :
        (r : Result Dispatch.Fault ℤ) (s : Store) → Holds P (after_dispatch w a r s)
    unfolding commit_and_deliver finish
    after_dispatch-Holds (ok rc) s =
        commit_then_deliver-Holds w P q told (context_of a) a.manifest.job_id a.manifest.seq
          (bundle_id a.manifest) (collect_outputs w rc) true (int rc) s
    after_dispatch-Holds (err Dispatch.cosign_failed) s =
        fail_verified-Holds w P q told.of_remounted "cosign_failed" "dispatch" (context_of a) s
    after_dispatch-Holds (err Dispatch.bad_manifest) s =
        fail_verified-Holds w P q told.of_remounted "bad_manifest" "dispatch" (context_of a) s
    after_dispatch-Holds (err Dispatch.handler_failed) s =
        fail_verified-Holds w P q told.of_remounted "handler_failed" "dispatch" (context_of a) s
    after_dispatch-Holds (err Dispatch.os_error) s = finish-Holds w P q false s
    after_dispatch-Holds (err Dispatch.key_error) s = finish-Holds w P q false s

    run_fresh-Holds :
        check s₀ a.manifest w.year a.manifest.operation ≡ fresh → Holds P (run_fresh w a s₀)
    unfolding run_fresh no_confirmation dispatch
    run_fresh-Holds is_fresh =
        Holds-if P a.has_payload_place _ _
          (λ _.
            Holds-if P w.presses _ _
              (λ pressed. (
                q.of_lit _ _,
                (
                  q.of_lit _ _,
                  (
                    of_order _ _ (
                      tar, a.identity, a.manifest, trusted, unpacked, scope, is_fresh, pressed,
                      refl, refl, refl, refl, refl,
                    ),
                    after_dispatch-Holds (dispatch w a).result s₀,
                  ),
                ),
              ))
              (λ _. (
                q.of_lit _ _,
                commit_then_deliver-Holds w P q told (context_of a) a.manifest.job_id a.manifest.seq
                    (bundle_id a.manifest) unconfirmed false null s₀,
              )))
          (λ _. finish-Holds w P q false s₀)

    by_verdict-Holds :
        (v : Verdict)
        → check s₀ a.manifest w.year a.manifest.operation ≡ v
        → Holds P (by_verdict w a v s₀)
    unfolding by_verdict
    by_verdict-Holds Freshness.fresh h = run_fresh-Holds h
    by_verdict-Holds Freshness.replay h =
        replay-Holds w P q told (context_of a) a.manifest.job_id (bundle_id a.manifest) s₀
    by_verdict-Holds Freshness.wrong_box h =
        fail_verified-Holds w P q told.of_remounted "wrong_box" "freshness" (context_of a) s₀
    by_verdict-Holds Freshness.clock_insane h =
        fail_verified-Holds w P q told.of_remounted "clock_insane" "freshness" (context_of a) s₀
    by_verdict-Holds Freshness.stale_seq h =
        fail_verified-Holds w P q told.of_remounted "stale_seq" "freshness" (context_of a) s₀

  stopped-Holds :
      (stop : Stop) (s : Store) → ((s : Store) → P s remounted) → Holds P (stopped w stop s)
  unfolding stopped
  stopped-Holds (unverified reason) s r = fail_unverified-Holds w P q reason s
  stopped-Holds (verified reason phase c) s r = fail_verified-Holds w P q r reason phase c s
  stopped-Holds unforeseen s r = finish-Holds w P q false s

  early-Holds : (stop : Stop) (s : Store) → is_early stop ≡ true → Holds P (stopped w stop s)
  unfolding stopped
  early-Holds (unverified reason) s e = fail_unverified-Holds w P q reason s
  early-Holds (verified reason phase c) s e = absurd cc
  early-Holds unforeseen s e = finish-Holds w P q false s

  module _ (told : (tar : Bytes) (i : Identity) → IsTrusted w tar i → IsTold w P) where
    run_job-Holds :
        (job_tar : Option Bytes) → w.job_tar ≡ some job_tar → Holds P (run_job w job_tar s₀)
    unfolding run_job admit
    run_job-Holds job_tar there = elim (Result-cases (load w job_tar)) [
      | inr (e, h) ↦
          rw (h, run_job, admit) (early-Holds e s₀ (subst IsEarly h (load-IsEarly w job_tar)))
      | inl (l, h) ↦ elim (Result-cases (authenticate (reading l.tar w.tools) l.bg_present)) [
        | inr (e, k) ↦
            rw (h, k, run_job, admit)
              (early-Holds e s₀ (subst IsEarly k (authenticate-IsEarly _ l.bg_present)))
        | inl (i, k) ↦
            let (read, small) = load_inv w job_tar h in
            let trusted : IsTrusted w l.tar i =
              (there ∙ ap some read, small, authenticate-IsAuthentic _ l.bg_present i k) in
            elim (Result-cases (unpack w i l.tar)) [
              | inr (e, u) ↦
                  rw (h, k, u, run_job, admit)
                    (stopped-Holds e s₀ (told l.tar i trusted).of_remounted)
              | inl (a, u) ↦
                  let (same, unpacked, scope) = unpack-IsUnpacked w i l.tar a u in
                  rw (h, k, u, run_job, admit)
                    (by_verdict-Holds l.tar a (subst (IsTrusted w l.tar) (sym same) trusted)
                      unpacked (subst (λ x. IsInScope x a.manifest) (sym same) scope)
                      (told l.tar i trusted) (check s₀ a.manifest w.year a.manifest.operation) refl)
            ]
      ]
    ]

    recovery_branch-Holds :
        (IsOffered w → (s : Store) → P s remounted × P s (wrote_kit w.presses_again (kit_left w)))
        → w.job_tar ≡ none
        → Holds P (recovery_branch w s₀)
    unfolding recovery_branch finish
    recovery_branch-Holds offer absent =
        Holds-if P w.presses _ _
          (λ pressed.
            let (r, k) = offer (absent, pressed) s₀ in
            (
              q.of_lit _ _,
              (
                q.of_lit _ _,
                (
                  q.of_lit _ _,
                  Holds-if P w.can_remount _ _ (λ _. (r, (k, finish-Holds w P q _ s₀)))
                      (λ _. finish-Holds w P q false s₀),
                ),
              ),
            ))
          (λ _. (q.of_lit _ _, finish-Holds w P q true s₀))

    pub run_locked-Holds :
        (IsOffered w → (s : Store) → P s remounted × P s (wrote_kit w.presses_again (kit_left w)))
        → Holds P (run_locked w s₀)
    unfolding run_locked process_mounted
    run_locked-Holds offer =
        Holds-if P w.can_mount _ _ (λ _. (q.of_lit _ _, mounted))
          (λ _. (q.of_lit _ _, (q.of_audited _ _, (q.of_lit _ _, tt))))
      where
        mounted : Holds P (process_mounted w s₀)
        mounted = elim (Option-cases w.job_tar) [
          | inl e ↦ rw (e, process_mounted) (recovery_branch-Holds offer e)
          | inr (job_tar, e) ↦ rw (e, process_mounted) (run_job-Holds job_tar e)
        ]
