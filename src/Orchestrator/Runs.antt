-- ===== src/Orchestrator/Runs.antt =====
-- On whose authority a whole run of box/bin/ca-usb-run starts children and writes to the stick.
use nebula_ca_harness.Prelude.{◌≡◌, refl, ◌⊎◌, inl, inr, All, string_eq, Result, ok, err}
use nebula_ca_harness.Json.{bool}
use nebula_ca_harness.Commitlog.{Bytes, Store}
use nebula_ca_harness.Orchestrator.{Event, remounted, dispatched, wrote_kit, World}
use nebula_ca_harness.Effect.Triple.{Post}
use nebula_ca_harness.Recovery.{Reason, Place}
use nebula_ca_harness.Recovery.Allowed.{IsWhole, Left, IsWhole-Left}
use nebula_ca_harness.Recovery.Public.{write-IsPublic}
use nebula_ca_harness.Orchestrator.Process.{run_locked}
use nebula_ca_harness.Orchestrator.Admit.{Identity}
use nebula_ca_harness.Orchestrator.Events.{IsQuiet}
use nebula_ca_harness.Orchestrator.Deliveries.{IsTold}
use nebula_ca_harness.Orchestrator.Stages.{
  IsTrusted, IsOffered, IsOrdered, kit_left, run_locked-Holds,
}

-- What a run is allowed to do, by who authorized it.
abbrev pub IsAuthorized : World → Store → Store → Event → Type 0
IsAuthorized w s₀ s (dispatched o) = IsOrdered w s₀ o
IsAuthorized w s₀ s remounted = IsOffered w ⊎ ((tar : Bytes) × (i : Identity) × IsTrusted w tar i)
IsAuthorized w s₀ s (wrote_kit confirm2 place) =
    IsOffered w
    × (confirm2 ≡ w.presses_again)
    × Left w.box w.box_dirs (bool confirm2) w.kit_place place
IsAuthorized w s₀ s e = Unit

-- In a run, whatever it meets: a child is started only for a job whose tar one of the two anchors
-- vouches for, whose manifest parses, that is fresh against the store and that the button
-- confirmed, with a co-signature only if `verify_cosign` accepted one and on the break-glass key
-- alone only for `rotate-job-signers`. The stick is remounted for writing only for such a trusted tar
-- or, where it has no `job.tar`, after a press; and what a recovery leaves there is what stood there
-- before, whole or in part, or nothing, or a kit of public files, whole or in part, with registry.json
-- only if the button was pressed a second time.
pub run_locked-IsAuthorized :
    (w : World) (s₀ : Store)
    → All (IsAuthorized w s₀ (run_locked w s₀).store) (run_locked w s₀).events
run_locked-IsAuthorized w s₀ =
    run_locked-Holds w s₀ (IsAuthorized w s₀) quiet (λ s o h. h) told
      (λ h s. (inl h, (h, refl, kit)))
  where
    kit_or :
        (p : Place) (r : Result Reason (Unit {0}))
        → Post
            (Left w.box w.box_dirs (bool w.presses_again) w.kit_place)
            (λ _. IsWhole w.box w.box_dirs (bool w.presses_again))
            r
            p
        → Left w.box w.box_dirs (bool w.presses_again) w.kit_place p
    kit_or p (ok u) h = IsWhole-Left w.box w.box_dirs (bool w.presses_again) w.kit_place p h
    kit_or p (err e) h = h

    kit : Left w.box w.box_dirs (bool w.presses_again) w.kit_place (kit_left w)
    kit =
        kit_or (kit_left w) _ (write-IsPublic w.box w.box_dirs (bool w.presses_again) w.kit_place).1

    quiet : IsQuiet (IsAuthorized w s₀)
    quiet = record {
      of_lit = λ s c. tt;
      of_audited = λ s l. tt;
      of_breadcrumb = λ s r p. tt;
      of_unlinked = λ s. tt;
      of_commit = λ s j. tt;
      of_unmounted = λ s b. tt;
    }

    told : (tar : Bytes) (i : Identity) → IsTrusted w tar i → IsTold w (IsAuthorized w s₀)
    told tar i h = record {
      of_remounted = λ s. inr (tar, i, h);
      of_delivered = λ s j items n b x y z. tt;
      of_replayed = λ s j items d x y. tt;
      of_latest = λ s j items b q v r x. tt;
    }
