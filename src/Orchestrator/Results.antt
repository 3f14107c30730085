-- ===== src/Orchestrator/Results.antt =====
-- What a run of box/bin/ca-usb-run writes to the stick, and which of its children are root.
use Prim.Native.String.{◌++◌ as ◌<>◌}
use nebula_ca_harness.Prelude.{
  String, ◌≡◌, ◌≢◌, sym, subst, ◌⊎◌, inl, inr, true, some, arith, All, All-map, string_eq, str_iff,
  Bool-cases, ◌==◌,
}
use nebula_ca_harness.Prelude.Dict.{Dict, lookup}
use nebula_ca_harness.Json.{bool, obj, Fields}
use nebula_ca_harness.Commitlog.{Bytes, Item, dir, Store, contents, set_field}
use nebula_ca_harness.Verify.Cosign.{IsCosigned}
use nebula_ca_harness.Dispatch
use nebula_ca_harness.Dispatch.{Launch, Act, run_script}
use nebula_ca_harness.Dispatch.Privilege.{launches, IsDropped, IsConfined, run_script-IsConfined}
use nebula_ca_harness.Orchestrator.{
  Event, dispatched, delivered, latest, Order, tmp_tar, tmp_bg, allowed, breakglass, World,
}
use nebula_ca_harness.Orchestrator.Process.{run_locked, payload_dir, out_dir, timeout_s}
use nebula_ca_harness.Orchestrator.Admit.{Identity, reading}
use nebula_ca_harness.Orchestrator.Deliveries.{IsStatus}
use nebula_ca_harness.Orchestrator.Runs.{IsAuthorized, run_locked-IsAuthorized}
use nebula_ca_harness.Orchestrator.Stages.{IsTrusted, IsOrdered}

-- A file on the stick is one of the job's directory in the store, or its `status.json` with
-- `replayed` set; and `LATEST.json` names a job with a directory.
abbrev pub IsStored : World → Store → Event → Type 0
IsStored w s (delivered job_id name b) =
    (items : Dict String Item) × (lookup job_id s.results ≡ some (dir items))
    × (name ≢ "DONE")
    × ((contents (lookup name items) ≡ some b)
        ⊎ ((d : Fields) × (name ≡ "status.json")
            × IsStatus w items d
            × (b ≡ w.codec.dumps (obj (set_field "replayed" (bool true) d)))))
IsStored w s (latest bundle_id seq job_id status_val replayed) =
    (items : Dict String Item) × (lookup job_id s.results ≡ some (dir items))
IsStored w s e = Unit

-- The holder of the break-glass key has co-signed the tar on the stick.
abbrev pub HasCosignature : World → Type 0
HasCosignature w =
    (tar : Bytes) × (w.job_tar ≡ some (some tar))
    × IsCosigned (reading tar w.tools) tmp_tar tmp_bg breakglass allowed

authentic_cosigned :
    (w : World) (tar : Bytes) (i : Identity)
    → IsTrusted w tar i
    → i.cosigned ≡ true
    → HasCosignature w
authentic_cosigned w tar i (there, small, inl (x, y, inl z)) c = absurd cc
authentic_cosigned w tar i (there, small, inl (x, y, inr z)) c = (tar, there, z)
authentic_cosigned w tar i (there, small, inr (x, y, z)) c = absurd cc

-- What a child of run-script may be.
abbrev pub IsRestrained : World → Launch → Type 0
IsRestrained w l = HasCosignature w ⊎ ((script : String) × IsDropped w.host script l)

abbrev pub HasRestraint : World → Event → Type 0
HasRestraint w (dispatched o) =
    (o.operation ≢ "run-script") ⊎ All (IsRestrained w) (launches o.acts)
HasRestraint w e = Unit

ordered-HasRestraint :
    (w : World) (s₀ : Store) (o : Order) → IsOrdered w s₀ o → HasRestraint w (dispatched o)
unfolding Dispatch.run
ordered-HasRestraint w s₀ o (tar, i, m, trusted, _, _, _, _, op, _, _, _, acts) =
    elim (Bool-cases (m.operation == "run-script")) [
      | inr e ↦ inl (ground (arith, str_iff m.operation "run-script"))
      | inl e ↦ inr (
          subst (λ x. All (IsRestrained w) (launches x)) (sym (rw e at acts))
            (All-map _ restrain
              (run_script-IsConfined w.host o.job payload_dir out_dir (bool i.cosigned) timeout_s)))
    ]
  where
    restrain :
        (l : Launch)
        → IsConfined w.host o.job payload_dir out_dir (bool i.cosigned) timeout_s l
        → IsRestrained w l
    restrain l (e, _, _, _, inl (_, c, _)) = inl (authentic_cosigned w tar i trusted cc)
    restrain l (e, _, _, _, inr (_, d)) = inr (payload_dir <> "/" <> e, d)

-- In a run, every child of a run-script job is dropped to the job's account unless `verify_cosign`
-- accepted a break-glass co-signature of the tar that is on the stick: no other signature makes a
-- script root.
pub run_locked-HasRestraint : (w : World) (s : Store) → All (HasRestraint w) (run_locked w s).events
run_locked-HasRestraint w s = All-map (run_locked w s).events narrow (run_locked-IsAuthorized w s)
  where
    narrow : (e : Event) → IsAuthorized w s (run_locked w s).store e → HasRestraint w e
    narrow (dispatched o) h = ordered-HasRestraint w s o h
    narrow e h = tt
