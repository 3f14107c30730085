-- ===== src/Orchestrator/Commits.antt =====
-- When a run of box/bin/ca-usb-run changes the store of results.
use nebula_ca_harness.Prelude.{◌≡◌, ◌⊎◌, List}
use nebula_ca_harness.Prelude.Dict.{Dict}
use nebula_ca_harness.Json.{Fields}
use nebula_ca_harness.Commitlog.{Bytes, Store, Output, commit}
use nebula_ca_harness.Manifest.{Manifest}
use nebula_ca_harness.Freshness.{fresh, check}
use nebula_ca_harness.Freshness
use nebula_ca_harness.Dispatch
use nebula_ca_harness.Orchestrator.{World}
use nebula_ca_harness.Orchestrator.Admit.{Identity}
use nebula_ca_harness.Orchestrator.Authority.{IsUnpacked, IsInScope}
use nebula_ca_harness.Orchestrator.Stages.{IsTrusted}

-- The state of the store after the commit of a fresh job, with the outputs and the status of the run.
abbrev pub IsCommitOf : World → Store → Manifest → Store → Type 0
IsCommitOf w s₀ m s =
    (outputs : List Output) × (out_status : Fields) × (s
      ≡ (commit w.codec m.job_id m.seq outputs out_status s₀).state)

-- What a run makes of the store.
abbrev pub IsSettled : World → Store → Store → Type 0
IsSettled w s₀ s =
    (s ≡ s₀)
    ⊎ ((tar : Bytes) × (i : Identity) × (m : Manifest) × IsTrusted w tar i
        × IsUnpacked w tar m
        × IsInScope i m
        × (check s₀ m w.year m.operation ≡ fresh)
        × IsCommitOf w s₀ m s)
