-- ===== src/Commitlog/Rerun.antt =====
-- `reconcile_on_boot` (box/lib/causb/commitlog.py): what the repair at boot does to a job that is not
-- committed.
use nebula_ca_harness.Prelude.{String, ◌≡◌, Bool, false, contains, string_eq}
use nebula_ca_harness.Prelude.Dict.{Dict}
use nebula_ca_harness.Commitlog.{Store, Codec}
use nebula_ca_harness.Commitlog.Reconcile.{Scan}
use nebula_ca_harness.Commitlog.Point.{IsPending}

module _ (c : Codec) (j : String) where
  abbrev Unlisted : Scan → Store → Type 0
  Unlisted scan s = (contains scan.ids j ≡ false) × IsPending c j s

  -- The job is neither committed nor in the cache of committed jobs.
  abbrev pub IsRunnable : Store → Type 0
  IsRunnable s = IsPending c j s × (contains s.consumed j ≡ false)
