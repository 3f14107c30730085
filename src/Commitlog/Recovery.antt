-- ===== src/Commitlog/Recovery.antt =====
-- A power loss during `commit`, and the repair at the next boot (box/lib/causb/commitlog.py).
use nebula_ca_harness.Prelude.{ℕ, String, ◌≡◌, ◌⊎◌, List, string_eq, ok}
use nebula_ca_harness.Prelude.Dict.{Dict}
use nebula_ca_harness.Json.{Fields}
use nebula_ca_harness.Commitlog.{Io, Store, Codec, IsLawful, Output}
use nebula_ca_harness.Commitlog.Reconcile.{reconcile_on_boot}
use nebula_ca_harness.Commitlog.Point.{IsWritable, IsCommitted}
use nebula_ca_harness.Commitlog.Rerun.{IsRunnable}

-- The action does not raise, whatever the store.
abbrev Returns : {A : Type 0} → Io A → Type 0
Returns {A} m = (s : Store) → (a : A) × ((m s).result ≡ ok a)

module _ (c : Codec) (law : IsLawful c) (j : String) (seq : ℕ) (outputs : List Output)
    (out_status : Fields) (writable : IsWritable outputs) where
  -- The repair returns, and leaves the job either to be run again or committed with all it has.
  abbrev pub IsRecovered : Store → Type 0
  IsRecovered s =
      ((reconcile_on_boot c s).result ≡ ok tt)
      × (IsRunnable c j (reconcile_on_boot c s).state
          ⊎ IsCommitted c law j seq outputs out_status writable (reconcile_on_boot c s).state)
