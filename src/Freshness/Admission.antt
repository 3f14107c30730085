-- ===== src/Freshness/Admission.antt =====
-- What `freshness.check` admits, and why a committed job never runs again.
use mathlib.Core.Bool.{true≢false}
use nebula_ca_harness.Prelude.{
  ℕ, ◌≤◌, ◌<◌, String, ◌≡◌, ◌≢◌, ◌↔◌, ◌⊎◌, true, false, contains, arith, sym, subst, ◌∙◌, string_eq,
  str_iff, List, ok, some,
}
use nebula_ca_harness.Json.{Fields}
use nebula_ca_harness.Manifest.{Manifest}
use nebula_ca_harness.Prelude.Dict.{lookup}
use nebula_ca_harness.Commitlog.{Store, Codec, IsLawful, Output, read_done, commit}
use nebula_ca_harness.Commitlog.Point.{IsWritable}
use nebula_ca_harness.Commitlog.Again.{IsRecorded, commit-IsMarked, commit-IsRecorded}
use nebula_ca_harness.Freshness.{fresh, replay, check, box_name}

module _ (s : Store) (m : Manifest) (now_year : ℕ) (op : String) where
  abbrev pub IsAdmitted : Type 0
  IsAdmitted = (m.box ≡ box_name) × ((op ≡ "set-time") ⊎ (2026 ≤ now_year)) × (s.seq < m.seq)

  -- A job is fresh exactly when it names this box, the clock is sane or the operation is set-time,
  -- its seq is above the last committed one, and its job_id is not among the consumed ones.
  pub check-eq-fresh :
      (check s m now_year op ≡ fresh) ↔ (IsAdmitted × (contains s.consumed m.job_id ≡ false))
  unfolding check
  check-eq-fresh = (
    λ h. ground (arith, str_iff m.box box_name, str_iff op "set-time"),
    λ h. ground (arith, str_iff m.box box_name, str_iff op "set-time"),
  )

  -- A job is replayed exactly when it passes the same tests and its job_id was consumed.
  pub check-eq-replay :
      (check s m now_year op ≡ replay) ↔ (IsAdmitted × (contains s.consumed m.job_id ≡ true))
  unfolding check
  check-eq-replay = (
    λ h. ground (arith, str_iff m.box box_name, str_iff op "set-time"),
    λ h. ground (arith, str_iff m.box box_name, str_iff op "set-time"),
  )

module _ (c : Codec) (law : IsLawful c) (j : String) (seq : ℕ) (outputs : List Output)
    (out_status : Fields) (writable : IsWritable outputs) (s : Store) (recorded : IsRecorded c j s)
    (returned : (commit c j seq outputs out_status s).result ≡ ok tt) where
  still : IsRecorded c j (commit c j seq outputs out_status s).state
  still = commit-IsRecorded c law j seq outputs out_status writable s returned recorded

  -- Once `commit` has returned for a job, `check` never again finds a manifest with its job_id fresh,
  -- whatever its seq, the year and the operation. If the job had a valid DONE marker before, then
  -- the caches had to record it: its job_id is consumed, and `seq` is not below the marker's. The
  -- outputs' names and the codec are as for `commit-atomic`.
  pub commit-ne-fresh :
      (m : Manifest) (now_year : ℕ) (op : String)
      → m.job_id ≡ j
      → check (commit c j seq outputs out_status s).state m now_year op ≢ fresh
  commit-ne-fresh m now_year op same f =
      let s' = (commit c j seq outputs out_status s).state in
      let known = ((check-eq-fresh s' m now_year op).0 f).1 in
      let (n, marked) = commit-IsMarked c law j seq outputs out_status writable s returned in
      absurd (
        true≢false
          (sym (still n marked).1 ∙ subst (λ x. contains s'.consumed x ≡ false) same known))

  -- Once `commit` has returned for a job, `check` refuses every manifest whose seq is not above the
  -- one in the job's DONE marker: it is neither fresh nor replayed, whatever its job_id, the year and
  -- the operation. If the job had a valid marker before, then the caches had to record it, as for
  -- `commit-ne-fresh`; otherwise the marker's seq is that of the `commit`.
  pub commit-ne-replay :
      (n : ℕ) (m : Manifest) (now_year : ℕ) (op : String)
      → let s' = (commit c j seq outputs out_status s).state in
        read_done c.loads (lookup j s'.results) ≡ some n
        → m.seq ≤ n
        → (check s' m now_year op ≢ fresh) × (check s' m now_year op ≢ replay)
  commit-ne-replay n m now_year op marked low =
      let s' = (commit c j seq outputs out_status s).state in
      let above : n ≤ s'.seq = (still n marked).0 in
      (
        λ f. absurd (omega (arith, (((check-eq-fresh s' m now_year op).0 f).0).2, above, low)),
        λ r. absurd (omega (arith, (((check-eq-replay s' m now_year op).0 r).0).2, above, low)),
      )
