-- ===== src/Commitlog/Again.antt =====
-- `commit` (box/lib/causb/commitlog.py) leaves a mark that the next `commit` of the same job finds.
use nebula_ca_harness.Prelude.{
  ℕ, String, ◌≡◌, sym, ap, ◌∙◌, subst, inl, inr, true, some, List, [], ok, Bool-cases, Option-cases,
  string_eq, ◌≤◌, contains, some_inj,
}
use nebula_ca_harness.Prelude.Dict.{lookup}
use nebula_ca_harness.Json.{Fields}
use nebula_ca_harness.Effect.{◌>>=◌}
use nebula_ca_harness.Effect.Triple.{Post-ok}
use nebula_ca_harness.Commitlog.{Store, Codec, IsLawful, Output, is_safe_job_id, read_done, commit}
use nebula_ca_harness.Commitlog.Point.{
  IsWritable, IsPending, IsCommitState, IsCommitted, IsComplete, commit-atomic,
}
use nebula_ca_harness.Commitlog.Frame.{commit-replays}

-- A job that has a valid DONE marker is in both caches.
abbrev pub IsRecorded : Codec → String → Store → Type 0
IsRecorded c j s =
    (n : ℕ)
    → read_done c.loads (lookup j s.results) ≡ some n
    → (n ≤ s.seq) × (contains s.consumed j ≡ true)

module _ (c : Codec) (law : IsLawful c) (j : String) (seq : ℕ) (outputs : List Output)
    (out_status : Fields) (writable : IsWritable outputs) (s : Store)
    (returned : (commit c j seq outputs out_status s).result ≡ ok tt) where
  abbrev final : Store
  final = (commit c j seq outputs out_status s).state

  returned-safe : is_safe_job_id j ≡ true
  unfolding commit ◌>>=◌
  returned-safe = elim (Bool-cases (is_safe_job_id j)) [
    | inl safe ↦ safe
    | inr e ↦ absurd (cc (rw (e, commit) at returned))
  ]

  committed : IsPending c j s → IsCommitted c law j seq outputs out_status writable final
  committed pending =
      let run = commit c j seq outputs out_status s in
      Post-ok (IsCommitState c law j seq outputs out_status writable)
        (λ _. IsCommitted c law j seq outputs out_status writable) run.result run.state tt
        (commit-atomic c law j seq outputs out_status writable s pending).1 returned

  complete-marked :
      (t : Store)
      → IsComplete c law j seq outputs out_status writable t
      → read_done c.loads (lookup j t.results) ≡ some seq
  unfolding read_done
  complete-marked t (items, there, result) = rw (there, read_done) result.done

  kept : (n : ℕ) → read_done c.loads (lookup j s.results) ≡ some n → final ≡ s
  kept n done = ap (λ r. r.state) (commit-replays c j seq n outputs out_status s returned-safe done)

  -- After `commit` returned, the job has a valid marker, whether it was committed before or not.
  pub commit-IsMarked : (n : ℕ) × (read_done c.loads (lookup j final.results) ≡ some n)
  commit-IsMarked = elim (Option-cases (read_done c.loads (lookup j s.results))) [
    | inl pending ↦ (seq, complete-marked final (committed pending).0)
    | inr (n, done) ↦
        (n, subst (λ t. read_done c.loads (lookup j t.results) ≡ some n) (sym (kept n done)) done)
  ]

  -- And it is in both caches, if it was there when it was committed before.
  pub commit-IsRecorded : IsRecorded c j s → IsRecorded c j final
  commit-IsRecorded recorded = elim (Option-cases (read_done c.loads (lookup j s.results))) [
    | inl pending ↦ λ n marked.
        let (complete, above, consumed) = committed pending in
        (
          subst (λ k. k ≤ final.seq) (some_inj (sym (complete-marked final complete) ∙ marked))
              above,
          consumed,
        )
    | inr (n, done) ↦ subst (IsRecorded c j) (sym (kept n done)) recorded
  ]

  -- Once `commit` has returned for a job, from any store, a second `commit` of the same job does no file
  -- operation, leaves the store as it is and returns, whatever its seq, its outputs and its status
  -- are. The outputs of the first have the names that `commit-atomic` asks for, and the DONE marker
  -- that it writes reads back.
  pub commit-commit :
      (seq' : ℕ) (outputs' : List Output) (out_status' : Fields)
      → commit c j seq' outputs' out_status' final
        ≡ record { trace = []; result = ok tt; state = final }
  commit-commit seq' outputs' out_status' =
      let (n, marked) = commit-IsMarked in
      commit-replays c j seq' n outputs' out_status' final returned-safe marked
