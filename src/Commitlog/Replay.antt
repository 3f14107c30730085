-- ===== src/Commitlog/Replay.antt =====
-- `cached_result` (box/lib/causb/commitlog.py): a committed result can be delivered again.
use nebula_ca_harness.Prelude.{ℕ, String, ◌≡◌, refl, true, some, List, string_eq, ok}
use nebula_ca_harness.Prelude.Dict.{Dict}
use nebula_ca_harness.Json.{Fields}
use nebula_ca_harness.Effect.Triple.{Post-ok}
use nebula_ca_harness.Commitlog.{
  Item, Store, Codec, IsLawful, Output, is_safe_job_id, cached_result, commit,
}
use nebula_ca_harness.Commitlog.Point.{
  IsWritable, IsPending, IsCommitState, IsCommitted, IsComplete, IsResult, commit-atomic,
}

module _ (c : Codec) (law : IsLawful c) (j : String) (seq : ℕ) (outputs : List Output)
    (out_status : Fields) (writable : IsWritable outputs) where
  cached_result-IsComplete :
      (s : Store)
      → is_safe_job_id j ≡ true
      → IsComplete c law j seq outputs out_status writable s
      → (items : Dict String Item) × (cached_result c j s ≡ ok (some items))
        × IsResult c law j seq outputs out_status writable items
  unfolding cached_result
  cached_result-IsComplete s safe (items, there, result) =
      (items, rw (safe, there, result.done, cached_result) refl, result)

  -- When `commit` returns for a job that was not committed, `cached_result` finds the job's directory,
  -- and in it the valid DONE marker, this status.json and every output with its bytes. The job's id
  -- is a safe name; the outputs' names are as for `commit`.
  pub commit-cached_result :
      (s : Store)
      → is_safe_job_id j ≡ true
      → IsPending c j s
      → (commit c j seq outputs out_status s).result ≡ ok tt
      → (items : Dict String Item) × (cached_result c j (commit c j seq outputs out_status s).state
          ≡ ok (some items))
        × IsResult c law j seq outputs out_status writable items
  commit-cached_result s safe pending returned =
      let r = commit c j seq outputs out_status s in
      cached_result-IsComplete r.state safe
        (Post-ok (IsCommitState c law j seq outputs out_status writable)
          (λ _. IsCommitted c law j seq outputs out_status writable) r.result r.state tt
          (commit-atomic c law j seq outputs out_status writable s pending).1 returned).0
