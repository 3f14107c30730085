-- ===== src/Tests/Jobs.antt =====
-- A first job on an empty store of box/lib/causb/commitlog.py, and its admission.
use nebula_ca_harness.Prelude.{
  ℕ, String, ◌≡◌, ◌≢◌, refl, ◌↔◌, ◌⊎◌, true, Option, none, some, List, [], ◌∷◌, All, contains,
  string_eq, arith, str_iff, ok, false,
}
use nebula_ca_harness.Prelude.Dict.{Dict, lookup, remove, put}
use nebula_ca_harness.Json.{pos, Value, int, str, arr, obj, nil, cons, Fields, end, field}
use nebula_ca_harness.Effect.{◌>>=◌}
use nebula_ca_harness.Effect.Triple.{Post}
use nebula_ca_harness.Names.{has_slash, is_dots}
use nebula_ca_harness.Commitlog.{
  cached_result, Item, Bytes, file, Entry, dir, Store, Codec, IsLawful, done_value, Output,
  read_done, commit, is_safe_job_id, is_safe_output, seq_of_value, seq_of_payload, contents, on_dir,
  in_dir, replace, atomic_write, remove_items, remove_tree, make_job_dir, set_field, wipe_stale,
  is_symlink, done_of, bump_caches, write_output, write_outputs, status_dict, write_done,
  commit_new, insert_name, sort_names,
}
use nebula_ca_harness.Commitlog.Reconcile.{reconcile_on_boot, visit_dir, visit, scan_jobs}
use nebula_ca_harness.Commitlog.Point.{
  IsResult, IsWritable, IsPending, IsCommitState, IsCommitted, commit-atomic,
}
use nebula_ca_harness.Commitlog.Again.{IsRecorded, commit-commit}
use nebula_ca_harness.Commitlog.Boot.{IsKept, IsRepaired, reconcile_on_boot-IsRepaired}
use nebula_ca_harness.Commitlog.Replay.{commit-cached_result}
use nebula_ca_harness.Commitlog.Ledger.{Before, After, commit-IsRefinement}
use nebula_ca_harness.Manifest.{Manifest, parse}
use nebula_ca_harness.Manifest.Valid.{IsValid, parse_iff}
use nebula_ca_harness.Freshness.{fresh, replay, check}
use nebula_ca_harness.Freshness.Admission.{
  IsAdmitted, check-eq-fresh, commit-ne-fresh, commit-ne-replay,
}

-- A marker is the one byte of its seq, and any other value is empty.
abbrev dumps : Value → Bytes
dumps (obj (field k (int (pos n)) d)) = n ∷ []
dumps v = []

abbrev loads : Bytes → Option Value
loads (n ∷ []) = some (done_value n)
loads b = none

abbrev codec : Codec
codec = record { loads = loads; dumps = dumps; sha256 = λ b. "0" }

codec-IsLawful : IsLawful codec
codec-IsLawful = record { loads-dumps = λ seq. refl }

abbrev empty_store : Store
empty_store = record { results = []; seq = 0; consumed = [] }

abbrev outputs : List Output
outputs = record { path = "host.crt"; bytes = 7 ∷ 8 ∷ [] } ∷ []

outputs-IsWritable : IsWritable outputs
outputs-IsWritable = (
  (λ e. absurd (ground (arith, str_iff "DONE.tmp" "host.crt", e)), tt),
  (λ e. absurd (ground (arith, str_iff "status.json.tmp" "host.crt", e)), tt),
  (tt, tt),
)

job-IsPending : IsPending codec "j1" empty_store
unfolding read_done lookup
job-IsPending = refl

job_returns : (commit codec "j1" 5 outputs end empty_store).result ≡ ok tt
unfolding commit ◌>>=◌ commit_new is_safe_job_id has_slash is_dots lookup is_symlink read_done
    done_of wipe_stale make_job_dir write_outputs write_output is_safe_output atomic_write in_dir
    on_dir put remove replace status_dict set_field write_done bump_caches
job_returns = refl

-- `commit-atomic` at the first job.
commit-atomic_example :
    All
      (IsCommitState codec codec-IsLawful "j1" 5 outputs end outputs-IsWritable)
      (commit codec "j1" 5 outputs end empty_store).trace
    × Post
        (IsCommitState codec codec-IsLawful "j1" 5 outputs end outputs-IsWritable)
        (λ _. IsCommitted codec codec-IsLawful "j1" 5 outputs end outputs-IsWritable)
        (commit codec "j1" 5 outputs end empty_store).result
        (commit codec "j1" 5 outputs end empty_store).state
commit-atomic_example =
    commit-atomic codec codec-IsLawful "j1" 5 outputs end outputs-IsWritable empty_store
      job-IsPending

j1_safe : is_safe_job_id "j1" ≡ true
unfolding is_safe_job_id has_slash is_dots
j1_safe = refl

commit-cached_result_example :
    (items : Dict String Item) × (cached_result codec "j1"
        (commit codec "j1" 5 outputs end empty_store).state
      ≡ ok (some items))
    × IsResult codec codec-IsLawful "j1" 5 outputs end outputs-IsWritable items
commit-cached_result_example =
    commit-cached_result codec codec-IsLawful "j1" 5 outputs end outputs-IsWritable empty_store
      j1_safe job-IsPending job_returns

-- A store with a committed job and a partial one.
abbrev committed_entry : Entry
committed_entry = dir (("DONE", file (5 ∷ [])) ∷ [])

abbrev later_store : Store
later_store = record {
  results = ("j1", committed_entry) ∷ ("j2", dir (("a", file []) ∷ [])) ∷ [];
  seq = 5;
  consumed = [];
}

committed_entry_done : read_done loads (some committed_entry) ≡ some 5
unfolding read_done done_of contents lookup seq_of_payload seq_of_value
committed_entry_done = refl

committed_entry_there : lookup "j1" later_store.results ≡ some committed_entry
unfolding lookup
committed_entry_there = refl

reconcile_on_boot-IsRepaired_example :
    All
      (IsKept codec "j1" committed_entry 5 committed_entry_done)
      (reconcile_on_boot codec later_store).trace
    × Post
        (IsKept codec "j1" committed_entry 5 committed_entry_done)
        (λ _. IsRepaired codec "j1" committed_entry 5 committed_entry_done)
        (reconcile_on_boot codec later_store).result
        (reconcile_on_boot codec later_store).state
reconcile_on_boot-IsRepaired_example =
    reconcile_on_boot-IsRepaired codec "j1" committed_entry 5 committed_entry_done later_store
      committed_entry_there

-- The repair purges the partial job and lists the committed one.
boot_run :
    (reconcile_on_boot codec later_store).state
    ≡ record { results = ("j1", committed_entry) ∷ []; seq = 5; consumed = "j1" ∷ [] }
unfolding reconcile_on_boot ◌>>=◌ sort_names insert_name scan_jobs visit visit_dir lookup remove
    remove_tree remove_items done_of contents seq_of_payload seq_of_value in_dir on_dir put
boot_run = refl

-- A second commit of the job, with another seq and no outputs.
commit-commit_example :
    commit codec "j1" 9 [] end (commit codec "j1" 5 outputs end empty_store).state ≡ record {
      trace = [];
      result = ok tt;
      state = (commit codec "j1" 5 outputs end empty_store).state;
    }
commit-commit_example =
    commit-commit codec codec-IsLawful "j1" 5 outputs end outputs-IsWritable empty_store job_returns
      9 [] end

job-IsRecorded : IsRecorded codec "j1" empty_store
job-IsRecorded n marked = absurd (cc (job-IsPending, marked))

job_marked :
    read_done loads (lookup "j1" (commit codec "j1" 5 outputs end empty_store).state.results)
    ≡ some 5
unfolding commit ◌>>=◌ commit_new is_safe_job_id has_slash is_dots lookup is_symlink read_done
    done_of wipe_stale make_job_dir write_outputs write_output is_safe_output atomic_write in_dir
    on_dir put remove replace status_dict set_field write_done bump_caches contents seq_of_payload
    seq_of_value
job_marked = refl

-- The manifest of a job for this box.
abbrev manifest_of : String → ℕ → Manifest
manifest_of job_id seq = record {
  top = end;
  box = "nebula-ca";
  seq = seq;
  job = end;
  job_id = job_id;
  operation = "status";
  payload = [];
}

commit-ne-fresh_example :
    check (commit codec "j1" 5 outputs end empty_store).state (manifest_of "j1" 9) 2026 "status"
    ≢ fresh
commit-ne-fresh_example =
    commit-ne-fresh codec codec-IsLawful "j1" 5 outputs end outputs-IsWritable empty_store
      job-IsRecorded job_returns (manifest_of "j1" 9) 2026 "status" refl

commit-ne-replay_example :
    (check (commit codec "j1" 5 outputs end empty_store).state (manifest_of "j2" 4) 2026 "status"
      ≢ fresh)
    × (check (commit codec "j1" 5 outputs end empty_store).state (manifest_of "j2" 4) 2026 "status"
        ≢ replay)
commit-ne-replay_example =
    commit-ne-replay codec codec-IsLawful "j1" 5 outputs end outputs-IsWritable empty_store
      job-IsRecorded job_returns 5 (manifest_of "j2" 4) 2026 "status" job_marked (omega arith)

check-eq-fresh_example : (check later_store (manifest_of "j2" 6) 2026 "status" ≡ fresh) ↔ (
    IsAdmitted later_store (manifest_of "j2" 6) 2026 "status"
    × (contains later_store.consumed "j2" ≡ false))
check-eq-fresh_example = check-eq-fresh later_store (manifest_of "j2" 6) 2026 "status"

abbrev uuid : String
uuid = "12345678-1234-4234-8234-123456789abc"

abbrev wire_job : Fields
wire_job =
    field "job_id" (str uuid)
      (field "operation" (str "status") (field "payload" (arr (cons (str "a.txt") nil)) end))

abbrev wire_top : Fields
wire_top = field "schema_version" (int (pos 1)) (
    field "box" (str "nebula-ca")
      (field "seq" (int (pos 3)) (field "jobs" (arr (cons (obj wire_job) nil)) end)))

abbrev wire : List ℕ → Option Value
wire raw = some (obj wire_top)

abbrev wire_manifest : Manifest
wire_manifest = record {
  top = wire_top;
  box = "nebula-ca";
  seq = 3;
  job = wire_job;
  job_id = uuid;
  operation = "status";
  payload = "a.txt" ∷ [];
}

parse_iff_example :
    (parse wire (1 ∷ []) ("a.txt" ∷ []) ≡ ok wire_manifest)
    ↔ IsValid wire (1 ∷ []) ("a.txt" ∷ []) wire_manifest
parse_iff_example = parse_iff wire (1 ∷ []) ("a.txt" ∷ []) wire_manifest

-- The ledger of an empty store gets the first job in one step.
commit-IsRefinement_example :
    All
      (λ s'.
        Before codec codec-IsLawful "j1" 5 outputs end outputs-IsWritable empty_store job-IsPending
          s'
        ⊎ After codec codec-IsLawful "j1" 5 outputs end outputs-IsWritable empty_store job-IsPending
            s')
      (commit codec "j1" 5 outputs end empty_store).trace
    × Post
        (λ s'.
          Before codec codec-IsLawful "j1" 5 outputs end outputs-IsWritable empty_store
            job-IsPending s'
          ⊎ After codec codec-IsLawful "j1" 5 outputs end outputs-IsWritable empty_store
              job-IsPending s')
        (λ _.
          After codec codec-IsLawful "j1" 5 outputs end outputs-IsWritable empty_store
            job-IsPending)
        (commit codec "j1" 5 outputs end empty_store).result
        (commit codec "j1" 5 outputs end empty_store).state
commit-IsRefinement_example =
    commit-IsRefinement codec codec-IsLawful "j1" 5 outputs end outputs-IsWritable empty_store
      job-IsPending
