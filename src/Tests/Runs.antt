-- ===== src/Tests/Runs.antt =====
-- A run of box/bin/ca-usb-run on a stick with a co-signed script that asks for root, and a collection by
-- box/lib/causb/collect.py.
use nebula_ca_harness.Prelude.{
  ◌≤◌, zero, suc, String, ◌≡◌, refl, true, false, Option, none, some, [], ◌∷◌, All, length,
  string_eq, ok, ◌==◌, if◌then◌else◌,
}
use nebula_ca_harness.Json.{pos, Value, int, str, bool, arr, obj, nil, cons, Fields, end, field}
use nebula_ca_harness.Commitlog.{Bytes, Store, done_value}
use nebula_ca_harness.Verify.{Tools}
use nebula_ca_harness.Extract
use nebula_ca_harness.Extract.{Stream, done, next, nil as no_entries, find, place, max_files}
use nebula_ca_harness.Collect.{
  Listing, regular, subdir, finished, listed, Progress, filenames, check_dirnames, insert_leaf,
  sort_leaves, open_source, join_path, write_at, write_dest, collect_files, collect_dir,
  collect_subdirs, collect,
}
use nebula_ca_harness.Collect.Outputs.{
  all_files, metas_of, IsGenuine, has_dir_link, collect-all_files,
}
use nebula_ca_harness.Dispatch.{exited}
use nebula_ca_harness.Recovery.{absent}
use nebula_ca_harness.Tests.Kits.{box, dirs}
use nebula_ca_harness.Orchestrator.{World, Outcome, allowed}
use nebula_ca_harness.Orchestrator.Process.{run_locked}
use nebula_ca_harness.Orchestrator.Runs.{IsAuthorized, run_locked-IsAuthorized}
use nebula_ca_harness.Orchestrator.Results.{HasRestraint, run_locked-HasRestraint}

abbrev script_job : Fields
script_job = field "job_id" (str "123e4567-e89b-42d3-a456-426614174000") (
    field "operation" (str "run-script") (
      field "payload" (arr (cons (str "run.sh") nil)) (
        field "entrypoint" (str "run.sh")
          (field "args" (obj (field "privileged" (bool true) end)) end))))

abbrev script_manifest : Value
script_manifest = obj (
    field "schema_version" (int (pos 1)) (
      field "box" (str "nebula-ca")
        (field "seq" (int (pos 7)) (field "jobs" (arr (cons (obj script_job) nil)) end))))

-- The byte 0 is the manifest, another one a marker.
abbrev loads : Bytes → Option Value
loads (zero ∷ []) = some script_manifest
loads (suc n ∷ []) = some (done_value (suc n))
loads b = none

abbrev dumps : Value → Bytes
dumps (obj (field k (int (pos n)) d)) = n ∷ []
dumps v = []

-- `ssh-keygen` accepts everything, and each anchor holds a key of its own.
abbrev tools : Tools
tools = record {
  run = λ argv input. some (record { returncode = pos 0; stdout = some "op@desk" });
  bytes = λ path. none;
  text = λ path.
      some (if path == allowed then "op@desk ssh-ed25519 AAAA" else "bg@safe ssh-ed25519 BBBB");
}

abbrev script_tar : Stream
script_tar =
    next (record { name = "manifest.json"; size = pos 1; isreg = true; bytes = some (0 ∷ []) })
      (next (record { name = "payload/run.sh"; size = pos 1; isreg = true; bytes = some (1 ∷ []) })
        done)

abbrev stick : World
stick = record {
  can_mount = true;
  job_tar = some (some (9 ∷ []));
  job_sig = some (1 ∷ []);
  bg_sig = some (some (2 ∷ []));
  tools = tools;
  open_tar = λ b. some script_tar;
  accepts = λ name. true;
  codec = record { loads = loads; dumps = dumps; sha256 = λ b. "0" };
  year = 2026;
  presses = true;
  presses_again = false;
  host = record {
    child = λ l. exited (pos 0);
    is_executable = λ path. false;
    environ = [];
    job_user = some ("999", "998");
    can_audit = true;
    can_grant = true;
    can_write_job = true;
    job_json_path = "/tmp/job.json";
  };
  handlers_dirs = [];
  out_dir = listed "out.txt" (regular 1 (some (5 ∷ 6 ∷ []))) finished;
  room = 100;
  can_remount = true;
  can_write = λ name. true;
  box = box;
  box_dirs = dirs;
  kit_place = absent;
  can_umount = true;
  is_zero_float = λ text. text == "0.0";
  started_at = "2026-01-01T00:00:00Z";
  finished_at = "2026-01-01T00:00:01Z";
}

abbrev no_results : Store
no_results = record { results = []; seq = 0; consumed = [] }

abbrev the_run : Outcome
the_run = run_locked stick no_results

run_locked-IsAuthorized_example : All (IsAuthorized stick no_results the_run.store) the_run.events
run_locked-IsAuthorized_example = run_locked-IsAuthorized stick no_results

run_locked-HasRestraint_example : All (HasRestraint stick) the_run.events
run_locked-HasRestraint_example = run_locked-HasRestraint stick no_results

-- Two files, one of them in a directory.
abbrev tree : Listing
tree =
    listed "logs" (subdir (listed "a.log" (regular 1 (some (1 ∷ []))) finished))
      (listed "out.txt" (regular 1 (some (5 ∷ 6 ∷ []))) finished)

abbrev sum : Bytes → String
sum b = "0"

abbrev collected : Progress
collected = record {
  dest =
      place "logs" (Extract.folder (place "a.log" (Extract.file (1 ∷ [])) no_entries))
        (place "out.txt" (Extract.file (5 ∷ 6 ∷ [])) no_entries);
  room = 7;
  file_count = 2;
  outputs =
      record { path = "out.txt"; sha256 = "0"; bytes = 2 }
      ∷ record { path = "logs/a.log"; sha256 = "0"; bytes = 1 }
      ∷ [];
}

tree_collects : collect sum tree 10 ≡ ok collected
unfolding collect collect_dir collect_subdirs collect_files check_dirnames filenames sort_leaves
    insert_leaf open_source write_dest write_at join_path find place
tree_collects = refl

collect-all_files_example :
    (collected.outputs ≡ metas_of sum (all_files tree))
    × All IsGenuine (all_files tree)
    × (length (all_files tree) ≤ max_files)
    × (has_dir_link tree ≡ false)
collect-all_files_example = collect-all_files sum tree 10 collected tree_collects
