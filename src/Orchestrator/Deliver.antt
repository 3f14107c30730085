-- ===== src/Orchestrator/Deliver.antt =====
-- box/bin/ca-usb-run after the children: the collected outputs, the commit, and the delivery to the
-- stick; and the delivery of a committed result once more.
use nebula_ca_harness.Prelude.{
  ℕ, String, Bool, true, false, ◌&&◌, ◌||◌, Option, none, some, List, [], ◌∷◌, ◌++◌, contains, ◌==◌,
  string_eq, nat_eq, if◌then◌else◌, Result, ok, err,
}
use nebula_ca_harness.Prelude.Dict.{Dict, keys, lookup}
use nebula_ca_harness.Json.{ℤ, pos, Value, null, bool, int, str, Fields, end, field}
use nebula_ca_harness.Names.{has_slash, is_dots}
use nebula_ca_harness.Commitlog.{
  Bytes, Item, dir, Entry, Store, Output, commit, contents, sort_names,
}
use nebula_ca_harness.Mountctl.{is_zero}
use nebula_ca_harness.Extract
use nebula_ca_harness.Extract.{Tree, find}
use nebula_ca_harness.Collect.{Meta, Progress, collect}
use nebula_ca_harness.Collect
use nebula_ca_harness.Freshness.{box_name}
use nebula_ca_harness.Orchestrator.{
  Event, audited, remounted, unlinked_breadcrumb, commit_called, delivered, latest, Outcome, World,
  after, Context, line, status_error, finish,
}

-- What `_collect_outputs` returns.
pub record Collected : Type 0 where
  pub status : String
  pub error : Option String
  pub outputs : List Output

abbrev failed : Collected
failed = record { status = "error"; error = some "handler_failed"; outputs = [] }

abbrev pub unconfirmed : Collected
unconfirmed = record { status = "no_confirmation"; error = some "no_confirmation"; outputs = [] }

-- `_REASON_MAP` on a `CollectError`, and the status of a run whose outputs cannot be used.
unfoldable pub uncollected : Collect.Reason → Collected
uncollected Collect.bad_output = failed
uncollected Collect.path_traversal = record {
  status = "aborted";
  error = some "path_traversal";
  outputs = [];
}
uncollected Collect.cap_exceeded = record {
  status = "aborted";
  error = some "cap_exceeded";
  outputs = [];
}

-- The names that `commit` cannot take.
unfoldable pub is_uncommittable : String → Bool
unfolding has_slash is_dots
is_uncommittable name = has_slash name || is_dots name || name == "DONE" || name == "status.json"

-- `open(os.path.join(collect_dir, name), "rb").read()`
abbrev pub read_copy : Tree → String → Option Bytes
read_copy dest name = elim (find dest name) [
  | some n ↦ elim n [ Extract.file b ↦ some b | Extract.folder t ↦ none | Extract.other ↦ none ]
  | none ↦ none
]

-- The loop over the collected files; `none` is its early return.
unfoldable pub read_back : Tree → List Meta → Option (List Output)
unfolding is_uncommittable
read_back dest [] = some []
read_back dest (m ∷ ms) =
    let rest = read_back dest ms in
    if is_uncommittable m.path then none else elim (read_copy dest m.path) [
      | none ↦ none
      | some b ↦ elim rest [
        | none ↦ none
        | some os ↦ some (record { path = m.path; bytes = b } ∷ os)
      ]
    ]

abbrev pub shaped : ℤ → Option (List Output) → Collected
shaped rc none = failed
shaped rc (some outputs) =
    if is_zero rc
    then record { status = "ok"; error = none; outputs = outputs }
    else record { status = "error"; error = some "handler_failed"; outputs = outputs }

-- The events of a step that may raise, and whether it returned.
abbrev pub Delivery : Type 0
Delivery = List Event × Bool

-- The next step of a delivery runs if the one before it returned.
abbrev pub then_deliver : Delivery → Delivery → Delivery
then_deliver (es, true) d = (es ++ d.0, d.1)
then_deliver (es, false) d = (es, false)

module _ (w : World) where
  -- `_collect_outputs`
  unfoldable pub collect_outputs : ℤ → Collected
  unfolding uncollected read_back
  collect_outputs rc = elim (collect w.codec.sha256 w.out_dir w.room) [
    | err e ↦ uncollected e
    | ok p ↦ shaped rc (read_back p.dest p.outputs)
  ]

  abbrev or_status : Option String → String → String
  or_status none status = status
  or_status (some e) status = e

  abbrev optional : Option String → Value
  optional none = null
  optional (some reason) = str (status_error reason)

  -- `_build_out_status`
  unfoldable pub build_out_status : String → Bool → Value → Option String → Fields
  unfolding status_error
  build_out_status status_val presence_confirmed exit_code error =
      field "schema_version" (int (pos 1)) (
        field "status" (str status_val) (
          field "box" (str box_name) (
            field "started_at" (str w.started_at) (
              field "finished_at" (str w.finished_at) (
                field "presence_confirmed" (bool presence_confirmed) (
                  field "exit_code" exit_code
                    (field "error" (optional error) (field "replayed" (bool false) end))))))))

  -- `_copy_dir_to_outbox`, over the sorted names of the directory.
  unfoldable pub copy_files : String → List String → Dict String Item → List String → Delivery
  copy_files job_id exclude items [] = ([], true)
  copy_files job_id exclude items (name ∷ names) =
      let rest = copy_files job_id exclude items names in
      if contains exclude name then rest else elim (contents (lookup name items)) [
        | none ↦ ([], false)
        | some b ↦
            if w.can_write name then (delivered job_id name b ∷ rest.0, rest.1) else ([], false)
      ]

  -- `_write_latest`
  unfoldable pub write_latest : Value → Value → String → Value → Bool → Delivery
  write_latest bundle_id seq job_id status_val replayed =
      if w.can_write "LATEST.json"
      then (
        latest bundle_id seq job_id status_val replayed
            ∷ (if replayed then [] else unlinked_breadcrumb ∷ []),
        true,
      )
      else ([], false)

  abbrev pub remount : Delivery → Delivery
  remount d = if w.can_remount then (remounted ∷ d.0, d.1) else ([], false)

  -- `_copy_dir_to_outbox`
  unfoldable pub copy_dir : String → List String → Option Entry → Delivery
  unfolding copy_files sort_names
  copy_dir job_id exclude (some (dir items)) =
      copy_files job_id exclude items (sort_names (keys items))
  copy_dir job_id exclude e = ([], false)

  abbrev pub ended : Bool → Delivery → Store → Outcome
  ended success (es, returned) store = after es (finish w (success && returned) store)

  unfoldable pub deliver_and_finish : String → ℕ → Value → String → Bool → Store → Outcome
  unfolding copy_dir write_latest finish
  deliver_and_finish job_id seq bundle_id status_val success store =
      ended success
        (remount (
          then_deliver (copy_dir job_id ("DONE" ∷ []) (lookup job_id store.results))
            (write_latest bundle_id (int (pos seq)) job_id (str status_val) false)))
        store

  -- A commit that raised, or the delivery of one that returned.
  abbrev pub when_committed : {E : Type 0} → Result E (Unit {0}) → Outcome → Outcome → Outcome
  when_committed (ok _) delivery refusal = delivery
  when_committed (err e) delivery refusal = refusal

  -- The commit, the audit line and the delivery, which `_commit_and_deliver` and `_no_confirmation`
  -- have in common.
  unfoldable pub commit_then_deliver :
      Context → String → ℕ → Value → Collected → Bool → Value → Store → Outcome
  unfolding build_out_status deliver_and_finish finish
  commit_then_deliver c job_id seq bundle_id collected presence_confirmed exit_code s =
      let out_status =
        build_out_status collected.status presence_confirmed exit_code collected.error in
      let run = commit w.codec job_id seq collected.outputs out_status s in
      let audit_status = or_status collected.error collected.status in
      after (commit_called job_id ∷ audited (line c audit_status exit_code) ∷ []) (
        when_committed run.result
          (deliver_and_finish job_id seq bundle_id collected.status (collected.status == "ok")
            run.state)
          (finish w false run.state))

  -- `_commit_and_deliver`
  unfoldable pub commit_and_deliver : Context → String → ℕ → Value → ℤ → Store → Outcome
  unfolding collect_outputs commit_then_deliver
  commit_and_deliver c job_id seq bundle_id rc s =
      commit_then_deliver c job_id seq bundle_id (collect_outputs rc) true (int rc) s

  -- `_no_confirmation`
  unfoldable pub no_confirmation : Context → String → ℕ → Value → Store → Outcome
  unfolding commit_then_deliver
  no_confirmation c job_id seq bundle_id s =
      commit_then_deliver c job_id seq bundle_id unconfirmed false null s
