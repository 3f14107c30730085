-- ===== src/Commitlog.antt =====
-- box/lib/causb/commitlog.py: the crash-atomic store of job results.
-- An action records the store after each of its file operations (see `Effect`), `fsync` included.
-- The listing of a directory is a dict. The text of `seq` is the number that it spells, and
-- `consumed-jobs` is its lines; a file that is absent is 0 or has no lines. `RESULTS_DIR` that is
-- absent is empty, so `os.makedirs(..., exist_ok=True)` has nothing to do.
mod Names
pub mod Atomic
pub mod Outputs
pub mod Point
pub mod Frame
pub mod Boot
pub mod Rerun
pub mod Recovery
pub mod Replay
pub mod Again
pub mod Reconcile
pub mod Ledger
use nebula_ca_harness.Prelude.{
  ℕ, max, ◌≡◌, String, Result, ok, err, Bool, true, false, not, ◌||◌, Option, none, some, List, [],
  ◌∷◌, ◌++◌, length, ◌==◌, string_eq, if◌then◌else◌,
}
use Prim.Native.Nat.{Ordering}
use Prim.Native.String.{◌++◌ as ◌<>◌, compare}
use nebula_ca_harness.Prelude.Dict.{Dict, keys, lookup, remove, put}
use nebula_ca_harness.Json.{
  pos, negsuc, Value, null, bool, int, float, str, arr, obj, Items, nil, cons, Fields, end, field,
  get,
}
use nebula_ca_harness.Names.{has_slash, is_dots}
use nebula_ca_harness.Effect.{Action, pure, raise, step, read, ◌>>=◌, ◌>>◌, check}

abbrev pub Bytes : Type 0
Bytes = List ℕ

-- What stands in a job's directory. Opening a symbolic link reads what it points to, or fails.
pub data Item : Type 0 where
  file : Bytes → Item
  link : Option Bytes → Item
  folder : Item

-- What stands in `RESULTS_DIR`.
pub data Entry : Type 0 where
  dir : Dict String Item → Entry
  symlink : Entry
  other : Entry

pub record Store : Type 0 where
  pub results : Dict String Entry
  pub seq : ℕ
  pub consumed : List String

-- The exceptions of `commit` are all `ValueError`.
pub data Fault : Type 0 where
  unsafe_job_id unsafe_output job_dir_is_symlink job_dir_is_no_dir : Fault

abbrev pub Io : Type 0 → Type 0
Io = Action Store Fault

-- `json.loads` on a file's bytes (`none` for an exception), `json.dumps(...).encode()` and
-- `hashlib.sha256(...).hexdigest()`.
pub record Codec : Type 0 where
  pub loads : Bytes → Option Value
  pub dumps : Value → Bytes
  pub sha256 : Bytes → String

-- `{"seq": seq}`
abbrev pub done_value : ℕ → Value
done_value seq = obj (field "seq" (int (pos seq)) end)

-- What the program relies on: the DONE marker that it writes reads back.
pub record IsLawful (c : Codec) : Type 0 where
  pub loads-dumps : (seq : ℕ) → c.loads (c.dumps (done_value seq)) ≡ some (done_value seq)

-- `_validate_job_id`
unfoldable pub is_safe_job_id : String → Bool
unfolding has_slash is_dots
is_safe_job_id job_id = not (job_id == "" || has_slash job_id || is_dots job_id)

-- `_validate_output_name`
unfoldable pub is_safe_output : String → Bool
unfolding has_slash is_dots
is_safe_output name =
    not (name == "" || has_slash name || is_dots name || name == "DONE" || name == "status.json")

-- The marker's checks of `_read_done_seq`.
unfoldable pub seq_of_value : Value → Option ℕ
unfolding get
seq_of_value (int (pos n)) = some n
seq_of_value v = none

unfoldable pub seq_of_payload : Option Value → Option ℕ
unfolding seq_of_value get
seq_of_payload (some (obj payload)) = seq_of_value (get payload "seq")
seq_of_payload payload = none

-- `open(path).read()`, where `none` is an `OSError`.
unfoldable pub contents : Option Item → Option Bytes
contents (some (file b)) = some b
contents (some (link target)) = target
contents i = none

-- A change of the listing of one job's directory.
unfoldable pub on_dir : (Dict String Item → Dict String Item) → Entry → Entry
on_dir f (dir items) = dir (f items)
on_dir f e = e

unfoldable pub in_dir : String → (Dict String Item → Dict String Item) → Store → Store
unfolding on_dir
in_dir job_id f s = elim (lookup job_id s.results) [
  | none ↦ s
  | some e ↦ record s { results = put job_id (on_dir f e) s.results }
]

-- `_fsync_dir`, or `os.fsync` of a file: a step that leaves the names and the bytes as they are.
abbrev pub fsync : Io (Unit {0})
fsync = step (λ s. s)

-- `os.replace(tmp, name)`
unfoldable pub replace : String → String → Dict String Item → Dict String Item
replace tmp name items = elim (lookup tmp items) [
  | none ↦ items
  | some i ↦ put name i (remove tmp items)
]

-- `_atomic_write` into a job's directory: create, write, fsync, rename.
unfoldable pub atomic_write : String → String → Bytes → Io (Unit {0})
unfolding in_dir replace
atomic_write job_id name data' = do
  step (in_dir job_id (put (name <> ".tmp") (file [])))
  step (in_dir job_id (put (name <> ".tmp") (file data')))
  fsync
  step (in_dir job_id (replace (name <> ".tmp") name))

-- `_remove_tree`, over the names that `os.walk` lists. A subdirectory goes in one step.
unfoldable pub remove_items : String → Dict String Item → Io (Unit {0})
unfolding in_dir
remove_items job_id [] = pure tt
remove_items job_id ((name, i) ∷ items) = do
  step (in_dir job_id (remove name))
  remove_items job_id items

unfoldable pub remove_tree : String → Dict String Item → Io (Unit {0})
unfolding remove_items
remove_tree job_id items = do
  remove_items job_id items
  step (λ s. record s { results = remove job_id s.results })

-- `os.makedirs(job_dir)`
unfoldable pub make_job_dir : String → Store → Store
make_job_dir job_id s = record s { results = put job_id (dir []) s.results }

-- `d[key] = value` on a JSON object.
unfoldable pub set_field : String → Value → Fields → Fields
set_field key v end = field key v end
set_field key v (field k w d) = if k == key then field key v d else field k w (set_field key v d)

-- An entry of `outputs`.
pub record Output : Type 0 where
  pub path : String
  pub bytes : Bytes

-- The state of `job_dir` before a commit: refused, absent, or a stale partial that is wiped.
unfoldable pub wipe_stale : String → Option Entry → Io (Unit {0})
unfolding remove_tree
wipe_stale job_id none = pure tt
wipe_stale job_id (some (dir items)) = remove_tree job_id items
wipe_stale job_id (some e) = raise job_dir_is_no_dir

-- `stat.S_ISLNK(existing.st_mode)`
unfoldable pub is_symlink : Option Entry → Bool
is_symlink (some symlink) = true
is_symlink e = false

-- `_read_done_seq` sees a directory only.
unfoldable pub done_of : (Bytes → Option Value) → Dict String Item → Option ℕ
unfolding seq_of_payload contents
done_of loads items = elim (contents (lookup "DONE" items)) [
  | none ↦ none
  | some b ↦ seq_of_payload (loads b)
]

unfoldable pub read_done : (Bytes → Option Value) → Option Entry → Option ℕ
unfolding done_of
read_done loads (some (dir items)) = done_of loads items
read_done loads e = none

-- `_bump_caches`
unfoldable pub bump_caches : String → ℕ → Io (Unit {0})
bump_caches job_id seq = do
  step (λ s. record s { seq = max s.seq seq })
  step (λ s. record s { consumed = s.consumed ++ (job_id ∷ []) })
  fsync

-- `if _read_done_seq(job_dir) is not None: return`
abbrev pub unless_done : Option ℕ → Io (Unit {0}) → Io (Unit {0})
unless_done (some seq) m = pure tt
unless_done none m = m

module _ (c : Codec) where
  open c use {loads, dumps, sha256}

  -- `_write_output`
  unfoldable pub write_output : String → Output → Io Value
  unfolding is_safe_output atomic_write
  write_output job_id entry = do
    check (is_safe_output entry.path) unsafe_output
    atomic_write job_id entry.path entry.bytes
    pure (
        obj (
          field "path" (str entry.path) (
            field "sha256" (str (sha256 entry.bytes))
              (field "bytes" (int (pos (length entry.bytes))) end))))

  unfoldable pub write_outputs : String → List Output → Io Items
  unfolding write_output
  write_outputs job_id [] = pure nil
  write_outputs job_id (entry ∷ entries) = do
    meta ← write_output job_id entry
    metas ← write_outputs job_id entries
    pure (cons meta metas)

  -- The dict that becomes `status.json`.
  unfoldable pub status_dict : String → ℕ → Items → Fields → Fields
  unfolding set_field
  status_dict job_id seq metas out_status =
      set_field "outputs" (arr metas)
        (set_field "seq" (int (pos seq)) (set_field "job_id" (str job_id) out_status))

  -- `_write_done`
  unfoldable pub write_done : String → ℕ → Io (Unit {0})
  unfolding atomic_write
  write_done job_id seq = do atomic_write job_id "DONE" (dumps (done_value seq)); fsync

  -- `commit` from `os.makedirs(RESULTS_DIR)` on, for a job that is not committed.
  unfoldable pub commit_new : String → ℕ → List Output → Fields → Option Entry → Io (Unit {0})
  unfolding wipe_stale make_job_dir write_outputs status_dict write_done bump_caches
  commit_new job_id seq outputs out_status existing = do
    wipe_stale job_id existing
    step (make_job_dir job_id)
    fsync
    metas ← write_outputs job_id outputs
    atomic_write job_id "status.json" (dumps (obj (status_dict job_id seq metas out_status)))
    write_done job_id seq
    bump_caches job_id seq

  unfoldable pub commit : String → ℕ → List Output → Fields → Io (Unit {0})
  commit job_id seq outputs out_status = do
    check (is_safe_job_id job_id) unsafe_job_id
    existing ← read (λ s. lookup job_id s.results)
    check (not (is_symlink existing)) job_dir_is_symlink
    unless_done (read_done loads existing) (commit_new job_id seq outputs out_status existing)

  -- `cached_result`: the job's directory, if it may be replayed.
  unfoldable pub cached_result : String → Store → Result Fault (Option (Dict String Item))
  unfolding is_safe_job_id done_of
  cached_result job_id s =
      if is_safe_job_id job_id
      then ok (elim (lookup job_id s.results) [
        | some e ↦ elim e [
          | dir items ↦ elim (done_of loads items) [ none ↦ none | some _ ↦ some items ]
          | symlink ↦ none
          | other ↦ none
        ]
        | none ↦ none
      ])
      else err unsafe_job_id

-- The insertion step of `sorted` on names.
abbrev is_before : String → String → Bool
is_before a b = elim (compare a b) [ Ordering.lt ↦ true | _ ↦ false ]

unfoldable pub insert_name : String → List String → List String
insert_name a [] = a ∷ []
insert_name a (b ∷ bs) = if is_before b a then b ∷ insert_name a bs else a ∷ b ∷ bs

-- `sorted(os.listdir(...))`
unfoldable pub sort_names : List String → List String
unfolding insert_name
sort_names [] = []
sort_names (a ∷ as') = insert_name a (sort_names as')
