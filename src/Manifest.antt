-- ===== src/Manifest.antt =====
-- box/lib/causb/manifest.py: the strict parser of manifest.json.
-- `json.loads` is the parameter `loads`: `none` stands for any of the exceptions that `parse`
-- catches around it. Nothing is assumed of it.
pub mod Uuid
pub mod Valid
use nebula_ca_harness.Prelude.{
  ℕ, suc, String, Bool, true, false, not, ◌&&◌, ◌||◌, Option, none, some, List, [], ◌∷◌, length,
  all, contains, leb, ◌==◌, nat_eq, string_eq, if◌then◌else◌, Result, ok, err, ◌>>=◌, ◌>>◌, require,
}
use nebula_ca_harness.Json.{
  pos, negsuc, Value, null, bool, int, float, str, arr, obj, Fields, get, elements,
}
use nebula_ca_harness.Names.{has_slash, is_dots, has_control}
use Uuid.{is_uuid4}

-- `ManifestError.reason`
pub data Reason : Type 0 where
  bad_manifest jobs_gt_1 oversize cap_exceeded path_traversal : Reason

-- `config.CAPS`
abbrev pub manifest_bytes_cap : ℕ
manifest_bytes_cap = 65536

abbrev pub payload_files_cap : ℕ
payload_files_cap = 16

-- The dict that `parse` returns, with the fields that its callers read from it.
pub record Manifest : Type 0 where
  pub top : Fields
  pub box : String
  pub seq : ℕ
  pub job : Fields
  pub job_id : String
  pub operation : String
  pub payload : List String

abbrev decoded : Option Value → Result Reason Value
decoded none = err bad_manifest
decoded (some v) = ok v

-- `isinstance(value, dict)`, and so on for the other types of a field.
unfoldable pub as_dict : Value → Result Reason Fields
as_dict (obj d) = ok d
as_dict _ = err bad_manifest

unfoldable pub as_str : Value → Result Reason String
as_str (str s) = ok s
as_str _ = err bad_manifest

unfoldable pub as_list : Value → Result Reason (List Value)
as_list (arr vs) = ok (elements vs)
as_list _ = err bad_manifest

-- `_is_strict_int(schema_version)` and `schema_version == 1`
unfoldable pub is_version_1 : Value → Bool
is_version_1 (int (pos n)) = n == 1
is_version_1 _ = false

-- `_is_strict_int(seq)` and `seq >= 0`
unfoldable pub as_seq : Value → Result Reason ℕ
as_seq (int (pos n)) = ok n
as_seq _ = err bad_manifest

-- `len(jobs) == CAPS["jobs"]` and `jobs[0]`
unfoldable pub only_job : List Value → Result Reason Value
only_job (v ∷ []) = ok v
only_job _ = err jobs_gt_1

-- The name tests of the payload loop.
unfoldable pub is_safe_name : String → Bool
unfolding has_slash is_dots has_control
is_safe_name name = not (has_slash name || is_dots name || has_control name)

-- `for name in payload: ...`, which gives back the names.
unfoldable pub check_names : List String → List Value → Result Reason (List String)
unfolding as_str is_safe_name
check_names payload_names [] = ok []
check_names payload_names (v ∷ vs) = do
  name ← as_str v
  require (is_safe_name name) path_traversal
  require (contains payload_names name) bad_manifest
  names ← check_names payload_names vs
  ok (name ∷ names)

-- `isinstance(entrypoint, str) and entrypoint in payload`
unfoldable pub has_entrypoint : Value → List String → Bool
has_entrypoint (str e) payload = contains payload e
has_entrypoint _ payload = false

-- The checks on the single job, from `job = jobs[0]` on.
unfoldable pub parse_job : List String → Fields → String → ℕ → Value → Result Reason Manifest
unfolding as_dict as_str as_list is_uuid4 check_names has_entrypoint
parse_job payload_names top box seq v = do
  job ← as_dict v
  job_id ← as_str (get job "job_id")
  require (is_uuid4 job_id) bad_manifest
  operation ← as_str (get job "operation")
  listed ← as_list (get job "payload")
  require (leb (length listed) payload_files_cap) cap_exceeded
  payload ← check_names payload_names listed
  require (all (contains payload) payload_names) bad_manifest
  require (not (operation == "run-script") || has_entrypoint (get job "entrypoint") payload)
      bad_manifest
  ok (record {
    top = top;
    box = box;
    seq = seq;
    job = job;
    job_id = job_id;
    operation = operation;
    payload = payload;
  })

module _ (loads : List ℕ → Option Value) where
  unfoldable pub parse : List ℕ → List String → Result Reason Manifest
  unfolding as_dict as_str as_list is_version_1 as_seq only_job parse_job get
  parse raw payload_names = do
    require (leb (length raw) manifest_bytes_cap) oversize
    manifest ← decoded (loads raw)
    top ← as_dict manifest
    require (is_version_1 (get top "schema_version")) bad_manifest
    box ← as_str (get top "box")
    seq ← as_seq (get top "seq")
    jobs ← as_list (get top "jobs")
    v ← only_job jobs
    parse_job payload_names top box seq v
