-- ===== src/Dispatch.antt =====
-- box/lib/causb/dispatch.py: which child runs for a job, as whom and in which environment.
-- `run` lists the effects that it makes before, during and after the child, in order. The world
-- outside (the handlers on disk, the account database, the audit log, `chown`, the child itself)
-- is the parameter `World`; nothing is assumed of it. A `can_` field that is false stands for an
-- `OSError` of that step. Captured output is discarded by the code. The directories that paths are
-- joined to do not end in a slash.
pub mod Privilege
pub mod Handlers
use Prim.Native.String.{◌++◌ as ◌<>◌}
use nebula_ca_harness.Prelude.{
  ℕ, String, Bool, true, false, not, ◌&&◌, ◌||◌, any, Option, none, some, List, [], ◌∷◌, ◌++◌,
  Result, ok, err, ◌>>=◌, ◌>>◌, require, ◌==◌, string_eq, if◌then◌else◌,
}
use nebula_ca_harness.Json.{
  ℤ, pos, Value, null, bool, int, float, str, arr, obj, Items, Fields, get, elements,
}
use nebula_ca_harness.Names.{has_slash, is_dots, has_control}

-- `DispatchError.reason`, and the exceptions that `run` lets through.
pub data Fault : Type 0 where
  cosign_failed bad_manifest handler_failed os_error key_error : Fault

-- `_safe_component`
unfoldable pub is_safe_component : String → Bool
unfolding has_slash is_dots has_control
is_safe_component value = not (value == "" || has_slash value || is_dots value || has_control value)

-- `entrypoint in payload`, where the list may hold any JSON values.
abbrev pub is_text : String → Value → Bool
is_text s (str t) = t == s
is_text s v = false

unfoldable pub entry_of : Value → Value → Result Fault String
unfolding is_safe_component
entry_of (arr payload) (str e) =
    if is_safe_component e && any (is_text e) (elements payload) then ok e else err bad_manifest
entry_of payload e = err bad_manifest

-- `_validate_entrypoint`
unfoldable pub validate_entrypoint : Fields → Result Fault String
unfolding entry_of get
validate_entrypoint job = entry_of (get job "payload") (get job "entrypoint")

-- `value is True`
unfoldable pub is_true : Value → Bool
is_true (bool b) = b
is_true v = false

abbrev privileged_of : Value → Bool
privileged_of (obj args) = is_true (get args "privileged")
privileged_of args = false

-- `_is_privileged`
unfoldable pub is_privileged : Fields → Bool
unfolding is_true get
is_privileged job = privileged_of (get job "args")

abbrev pub Env : Type 0
Env = List (String × String)

-- A child process, in the arguments of `Popen`.
pub record Launch : Type 0 where
  pub argv : List String
  pub cwd : String
  pub env : Env
  pub timeout_s : ℕ

-- What became of the child.
pub data Child : Type 0 where
  exited : ℤ → Child
  timed_out : Child
  not_spawned : Child

pub data Act : Type 0 where
  audit_privileged : Value → String → Act
  own_out_dir : String → String → String → Act
  grant_group_read : String → String → Act
  write_job_json : Fields → Act
  spawn : Launch → Act
  kill_group : Act
  unlink_job_json : Act

pub record World : Type 0 where
  pub child : Launch → Child
  pub is_executable : String → Bool
  pub environ : Env
  pub job_user : Option (String × String)
  pub can_audit : Bool
  pub can_grant : Bool
  pub can_write_job : Bool
  pub job_json_path : String

pub record Run : Type 0 where
  pub acts : List Act
  pub result : Result Fault ℤ

-- `_scrubbed_env`
unfoldable pub scrubbed_env : String → Env
scrubbed_env out_dir = ("PATH", "/usr/bin:/bin") ∷ ("HOME", out_dir) ∷ []

abbrev pub flag : Bool → String
flag true = "1"
flag false = "0"

-- `env[name] = value` on the copy of the environment.
abbrev pub set_env : String → String → Env → Env
set_env name value [] = (name, value) ∷ []
set_env name value ((n, v) ∷ env) =
    if n == name then (name, value) ∷ env else (n, v) ∷ set_env name value env

-- `_vetted_handler_env`
unfoldable pub vetted_handler_env : Env → Value → Value → Env
unfolding is_true
vetted_handler_env environ cosigned bg_authorized =
    set_env "CA_USB_BG_AUTHORIZED" (flag (is_true bg_authorized))
      (set_env "CA_USB_COSIGNED" (flag (is_true cosigned)) environ)

-- `_UNSHARE_PIDNS`
abbrev pub unshare_pidns : List String
unshare_pidns = "unshare" ∷ "--pid" ∷ "--fork" ∷ "--kill-child" ∷ []

-- `_exec`: the exit status, or 124 after the group was killed on a timeout. `none` is the `OSError` of
-- `Popen`.
unfoldable pub exec : World → Launch → List Act × Option ℤ
exec w launch = elim (w.child launch) [
  | exited code ↦ (spawn launch ∷ [], some code)
  | timed_out ↦ (spawn launch ∷ kill_group ∷ [], some (pos 124))
  | not_spawned ↦ ([], none)
]

abbrev raw_result : Option ℤ → Result Fault ℤ
raw_result none = err os_error
raw_result (some code) = ok code

abbrev vetted_result : Option ℤ → Result Fault ℤ
vetted_result none = err handler_failed
vetted_result (some code) = ok code

abbrev pub refuse : Fault → Run
refuse e = record { acts = []; result = err e }

-- The privileged branch of `_run_script`: audit, then root, in a PID namespace.
unfoldable pub run_as_root : World → Fields → String → String → ℕ → Run
run_as_root w job script_path out_dir timeout_s =
    let launch : Launch = record {
      argv = unshare_pidns ++ ("/bin/sh" ∷ script_path ∷ []);
      cwd = out_dir;
      env = scrubbed_env out_dir;
      timeout_s = timeout_s;
    } in
    let (acts, code) = exec w launch in
    if w.can_audit
    then record {
      acts = audit_privileged (get job "job_id") script_path ∷ acts;
      result = raw_result code;
    }
    else record { acts = []; result = err os_error }

-- The other branch: the directories are handed over, and `setpriv` drops to the job's account.
unfoldable pub run_as_job_user :
    World → String → String → String → ℕ → Option (String × String) → Run
run_as_job_user w script_path payload_dir out_dir timeout_s none = refuse key_error
run_as_job_user w script_path payload_dir out_dir timeout_s (some (uid, gid)) =
    let launch : Launch = record {
      argv =
          unshare_pidns
          ++ ("setpriv"
              ∷ ("--reuid=" <> uid)
              ∷ ("--regid=" <> gid)
              ∷ "--clear-groups"
              ∷ "/bin/sh"
              ∷ script_path
              ∷ []);
      cwd = out_dir;
      env = scrubbed_env out_dir;
      timeout_s = timeout_s;
    } in
    let (acts, code) = exec w launch in
    if w.can_grant
    then record {
      acts = own_out_dir out_dir uid gid ∷ grant_group_read payload_dir gid ∷ acts;
      result = raw_result code;
    }
    else record { acts = []; result = err os_error }

unfoldable pub run_entry : World → Fields → String → String → Value → ℕ → String → Run
run_entry w job payload_dir out_dir cosigned timeout_s entrypoint =
    let script_path = payload_dir <> "/" <> entrypoint in
    if is_privileged job && not (is_true cosigned)
    then refuse cosign_failed
    else if is_privileged job
    then run_as_root w job script_path out_dir timeout_s
    else run_as_job_user w script_path payload_dir out_dir timeout_s w.job_user

-- `_run_script`
unfoldable pub run_script : World → Fields → String → String → Value → ℕ → Run
run_script w job payload_dir out_dir cosigned timeout_s = elim (validate_entrypoint job) [
  | err e ↦ refuse e
  | ok entrypoint ↦ run_entry w job payload_dir out_dir cosigned timeout_s entrypoint
]

-- `_find_handler`
unfoldable pub find_handler : World → String → List String → Option String
find_handler w operation [] = none
find_handler w operation (d ∷ ds) =
    if is_safe_component operation
    then (if w.is_executable (d <> "/" <> operation)
        then some (d <> "/" <> operation)
        else find_handler w operation ds)
    else none

unfoldable pub run_handler : World → Fields → String → String → Value → Value → ℕ → String → Run
run_handler w job payload_dir out_dir cosigned bg_authorized timeout_s handler =
    let launch : Launch = record {
      argv = handler ∷ w.job_json_path ∷ payload_dir ∷ out_dir ∷ [];
      cwd = out_dir;
      env = vetted_handler_env w.environ cosigned bg_authorized;
      timeout_s = timeout_s;
    } in
    let (acts, code) = exec w launch in
    if w.can_write_job
    then record {
      acts = write_job_json job ∷ (acts ++ (unlink_job_json ∷ []));
      result = vetted_result code;
    }
    else record { acts = []; result = err os_error }

-- `_run_vetted_handler`
unfoldable pub run_vetted_handler :
    World → String → Fields → String → String → Value → Value → ℕ → List String → Run
run_vetted_handler w operation job payload_dir out_dir cosigned bg_authorized timeout_s dirs =
    if is_safe_component operation
    then elim (find_handler w operation dirs) [
      | none ↦ refuse handler_failed
      | some handler ↦
          run_handler w job payload_dir out_dir cosigned bg_authorized timeout_s handler
    ]
    else refuse bad_manifest

unfoldable pub run :
    World → String → Fields → String → String → Value → Value → ℕ → List String → Run
run w operation job payload_dir out_dir cosigned bg_authorized timeout_s dirs =
    if operation == "run-script"
    then run_script w job payload_dir out_dir cosigned timeout_s
    else run_vetted_handler w operation job payload_dir out_dir cosigned bg_authorized timeout_s
        dirs
