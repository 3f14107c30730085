-- ===== src/Orchestrator.antt =====
-- box/bin/ca-usb-run: what a run of the harness does with a stick, from its mount to its end.
-- A run is the list of what it does to the LED, the stick, the audit log and the children, in order,
-- with the store of `commitlog` after it. The world outside is the parameter `World`. The lock, the
-- copies in the tmpfs, faults of the LED and the button, and the durability faults of `commit` are
-- left out. Every run that is modelled ends with `EXIT_OK`.
pub mod Deliver
pub mod Replay
pub mod Admit
pub mod Process
pub mod Events
pub mod Authority
pub mod Stops
pub mod Deliveries
pub mod Stages
pub mod Runs
pub mod Results
pub mod Commits
use nebula_ca_harness.Prelude.{
  ℕ, ◌+◌, ◌*◌, String, Bool, true, false, not, ◌&&◌, ◌||◌, Option, none, some, List, [], ◌∷◌, ◌++◌,
  length, ltb, contains, ◌==◌, string_eq, if◌then◌else◌,
}
use nebula_ca_harness.Json.{Value, null, str, Fields}
use nebula_ca_harness.Commitlog.{Bytes, Store, Codec}
use nebula_ca_harness.Verify.{Tools}
use nebula_ca_harness.Extract.{Stream}
use nebula_ca_harness.Collect.{Listing}
use nebula_ca_harness.Recovery
use nebula_ca_harness.Dispatch.{World as Host, Act}

-- The fields of a line of the audit log, without its time.
pub record Line : Type 0 where
  pub job_id : Value
  pub operation : Value
  pub principal : Value
  pub status : Value
  pub seq : Value
  pub replayed : Bool
  pub exit_code : Value
  pub cosigned : Value

-- What dispatch got to run.
pub record Order : Type 0 where
  pub operation : String
  pub job : Fields
  pub cosigned : Bool
  pub bg_authorized : Bool
  pub acts : List Act

-- An audit line may be lost, and `ERROR.json` may be absent when it is unlinked.
-- A kit is what stands at CA-RECOVERY after `recovery.write`, which may have raised.
pub data Event : Type 0 where
  lit : String → Event
  audited : Line → Event
  remounted : Event
  breadcrumb : String → String → Event
  unlinked_breadcrumb : Event
  dispatched : Order → Event
  commit_called : String → Event
  delivered : String → String → Bytes → Event
  latest : Value → Value → String → Value → Bool → Event
  wrote_kit : Bool → Recovery.Place → Event
  unmounted : Bool → Event

pub record Outcome : Type 0 where
  pub events : List Event
  pub store : Store

-- The world that one run meets. In the optional fields `none` is a file that is absent, then one that
-- cannot be read.
pub record World : Type 0 where
  pub can_mount : Bool
  pub job_tar : Option (Option Bytes)
  pub job_sig : Option Bytes
  pub bg_sig : Option (Option Bytes)
  pub tools : Tools
  pub open_tar : Bytes → Option Stream
  pub accepts : String → Bool
  pub codec : Codec
  pub year : ℕ
  pub presses : Bool
  pub presses_again : Bool
  pub host : Host
  pub handlers_dirs : List String
  -- What the children leave in `out_dir`, and the room on the tmpfs.
  pub out_dir : Listing
  pub room : ℕ
  pub can_remount : Bool
  -- The files of the outbox that can be written, by name.
  pub can_write : String → Bool
  -- What `recovery.write` meets: the box, its directories, and what stands at CA-RECOVERY.
  pub box : Recovery.World
  pub box_dirs : Recovery.Dirs
  pub kit_place : Recovery.Place
  pub can_umount : Bool
  -- `float(text) == 0`
  pub is_zero_float : String → Bool
  pub started_at : String
  pub finished_at : String

abbrev pub tmp_tar : String
tmp_tar = "/run/ca-usb-tmp/job.tar"

abbrev pub tmp_sig : String
tmp_sig = "/run/ca-usb-tmp/job.tar.sig"

abbrev pub tmp_bg : String
tmp_bg = "/run/ca-usb-tmp/job.tar.bg.sig"

abbrev pub allowed : String
allowed = "/etc/nebula-ca/allowed_signers"

abbrev pub breakglass : String
breakglass = "/etc/nebula-ca/breakglass_signers"

abbrev pub tar_cap : ℕ
tar_cap = 8 * 1024 * 1024

abbrev pub sig_cap : ℕ
sig_cap = 65536

abbrev pub error_enum : List String
error_enum =
    "verify_failed" ∷ "cosign_failed" ∷ "stale_seq" ∷ "dup_job_id_replayed" ∷ "wrong_box"
    ∷ "bad_manifest" ∷ "jobs_gt_1" ∷ "path_traversal" ∷ "oversize" ∷ "cap_exceeded" ∷ "clock_insane"
    ∷ "no_confirmation" ∷ "handler_failed" ∷ "mount_failed" ∷ "deliver_failed" ∷ []

-- `_status_error`
unfoldable pub status_error : String → String
status_error reason = if contains error_enum reason then reason else "handler_failed"

-- What becomes of `_copy_capped`.
pub data Copy : Type 0 where
  copied : Bytes → Copy
  too_large : Copy
  unreadable : Copy

unfoldable pub copy_capped : Option Bytes → ℕ → Copy
copy_capped none cap = unreadable
copy_capped (some data') cap = if ltb cap (length data') then too_large else copied data'

-- What happens before the rest.
abbrev pub after : List Event → Outcome → Outcome
after es o = record { events = es ++ o.events; store = o.store }

-- What is known of the job when a run ends.
pub record Context : Type 0 where
  pub job_id : Value
  pub operation : Value
  pub principal : Value
  pub seq : Value
  pub cosigned : Value

abbrev pub unknown : Context
unknown = record { job_id = null; operation = null; principal = null; seq = null; cosigned = null }

-- The audit line of a run that is no replay, with its status and exit code.
abbrev pub line : Context → String → Value → Line
line c status exit_code = record {
  job_id = c.job_id;
  operation = c.operation;
  principal = c.principal;
  status = str status;
  seq = c.seq;
  replayed = false;
  exit_code = exit_code;
  cosigned = c.cosigned;
}

module _ (w : World) where
  -- `_finish`
  unfoldable pub finish : Bool → Store → Outcome
  finish success store = record {
    events =
        unmounted w.can_umount
        ∷ lit (if success && w.can_umount then "SAFE_REMOVE" else "ERROR")
        ∷ [];
    store = store;
  }

  -- `_write_error_breadcrumb`
  unfoldable pub write_breadcrumb : String → String → List Event
  write_breadcrumb reason phase =
      if w.can_remount
      then remounted
        ∷ (if w.can_write "ERROR.json" then breadcrumb (status_error reason) phase ∷ [] else [])
      else []

  -- `_fail_pre_freshness`, without a phase and with one.
  unfoldable pub fail_unverified : String → Store → Outcome
  unfolding finish status_error
  fail_unverified reason store =
      after (audited (line unknown (status_error reason) null) ∷ []) (finish false store)

  unfoldable pub fail_verified : String → String → Context → Store → Outcome
  unfolding finish status_error write_breadcrumb
  fail_verified reason phase c store =
      after (audited (line c (status_error reason) null) ∷ write_breadcrumb reason phase)
        (finish false store)

  -- `_fail_pre_freshness` of a replay that has no cached result.
  unfoldable pub fail_replay : Context → Store → Outcome
  unfolding finish
  fail_replay c store =
      after (audited (line c "dup_job_id_replayed" null) ∷ []) (finish false store)
