-- ===== src/Mountctl.antt =====
-- box/lib/causb/mountctl.py: the pinned mount of the stick, its remount and its unmount.
-- The commands `mount` and `umount` and the clock are outside of the program. `Machine` says what they
-- answer, which may depend on all the commands and pauses so far (`Event`s, the first one first).
pub mod Outcome
pub mod Pinned
use nebula_ca_harness.Prelude.{
  ℕ, zero, suc, ◌*◌, String, Bool, true, false, not, ◌&&◌, Option, none, some, List, [], ◌∷◌, ◌++◌,
  ltb, ◌==◌, string_eq, nat_eq, if◌then◌else◌, Result, ok, err,
}
use nebula_ca_harness.Json.{ℤ, pos, negsuc}
use nebula_ca_harness.Names.{codes}
use nebula_ca_harness.Text.{is_newline, lines_by, words, lowered, has_infix}

-- `MountError.reason`
pub data Reason : Type 0 where
  mount_failed deliver_failed : Reason

-- `CompletedProcess`, with `_decode(result.stderr)`.
pub record Completed : Type 0 where
  pub returncode : ℤ
  pub stderr : String

-- A command with its arguments, or a pause in milliseconds.
pub data Event : Type 0 where
  ran : List String → Event
  slept : ℕ → Event

-- What a command answers and what `/proc/mounts` reads, after the events so far.
pub record Machine : Type 0 where
  pub runner : List Event → List String → Completed
  pub mounts : List Event → String

pub record Attempt : Type 0 where
  pub result : Result Reason (Unit {0})
  pub events : List Event

-- `result.returncode == 0`
abbrev pub is_zero : ℤ → Bool
is_zero (pos n) = n == 0
is_zero (negsuc n) = false

-- `"busy" in _decode(result.stderr).lower()`
unfoldable pub is_busy : Completed → Bool
is_busy c = has_infix (codes "busy") (lowered (codes c.stderr))

-- The type in the line of `_mounted_fstype`, if the line is the one of `mp`.
abbrev pub fstype_of : String → List String → Option String
fstype_of mp (device ∷ mountpoint ∷ fstype ∷ rest) = if mountpoint == mp then some fstype else none
fstype_of mp fields = none

abbrev pub first_of : Option String → Option String → Option String
first_of (some t) o = some t
first_of none o = o

-- `_mounted_fstype`, over the lines of the file.
unfoldable pub mounted_fstype : String → List String → Option String
mounted_fstype mp [] = none
mounted_fstype mp (line ∷ lines) =
    let rest = mounted_fstype mp lines in first_of (fstype_of mp (words line)) rest

abbrev pub is_vfat : Option String → Bool
is_vfat none = false
is_vfat (some t) = t == "vfat"

abbrev pub mount_argv : String → String → List String
mount_argv dev mp =
    "mount" ∷ "-t" ∷ "vfat" ∷ "-o" ∷ "ro,noexec,nosuid,nodev,iocharset=ascii,utf8=0" ∷ dev ∷ mp ∷ []

abbrev pub remount_argv : String → List String
remount_argv mp = "mount" ∷ "-o" ∷ "remount,rw,noexec,nosuid,nodev" ∷ mp ∷ []

abbrev pub umount_argv : String → List String
umount_argv mp = "umount" ∷ mp ∷ []

-- `if attempt < max_attempts - 1: time.sleep(backoff)`, with `n` attempts left after this one.
abbrev pub pause : ℕ → ℕ → List Event → List Event
pause zero backoff after = after
pause (suc n) backoff after = after ++ (slept backoff ∷ [])

module _ (m : Machine) where
  unfoldable pub mount_ro : String → String → List Event → Attempt
  unfolding mounted_fstype
  mount_ro dev mp before =
      let after = before ++ (ran (mount_argv dev mp) ∷ []) in
      if is_zero (m.runner before (mount_argv dev mp)).returncode
        && is_vfat (mounted_fstype mp (lines_by is_newline (m.mounts after)))
      then record { result = ok tt; events = after }
      else record { result = err mount_failed; events = after }

  unfoldable pub mount_rw : String → List Event → Attempt
  mount_rw mp before =
      let after = before ++ (ran (remount_argv mp) ∷ []) in
      if is_zero (m.runner before (remount_argv mp)).returncode
      then record { result = ok tt; events = after }
      else record { result = err mount_failed; events = after }

  -- The loop of `umount`, with `n` attempts left. It pauses after a busy one that is not the last.
  unfoldable pub umount_loop : ℕ → String → ℕ → List Event → Attempt
  unfolding is_busy
  umount_loop zero mp backoff before = record { result = err deliver_failed; events = before }
  umount_loop (suc n) mp backoff before =
      let after = before ++ (ran (umount_argv mp) ∷ []) in
      let answer = m.runner before (umount_argv mp) in
      let rest = umount_loop n mp (backoff * 2) (pause n backoff after) in
      if is_zero answer.returncode
      then record { result = ok tt; events = after }
      else (if not (is_busy answer)
          then record { result = err deliver_failed; events = after }
          else rest)

  -- `umount`, where `initial_backoff_s` is in milliseconds.
  unfoldable pub umount : String → ℕ → ℕ → List Event → Attempt
  unfolding umount_loop
  umount mp max_attempts initial_backoff before = umount_loop max_attempts mp initial_backoff before
