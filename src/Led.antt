-- ===== src/Led.antt =====
-- box/lib/causb/led.py: the blink plans of `user_led`. `OSError`s of the attribute files are outside of
-- the program: `fails` says whether the next write fails, after the writes so far.
pub mod Writes
use Prim.Native.String.{◌++◌ as ◌<>◌}
use nebula_ca_harness.Prelude.{
  String, Bool, Option, none, some, List, [], ◌∷◌, ◌++◌, Result, ok, err, string_eq, if◌then◌else◌,
}
use nebula_ca_harness.Prelude.Dict.{Dict, lookup}

-- `LedError("led_write_failed")`, and the `ValueError` of an unknown state.
pub data Fault : Type 0 where
  led_write_failed unknown_state : Fault

-- An attribute with its value.
abbrev pub Setting : Type 0
Setting = String × String

abbrev blink : String → List Setting
blink delay = ("trigger", "timer") ∷ ("delay_on", delay) ∷ ("delay_off", delay) ∷ []

-- `_PLANS`
abbrev pub plans : Dict String (List Setting)
plans =
    ("IDLE", ("trigger", "none") ∷ ("brightness", "0") ∷ [])
    ∷ ("VERIFYING", blink "330")
    ∷ ("READY", blink "125")
    ∷ ("RUNNING", ("trigger", "none") ∷ ("brightness", "1") ∷ [])
    ∷ ("ERROR", blink "50")
    ∷ ("SAFE_REMOVE", blink "1000")
    ∷ ("BUSY", blink "250")
    ∷ ("RECOVERY_OFFER", blink "750")
    ∷ ("RECOVERY_CONFIRM2", blink "150")
    ∷ ("RECOVERY_WRITE", blink "350")
    ∷ []

unfoldable pub plan : String → Option (List Setting)
plan state = lookup state plans

-- What the writes did: a path with its value, the first write first.
pub record Driven : Type 0 where
  pub writes : List Setting
  pub result : Result Fault (Unit {0})

-- `os.path.join(led_dir, name)`, where `led_dir` does not end in a slash.
abbrev pub in_dir : String → Setting → Setting
in_dir led_dir (name, value) = (led_dir <> "/" <> name, value)

module _ (fails : List Setting → Bool) where
  unfoldable pub write_all : String → List Setting → List Setting → Driven
  write_all led_dir [] before = record { writes = before; result = ok tt }
  write_all led_dir (s ∷ ss) before =
      let rest = write_all led_dir ss (before ++ (in_dir led_dir s ∷ [])) in
      if fails before then record { writes = before; result = err led_write_failed } else rest

  -- `set`
  unfoldable pub set_state : String → String → List Setting → Driven
  unfolding write_all plan
  set_state state led_dir before = elim (plan state) [
    | none ↦ record { writes = before; result = err unknown_state }
    | some settings ↦ write_all led_dir settings before
  ]
