-- ===== src/Tests/Devices.antt =====
-- The mount, the LED and the button: box/lib/causb/mountctl.py, led.py and button.py.
use nebula_ca_harness.Prelude.{
  ℕ, ◌≡◌, refl, ◌↔◌, nat_eq, Bool, true, false, some, none, Option, List, [], ◌∷◌, ◌++◌, length,
  string_eq, ltb, leb, ok, contains, arith, String, ◌+◌, ◌*◌,
}
use nebula_ca_harness.Prelude.Dict.{lookup}
use nebula_ca_harness.Json.{pos}
use nebula_ca_harness.Text.{lowered, has_infix, lines_by, words, lstrip, rstrip, starts_with}
use nebula_ca_harness.Mountctl.{
  Machine, ran, mount_argv, mount_ro, mounted_fstype, is_busy, umount, umount_loop,
}
use nebula_ca_harness.Mountctl.Outcome.{IsOutcome, umount-IsOutcome}
use nebula_ca_harness.Mountctl.Pinned.{IsMounted, mount_ro_iff}
use nebula_ca_harness.Button.Devices.{
  hex_value, word_bits, token_bits, tokens_bits, Opened, await_press, resolve_text, device_blocks,
  blocks_of, parse_blocks, parse_block, parse_lines, parse_line, rstrip_quotes, lstrip_quotes,
  event_number, digits, parse_key_bits,
}
use nebula_ca_harness.Button.Bits.{bit_of, tokens_bits-contains}
use nebula_ca_harness.Button.Wait.{wait_press_release_iff}
use nebula_ca_harness.Button.Confirm.{IsConfirmed, await_press-IsConfirmed}
use nebula_ca_harness.Led.{Setting, plan, set_state}
use nebula_ca_harness.Led.Writes.{IsTriggerFirst, IsPart, set_state-IsPart}
use nebula_ca_harness.Button.{
  Turn, Device, resolve_k1_path, candidates, candidate_path, PressWaiter, unpack, feed_loop, feed,
  wait_press_release, key_bit_set, wait_loop,
}
use nebula_ca_harness.Button.Press.{HasEnd, events, HasClick, feed_iff}
use nebula_ca_harness.Prelude.{if◌then◌else◌}

-- A target that is busy for one attempt.
abbrev machine : Machine
machine = record {
  runner = λ before argv.
      if leb (length before) 1
      then record { returncode = pos 32; stderr = "target is Busy" }
      else record { returncode = pos 0; stderr = "" };
  mounts = λ before. "";
}

umount_run : (umount machine "/mnt" 6 250 []).result ≡ ok tt
unfolding umount umount_loop is_busy lowered has_infix
umount_run = refl

umount-IsOutcome_example :
    IsOutcome machine 6 "/mnt" 250 []
      (umount machine "/mnt" 6 250 []).result
      (umount machine "/mnt" 6 250 []).events
umount-IsOutcome_example = umount-IsOutcome machine "/mnt" 6 250 []

abbrev running : List Setting
running = ("trigger", "none") ∷ ("brightness", "1") ∷ []

running-plan : plan "RUNNING" ≡ some running
unfolding plan lookup
running-plan = refl

-- The second write fails.
abbrev fails : List Setting → Bool
fails writes = ltb 0 (length writes)

set_state-IsPart_example :
    IsTriggerFirst running
    × IsPart "/sys/class/leds/user_led" running []
        (set_state fails "RUNNING" "/sys/class/leds/user_led" [])
set_state-IsPart_example =
    set_state-IsPart fails "RUNNING" "/sys/class/leds/user_led" [] running running-plan

abbrev zeros16 : List ℕ
zeros16 = 0 ∷ 0 ∷ 0 ∷ 0 ∷ 0 ∷ 0 ∷ 0 ∷ 0 ∷ 0 ∷ 0 ∷ 0 ∷ 0 ∷ 0 ∷ 0 ∷ 0 ∷ 0 ∷ []

-- The bytes of an event of K1.
abbrev key_bytes : ℕ → List ℕ
key_bytes value = zeros16 ++ (1 ∷ 0 ∷ 1 ∷ 1 ∷ value ∷ 0 ∷ 0 ∷ 0 ∷ [])

abbrev waiter : PressWaiter
waiter = record { code = 257; buf = 0 ∷ []; pressed = false }

-- One byte of the first event is left over from before.
abbrev click_bytes : List ℕ
click_bytes =
    0
    ∷ 0
    ∷ 0
    ∷ 0
    ∷ 0
    ∷ 0
    ∷ 0
    ∷ 0
    ∷ 0
    ∷ 0
    ∷ 0
    ∷ 0
    ∷ 0
    ∷ 0
    ∷ 0
    ∷ (1 ∷ 0 ∷ 1 ∷ 1 ∷ 1 ∷ 0 ∷ 0 ∷ 0 ∷ key_bytes 0)

click_run : (feed waiter click_bytes).clicked ≡ true
unfolding feed feed_loop unpack
click_run = refl

feed_iff_example :
    ((feed waiter click_bytes).clicked ≡ true) ↔ HasEnd 257 false (events (0 ∷ click_bytes))
feed_iff_example = feed_iff waiter click_bytes

-- The two events in three pieces.
abbrev pieces : List Turn
pieces = some (0 ∷ []) ∷ none ∷ some click_bytes ∷ some [] ∷ []

wait_press_release_iff_example :
    (wait_press_release [] pieces 257 ≡ true)
    ↔ ((key_bit_set [] 257 ≡ false) × HasClick 257 (events (0 ∷ click_bytes)))
wait_press_release_iff_example = wait_press_release_iff [] pieces 257

abbrev keyboard : Device
keyboard = record {
  name = some "adc-keys";
  event_path = some "/dev/input/event0";
  key_bits = 158 ∷ [];
}

abbrev k1 : Device
k1 = record { name = some "gpio-keys"; event_path = some "/dev/input/event1"; key_bits = 257 ∷ [] }

resolve_run : resolve_k1_path (keyboard ∷ k1 ∷ []) ≡ ok "/dev/input/event1"
unfolding resolve_k1_path candidates candidate_path
resolve_run = refl

-- The block of K1, as the kernel prints it.
abbrev listing : String
listing = "N: Name=\"gpio-keys\"\nH: Handlers=kbd event2 \nB: KEY=2 0 0 0 0\n"

-- K1 is free, and is pressed and released.
abbrev open_device : String → Option Opened
open_device path =
    some (record { bitmap = []; turns = none ∷ some (key_bytes 1 ++ key_bytes 0) ∷ [] })

await_press_run : await_press open_device listing ≡ some (ok true)
unfolding await_press resolve_text device_blocks blocks_of lines_by parse_blocks parse_block
    parse_lines parse_line rstrip_quotes lstrip_quotes event_number digits parse_key_bits
    tokens_bits token_bits hex_value word_bits words lstrip rstrip starts_with resolve_k1_path
    candidates candidate_path wait_press_release key_bit_set wait_loop feed feed_loop unpack
await_press_run = refl

await_press-IsConfirmed_example : IsConfirmed open_device listing
await_press-IsConfirmed_example = await_press-IsConfirmed open_device listing await_press_run

-- A stick that mounts.
abbrev stick : Machine
stick = record {
  runner = λ before argv. record { returncode = pos 0; stderr = "" };
  mounts = λ before. "/dev/sda1 /mnt vfat ro 0 0";
}

mount_run : (mount_ro stick "/dev/sda1" "/mnt" []).result ≡ ok tt
unfolding mount_ro mounted_fstype lines_by words
mount_run = refl

mount_ro_iff_example :
    ((mount_ro stick "/dev/sda1" "/mnt" []).events ≡ ran (mount_argv "/dev/sda1" "/mnt") ∷ [])
    × (((mount_ro stick "/dev/sda1" "/mnt" []).result ≡ ok tt)
        ↔ IsMounted stick "/dev/sda1" "/mnt" [])
mount_ro_iff_example = mount_ro_iff stick "/dev/sda1" "/mnt" []

-- The `B: KEY=` line of K1: bit 1 of the word 4 is the code 257.
abbrev key_tokens : List String
key_tokens = "2" ∷ "0" ∷ "0" ∷ "0" ∷ "0" ∷ []

key_tokens_read : tokens_bits key_tokens ≡ some (257 ∷ [])
unfolding tokens_bits token_bits hex_value word_bits
key_tokens_read = refl

tokens_bits-contains_example : contains (257 ∷ []) (4 * 64 + 1) ≡ bit_of key_tokens 4 1
tokens_bits-contains_example =
    tokens_bits-contains key_tokens (257 ∷ []) 4 1 key_tokens_read
      (omega arith, (omega arith, (omega arith, (omega arith, (omega arith, tt))))) (omega arith)
