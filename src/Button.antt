-- ===== src/Button.antt =====
-- box/lib/causb/button.py: the K1 confirmation button: the device, the held test, and the detection
-- of a press and release in the bytes of `/dev/input/eventN`. The text of `/proc/bus/input/devices` is
-- parsed in `Devices`. The kernel's reads are outside of the program: a `Turn` is what one
-- turn of the waiting loop sees.
pub mod Press
pub mod Resolve
pub mod Devices
pub mod Bits
pub mod Confirm
pub mod Pieces
pub mod Wait
use nebula_ca_harness.Prelude.{
  ℕ, zero, suc, ◌+◌, ◌-◌, ◌*◌, ◌/◌, ◌%◌, ◌^◌, String, Bool, true, false, not, ◌&&◌, ◌||◌, Option,
  none, some, List, [], ◌∷◌, ◌++◌, length, take, drop, contains, ltb, ◌==◌, nat_eq, string_eq,
  if◌then◌else◌, Result, ok, err,
}

-- `ButtonError.reason`
pub data Reason : Type 0 where
  device_not_found : Reason

-- `K1_CODE`, `MASK_CODE`, `K1_NAME`, `EV_KEY` and `_EVENT_SIZE`
abbrev pub k1_code : ℕ
k1_code = 257

abbrev pub mask_code : ℕ
mask_code = 158

abbrev pub k1_name : String
k1_name = "gpio-keys"

abbrev pub ev_key : ℕ
ev_key = 1

abbrev pub event_size : ℕ
event_size = 24

-- What `_parse_block` returns.
pub record Device : Type 0 where
  pub name : Option String
  pub event_path : Option String
  pub key_bits : List ℕ

-- `_is_gpio_keys`
abbrev pub is_gpio_keys : Option String → Bool
is_gpio_keys none = false
is_gpio_keys (some name) = name == k1_name

-- The tests of `_candidates` on one device, and its path.
unfoldable pub candidate_path : Device → Option String
candidate_path d =
    if contains d.key_bits k1_code && not (contains d.key_bits mask_code) && is_gpio_keys d.name
    then d.event_path
    else none

abbrev pub onto : Option String → List String → List String
onto none paths = paths
onto (some path) paths = path ∷ paths

-- The paths of `_candidates`.
unfoldable pub candidates : List Device → List String
unfolding candidate_path
candidates [] = []
candidates (d ∷ ds) = onto (candidate_path d) (candidates ds)

abbrev pub only_path : List String → Result Reason String
only_path (path ∷ []) = ok path
only_path paths = err device_not_found

unfoldable pub resolve_k1_path : List Device → Result Reason String
unfolding candidates
resolve_k1_path devices = only_path (candidates devices)

abbrev pub byte_at : List ℕ → ℕ → Option ℕ
byte_at [] i = none
byte_at (b ∷ bs) zero = some b
byte_at (b ∷ bs) (suc i) = byte_at bs i

-- `_key_bit_set`: bit `code % 8` of byte `code // 8`.
unfoldable pub key_bit_set : List ℕ → ℕ → Bool
key_bit_set key_bitmap code = elim (byte_at key_bitmap (code / 8)) [
  | none ↦ false
  | some b ↦ b / 2 ^ (code % 8) % 2 == 1
]

-- The fields of an `input_event` that are read. The value's 32 bits are kept without a sign.
pub record Event : Type 0 where
  pub kind : ℕ
  pub code : ℕ
  pub value : ℕ

-- A little-endian number.
abbrev pub little_endian : List ℕ → ℕ
little_endian [] = 0
little_endian (b ∷ bs) = b + 256 * little_endian bs

-- `struct.unpack("llHHi", chunk)`
unfoldable pub unpack : List ℕ → Event
unpack chunk = record {
  kind = little_endian (take 2 (drop 16 chunk));
  code = little_endian (take 2 (drop 18 chunk));
  value = little_endian (take 4 (drop 20 chunk));
}

-- `_PressWaiter`
pub record PressWaiter : Type 0 where
  pub code : ℕ
  pub buf : List ℕ
  pub pressed : Bool

abbrev pub is_of : ℕ → Event → Bool
is_of code e = e.kind == ev_key && e.code == code

abbrev pub is_press : ℕ → Event → Bool
is_press code e = is_of code e && e.value == 1

abbrev pub is_release : ℕ → Event → Bool
is_release code e = is_of code e && e.value == 0

pub record Fed : Type 0 where
  pub waiter : PressWaiter
  pub clicked : Bool

-- The loop of `feed`, for at most `n` turns.
unfoldable pub feed_loop : ℕ → PressWaiter → Fed
unfolding unpack
feed_loop zero w = record { waiter = w; clicked = false }
feed_loop (suc n) w =
    let e = unpack (take event_size w.buf) in
    let w' : PressWaiter = record w {
      buf = drop event_size w.buf;
      pressed = is_press w.code e || w.pressed;
    } in
    let rest = feed_loop n w' in
    if ltb (length w.buf) event_size
    then record { waiter = w; clicked = false }
    else (if is_release w.code e && w.pressed then record { waiter = w'; clicked = true } else rest)

-- `feed`. Each turn takes 24 bytes, so that there are at most as many turns as bytes.
unfoldable pub feed : PressWaiter → List ℕ → Fed
unfolding feed_loop
feed w bytes = feed_loop (length (w.buf ++ bytes)) (record w { buf = w.buf ++ bytes })

-- One turn of the loop before the deadline: nothing to read, or the bytes that were read.
abbrev pub Turn : Type 0
Turn = Option (List ℕ)

-- The loop of `_wait_press_release_on_fd`. The turns end at the deadline.
unfoldable pub wait_loop : List Turn → PressWaiter → Bool
unfolding feed
wait_loop [] w = false
wait_loop (none ∷ turns) w = wait_loop turns w
wait_loop (some [] ∷ turns) w = wait_loop turns w
wait_loop (some (b ∷ bs) ∷ turns) w =
    let fed = feed w (b ∷ bs) in
    let rest = wait_loop turns fed.waiter in if fed.clicked then true else rest

-- `_wait_press_release_on_fd`, from `already_held` on: `bitmap` is what the `EVIOCGKEY` call returns.
unfoldable pub wait_press_release : List ℕ → List Turn → ℕ → Bool
unfolding key_bit_set wait_loop
wait_press_release bitmap turns code =
    if key_bit_set bitmap code
    then false
    else wait_loop turns (record { code = code; buf = []; pressed = false })
