-- ===== src/Button/Confirm.antt =====
-- What a confirmation by `await_press` (box/lib/causb/button.py) has seen.
use nebula_ca_harness.Prelude.{
  String, ◌≡◌, refl, inl, inr, true, false, Option, none, some, Option-cases, some_inj, List,
  Result, ok, err, ok-injective,
}
use nebula_ca_harness.Button.{
  Reason, Device, k1_code, key_bit_set, wait_press_release, resolve_k1_path,
}
use nebula_ca_harness.Button.Devices.{
  device_blocks, parse_blocks, resolve_text, Opened, press_on, press_at, await_press,
}
use nebula_ca_harness.Button.Press.{HasClick, events}
use nebula_ca_harness.Button.Wait.{received, wait_press_release_iff}
use nebula_ca_harness.Button.Resolve.{IsOnly, resolve_k1_path-IsOnly}

-- The device was K1's, was not held, and a press with a release came before the deadline.
abbrev pub IsConfirmed : (String → Option Opened) → String → Type 0
IsConfirmed open_device text =
    (devices : List Device) × (path : String) × (o : Opened) × (parse_blocks (device_blocks text)
      ≡ some devices)
    × IsOnly devices path
    × (open_device path ≡ some o)
    × (key_bit_set o.bitmap k1_code ≡ false)
    × HasClick k1_code (events (received o.turns))

press_on_inv :
    (p : Option Opened)
    → press_on p ≡ some (ok true)
    → (o : Opened) × (p ≡ some o) × (wait_press_release o.bitmap o.turns k1_code ≡ true)
press_on_inv none h = absurd cc
press_on_inv (some o) h = (o, refl, ok-injective (some_inj h))

press_at_inv :
    (open_device : String → Option Opened) (r : Option (Result Reason String))
    → press_at open_device r ≡ some (ok true)
    → (path : String) × (r ≡ some (ok path)) × (press_on (open_device path) ≡ some (ok true))
press_at_inv open_device none h = absurd cc
press_at_inv open_device (some (err e)) h = absurd cc
press_at_inv open_device (some (ok path)) h = (path, refl, h)

resolve_text_inv :
    (text path : String)
    → resolve_text text ≡ some (ok path)
    → (devices : List Device) × (parse_blocks (device_blocks text) ≡ some devices)
      × (resolve_k1_path devices ≡ ok path)
unfolding resolve_text
resolve_text_inv text path h = elim (Option-cases (parse_blocks (device_blocks text))) [
  | inl e ↦ absurd (cc (rw (e, resolve_text) at h))
  | inr (devices, e) ↦ (devices, e, some_inj (rw (e, resolve_text) at h))
]

-- `await_press` returns True only if a single one of the listed devices has the name gpio-keys and key
-- 257 but not the recovery key 158, K1 was not held when that device was opened, and then, before the
-- deadline, the bytes read from it held a press of K1 and a release after it.
pub await_press-IsConfirmed :
    (open_device : String → Option Opened) (text : String)
    → await_press open_device text ≡ some (ok true)
    → IsConfirmed open_device text
unfolding await_press
await_press-IsConfirmed open_device text h =
    let (path, found, pressed) = press_at_inv open_device (resolve_text text) h in
    let (devices, listed, resolved) = resolve_text_inv text path found in
    let (o, opened, waited) = press_on_inv (open_device path) pressed in
    let (free, clicked) = (wait_press_release_iff o.bitmap o.turns k1_code).0 waited in
    (devices, path, o, listed, resolve_k1_path-IsOnly devices path resolved, opened, free, clicked)
