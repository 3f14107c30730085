-- ===== src/Button/Devices.antt =====
-- The text of /proc/bus/input/devices as devices (box/lib/causb/button.py). A token of a `B: KEY=` line
-- is read as hexadecimal digits, as the kernel prints them; `none` is the `ValueError` of `int`. In a
-- `H: Handlers=` line characters beyond ASCII count as no word characters.
use Prim.Native.Char.{Char, code}
use Prim.Native.String.{◌++◌ as ◌<>◌}
use nebula_ca_harness.Prelude.{
  ℕ, zero, suc, ◌+◌, ◌-◌, ◌*◌, ◌/◌, ◌%◌, String, Bool, true, false, not, ◌&&◌, ◌||◌, Option, none,
  some, List, [], ◌∷◌, ◌++◌, length, leb, ◌==◌, nat_eq, string_eq, if◌then◌else◌, Result, err, ok,
}
use nebula_ca_harness.Names.{codes}
use nebula_ca_harness.Text.{ends_line, lines_by, strip, words, starts_with, drop_chars}
use nebula_ca_harness.Button.{Reason, Device, resolve_k1_path, Turn, k1_code, wait_press_release}

-- The value of a hexadecimal digit.
abbrev pub hex_digit : ℕ → Option ℕ
hex_digit c =
    if leb 48 c && leb c 57
    then some (c - 48)
    else if leb 97 c && leb c 102
    then some (c - 87)
    else if leb 65 c && leb c 70
    then some (c - 55)
    else none

abbrev pub push_digit : ℕ → Option ℕ → Option ℕ
push_digit v none = none
push_digit v (some d) = some (16 * v + d)

-- `int(tok, 16)`, with what is read so far.
unfoldable pub hex_value : List ℕ → ℕ → Option ℕ
hex_value [] v = some v
hex_value (c ∷ cs) v = elim (push_digit v (hex_digit c)) [ none ↦ none | some u ↦ hex_value cs u ]

-- The loop over the bits of a word, for at most `n` turns.
unfoldable pub word_bits : ℕ → ℕ → ℕ → List ℕ
word_bits zero value base = []
word_bits (suc n) value base =
    let rest = word_bits n (value / 2) (base + 1) in if value % 2 == 1 then base ∷ rest else rest

-- A token has four bits for each digit.
unfoldable pub token_bits : String → ℕ → Option (List ℕ)
unfolding hex_value word_bits
token_bits tok word_index = elim (hex_value (codes tok) 0) [
  | none ↦ none
  | some value ↦ some (word_bits (4 * length (codes tok)) value (word_index * 64))
]

abbrev pub both : Option (List ℕ) → Option (List ℕ) → Option (List ℕ)
both (some xs) (some ys) = some (xs ++ ys)
both xs ys = none

-- The first token is the word of the greatest index.
unfoldable pub tokens_bits : List String → Option (List ℕ)
unfolding token_bits
tokens_bits [] = some []
tokens_bits (tok ∷ toks) = both (token_bits tok (length toks)) (tokens_bits toks)

-- `_parse_key_bits`
unfoldable pub parse_key_bits : String → Option (List ℕ)
unfolding tokens_bits
parse_key_bits value = tokens_bits (words value)

-- A blank line ends a block that has lines.
abbrev pub end_block : List String → List (List String) → List (List String)
end_block [] blocks = blocks
end_block (line ∷ lines) blocks = (line ∷ lines) ∷ blocks

-- The loop of `_iter_device_blocks`, with the lines of the block so far.
unfoldable pub blocks_of : List String → List String → List (List String)
blocks_of [] block = end_block block []
blocks_of (line ∷ lines) block =
    if strip line == ""
    then end_block block (blocks_of lines [])
    else blocks_of lines (block ++ (line ∷ []))

-- `_iter_device_blocks`
unfoldable pub device_blocks : String → List (List String)
unfolding blocks_of
device_blocks text = blocks_of (lines_by ends_line text) []

-- `text.strip('"')`
unfoldable pub rstrip_quotes : String → String
rstrip_quotes String.[] = ""
rstrip_quotes (String.◌∷◌ c s) =
    let rest = rstrip_quotes s in if rest == "" && code c == 34 then "" else String.◌∷◌ c rest

unfoldable pub lstrip_quotes : String → String
lstrip_quotes String.[] = ""
lstrip_quotes (String.◌∷◌ c s) =
    let rest = lstrip_quotes s in if code c == 34 then rest else String.◌∷◌ c s

abbrev pub is_digit : ℕ → Bool
is_digit c = leb 48 c && leb c 57

abbrev pub is_word : ℕ → Bool
is_word c = is_digit c || (leb 65 c && leb c 90) || (leb 97 c && leb c 122) || c == 95

abbrev pub cons_digit : Char → Option String → Option String
cons_digit c none = none
cons_digit c (some s) = some (String.◌∷◌ c s)

-- The digits up to a word boundary: `(\d+)\b`, after at least one digit when `some_digit` is true.
unfoldable pub digits : Bool → String → Option String
digits some_digit String.[] = if some_digit then some "" else none
digits some_digit (String.◌∷◌ c s) =
    let rest = digits true s in
    if is_digit (code c)
    then cons_digit c rest
    else if some_digit && not (is_word (code c))
    then some ""
    else none

abbrev pub first_of : Option String → Option String → Option String
first_of none rest = rest
first_of (some s) rest = some s

-- `_HANDLERS_EVENT_RE.search(text)`: the number, where `after_word` tells of the character before.
unfoldable pub event_number : Bool → String → Option String
unfolding digits
event_number after_word String.[] = none
event_number after_word (String.◌∷◌ c s) =
    let rest = event_number (is_word (code c)) s in
    if not after_word && starts_with "event" (String.◌∷◌ c s)
    then first_of (digits false (drop_chars 4 s)) rest
    else rest

abbrev pub set_event : Device → Option String → Device
set_event d none = d
set_event d (some n) = record d { event_path = some ("/dev/input/event" <> n) }

abbrev pub set_bits : Device → Option (List ℕ) → Option Device
set_bits d none = none
set_bits d (some bits) = some (record d { key_bits = bits })

-- One turn of the loop of `_parse_block`.
unfoldable pub parse_line : String → Device → Option Device
unfolding rstrip_quotes lstrip_quotes event_number parse_key_bits
parse_line line d =
    if starts_with "N: Name=" line
    then some (record d { name = some (lstrip_quotes (rstrip_quotes (strip (drop_chars 8 line)))) })
    else if starts_with "H: Handlers=" line
    then some (set_event d (event_number false (drop_chars 12 line)))
    else if starts_with "B: KEY=" line
    then set_bits d (parse_key_bits (strip (drop_chars 7 line)))
    else some d

unfoldable pub parse_lines : List String → Device → Option Device
unfolding parse_line
parse_lines [] d = some d
parse_lines (line ∷ lines) d = elim (parse_line line d) [
  | none ↦ none
  | some e ↦ parse_lines lines e
]

-- `_parse_block`
unfoldable pub parse_block : List String → Option Device
unfolding parse_lines
parse_block lines = parse_lines lines (record { name = none; event_path = none; key_bits = [] })

unfoldable pub parse_blocks : List (List String) → Option (List Device)
unfolding parse_block
parse_blocks [] = some []
parse_blocks (block ∷ blocks) = elim (parse_block block) [
  | none ↦ none
  | some d ↦ elim (parse_blocks blocks) [ none ↦ none | some ds ↦ some (d ∷ ds) ]
]

-- `resolve_k1_path` on the text.
unfoldable pub resolve_text : String → Option (Result Reason String)
unfolding device_blocks parse_blocks resolve_k1_path
resolve_text text = elim (parse_blocks (device_blocks text)) [
  | none ↦ none
  | some devices ↦ some (resolve_k1_path devices)
]

-- What the opened device gives: the bitmap of `EVIOCGKEY`, and the turns after the queued events were
-- discarded.
pub record Opened : Type 0 where
  pub bitmap : List ℕ
  pub turns : List Turn

abbrev pub press_on : Option Opened → Option (Result Reason Bool)
press_on none = none
press_on (some o) = some (ok (wait_press_release o.bitmap o.turns k1_code))

abbrev pub press_at :
    (String → Option Opened) → Option (Result Reason String) → Option (Result Reason Bool)
press_at open_device none = none
press_at open_device (some (err e)) = some (err e)
press_at open_device (some (ok path)) = press_on (open_device path)

-- `await_press`, where `none` is an exception that is no `ButtonError`.
unfoldable pub await_press : (String → Option Opened) → String → Option (Result Reason Bool)
unfolding resolve_text wait_press_release
await_press open_device text = press_at open_device (resolve_text text)
