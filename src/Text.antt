-- ===== src/Text.antt =====
-- Python's `str` methods that `verify` and `mountctl` read text with: `strip`, `split`, `splitlines`,
-- the lines of a text file, `startswith`, `in` and `lower`.
use Prim.Native.Char.{code}
use nebula_ca_harness.Prelude.{
  ℕ, zero, suc, String, Bool, true, false, ◌&&◌, ◌||◌, List, [], ◌∷◌, ◌+◌, contains, leb, ◌==◌,
  nat_eq, string_eq, if◌then◌else◌,
}
use nebula_ca_harness.Names.{codes, onto_first}

-- `ch.isspace()`
abbrev pub is_space : ℕ → Bool
is_space c =
    (leb 9 c && leb c 13)
    || (leb 28 c && leb c 32)
    || (leb 0x2000 c && leb c 0x200a)
    || contains (0x85 ∷ 0xa0 ∷ 0x1680 ∷ 0x2028 ∷ 0x2029 ∷ 0x202f ∷ 0x205f ∷ 0x3000 ∷ []) c

-- The line boundaries of `str.splitlines`.
abbrev pub ends_line : ℕ → Bool
ends_line c =
    (leb 10 c && leb c 13) || (leb 28 c && leb c 30) || contains (0x85 ∷ 0x2028 ∷ 0x2029 ∷ []) c

-- Those of a file that is opened in text mode, with universal newlines.
abbrev pub is_newline : ℕ → Bool
is_newline c = c == 10 || c == 13

-- The text is not empty and its first character passes the test.
abbrev pub first_is : (ℕ → Bool) → String → Bool
first_is p String.[] = false
first_is p (String.◌∷◌ c s) = p (code c)

-- The lines between boundaries, where `\r\n` is one boundary.
unfoldable pub lines_by : (ℕ → Bool) → String → List String
lines_by p String.[] = []
lines_by p (String.◌∷◌ c s) =
    let rest = lines_by p s in
    if p (code c)
    then (if code c == 13 && first_is (λ d. d == 10) s then rest else "" ∷ rest)
    else onto_first c rest

unfoldable pub rstrip : String → String
rstrip String.[] = ""
rstrip (String.◌∷◌ c s) =
    let rest = rstrip s in if rest == "" && is_space (code c) then "" else String.◌∷◌ c rest

unfoldable pub lstrip : String → String
lstrip String.[] = ""
lstrip (String.◌∷◌ c s) = let rest = lstrip s in if is_space (code c) then rest else String.◌∷◌ c s

-- `s[n:]`
abbrev pub drop_chars : ℕ → String → String
drop_chars zero s = s
drop_chars (suc n) String.[] = ""
drop_chars (suc n) (String.◌∷◌ c s) = drop_chars n s

-- `s.strip()`
abbrev pub strip : String → String
strip s = lstrip (rstrip s)

-- `s.split()`
unfoldable pub words : String → List String
words String.[] = []
words (String.◌∷◌ c s) =
    let rest = words s in
    if is_space (code c)
    then rest
    else (if first_is is_space s || s == "" then String.◌∷◌ c "" ∷ rest else onto_first c rest)

-- A list of codes begins with another.
abbrev pub is_prefix : List ℕ → List ℕ → Bool
is_prefix [] cs = true
is_prefix (p ∷ ps) [] = false
is_prefix (p ∷ ps) (c ∷ cs) = p == c && is_prefix ps cs

-- `s.startswith(prefix)`
unfoldable pub starts_with : String → String → Bool
starts_with prefix s = is_prefix (codes prefix) (codes s)

-- `ch.lower()` of an ASCII letter. No other character becomes one of `b`, `u`, `s`, `y`, the letters
-- that the program looks for.
abbrev pub lower_code : ℕ → ℕ
lower_code c = if leb b'A' c && leb c b'Z' then c + 32 else c

unfoldable pub lowered : List ℕ → List ℕ
lowered [] = []
lowered (c ∷ cs) = lower_code c ∷ lowered cs

-- `part in s`
unfoldable pub has_infix : List ℕ → List ℕ → Bool
has_infix part [] = is_prefix part []
has_infix part (c ∷ cs) = is_prefix part (c ∷ cs) || has_infix part cs
