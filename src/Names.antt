-- ===== src/Names.antt =====
-- File names as Python strings: the tests that `manifest`, `dispatch`, `extract` and `commitlog`
-- make on one path component, and `str.split("/")`.
use Prim.Native.Char.{Char, code}
use nebula_ca_harness.Prelude.{
  ℕ, String, Bool, ◌||◌, List, [], ◌∷◌, any, ltb, ◌==◌, nat_eq, string_eq, if◌then◌else◌,
}

-- `[ord(ch) for ch in s]`
abbrev pub codes : String → List ℕ
codes String.[] = []
codes (String.◌∷◌ c s) = code c ∷ codes s

-- `"/" in name`
unfoldable pub has_slash : String → Bool
has_slash name = any (λ c. c == b'/') (codes name)

-- `name in (".", "..")`
unfoldable pub is_dots : String → Bool
is_dots name = name == "." || name == ".."

-- `any(ord(ch) < 0x20 or ord(ch) == 0x7f for ch in name)`
unfoldable pub has_control : String → Bool
has_control name = any (λ c. ltb c 0x20 || c == 0x7f) (codes name)

-- The character goes to the front of the first part.
abbrev pub onto_first : Char → List String → List String
onto_first c [] = (String.◌∷◌ c String.[]) ∷ []
onto_first c (part ∷ parts) = String.◌∷◌ c part ∷ parts

-- `name.split("/")`
unfoldable pub split_slash : String → List String
split_slash String.[] = "" ∷ []
split_slash (String.◌∷◌ c s) =
    let parts = split_slash s in if code c == b'/' then "" ∷ parts else onto_first c parts
