-- ===== src/Manifest/Uuid.antt =====
-- `_is_uuid4` of box/lib/causb/manifest.py. `uuid.UUID(value)` succeeds, has version 4 and prints as
-- `value.lower()` exactly for the texts that this test accepts: five groups of 8, 4, 4, 4 and 12
-- hexadecimal digits joined by dashes, where the third group begins with 4 and the fourth with
-- 8, 9, a or b (the RFC 4122 variant, without which `version` is `None`).
use nebula_ca_harness.Prelude.{
  ℕ, String, Bool, true, false, ◌&&◌, ◌||◌, List, [], ◌∷◌, leb, ◌==◌, nat_eq,
}
use nebula_ca_harness.Names.{codes}

pub data Shape : Type 0 where
  hex dash four variant : Shape

is_hex : ℕ → Bool
is_hex c = (leb b'0' c && leb c b'9') || (leb b'a' c && leb c b'f') || (leb b'A' c && leb c b'F')

fits : Shape → ℕ → Bool
unfolding is_hex
fits hex c = is_hex c
fits dash c = c == b'-'
fits four c = c == b'4'
fits variant c = c == b'8' || c == b'9' || c == b'a' || c == b'b' || c == b'A' || c == b'B'

fits_all : List Shape → List ℕ → Bool
unfolding fits
fits_all [] [] = true
fits_all (s ∷ shapes) (c ∷ cs) = fits s c && fits_all shapes cs
fits_all _ _ = false

abbrev pub uuid4_shape : List Shape
uuid4_shape =
    hex ∷ hex ∷ hex ∷ hex ∷ hex ∷ hex ∷ hex ∷ hex ∷ dash ∷ hex ∷ hex ∷ hex ∷ hex ∷ dash ∷ four ∷ hex
    ∷ hex ∷ hex ∷ dash ∷ variant ∷ hex ∷ hex ∷ hex ∷ dash ∷ hex ∷ hex ∷ hex ∷ hex ∷ hex ∷ hex ∷ hex
    ∷ hex ∷ hex ∷ hex ∷ hex ∷ hex ∷ []

unfoldable pub is_uuid4 : String → Bool
unfolding fits_all
is_uuid4 value = fits_all uuid4_shape (codes value)
