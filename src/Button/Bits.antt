-- ===== src/Button/Bits.antt =====
-- Which codes `_parse_key_bits` (box/lib/causb/button.py) reads from a `B: KEY=` line.
use nebula_ca_harness.Prelude.{
  ℕ, zero, suc, ◌+◌, ◌-◌, ◌*◌, ◌/◌, ◌%◌, ◌≤◌, ◌<◌, String, ◌≡◌, refl, sym, subst, inl, inr, Bool,
  false, ◌&&◌, ◌||◌, Option, none, some, List, [], ◌∷◌, ◌++◌, length, ltb, contains, arith, All,
  some_inj, Option-cases, ◌==◌, nat_eq, Bool-cases, if◌then◌else◌,
}
use nebula_ca_harness.Button.Devices.{hex_value, word_bits, token_bits, tokens_bits}
use nebula_ca_harness.Names.{codes}

-- Bit `i` of a number.
abbrev pub bit : ℕ → ℕ → Bool
bit value zero = value % 2 == 1
bit value (suc i) = bit (value / 2) i

contains-below : (n value base k : ℕ) → k < base → contains (word_bits n value base) k ≡ false
unfolding word_bits
contains-below zero value base k h = refl
contains-below (suc n) value base k h =
    let rest = contains-below n (value / 2) (base + 1) k (omega (arith, h)) in
    elim (Bool-cases (value % 2 == 1)) [
      | inl e ↦ rw (e, word_bits) (ground (arith, rest))
      | inr e ↦ rw (e, word_bits) rest
    ]

-- The code `base + i` is read exactly when the bit is among those that are looked at and is set.
contains-word_bits :
    (n value base i : ℕ) → contains (word_bits n value base) (base + i) ≡ (ltb i n && bit value i)
unfolding word_bits
contains-word_bits zero value base i = ground arith
contains-word_bits (suc n) value base zero =
    let rest = contains-below n (value / 2) (base + 1) (base + 0) (omega arith) in
    elim (Bool-cases (value % 2 == 1)) [
      | inl e ↦ rw (e, word_bits) (ground (arith, rest))
      | inr e ↦ rw (e, word_bits) (ground (arith, rest))
    ]
contains-word_bits (suc n) value base (suc i) =
    let rest = contains-word_bits n (value / 2) (base + 1) i in
    elim (Bool-cases (value % 2 == 1)) [
      | inl e ↦ rw (e, word_bits) (ground (arith, rest))
      | inr e ↦ rw (e, word_bits) (ground (arith, rest))
    ]

contains-above : (n value base k : ℕ) → base + n ≤ k → contains (word_bits n value base) k ≡ false
contains-above n value base k h =
    let here = contains-word_bits n value base (k - base) in
    let same : base + (k - base) ≡ k = omega (arith, h) in
    subst (λ x. contains (word_bits n value base) x ≡ false) same (ground (arith, here, h))

contains-append :
    (xs ys : List ℕ) (k : ℕ) → contains (xs ++ ys) k ≡ (contains xs k || contains ys k)
contains-append [] ys k = refl
contains-append (x ∷ xs) ys k = ground (arith, contains-append xs ys k)

-- The kernel prints words of 64 bits: at most 16 digits.
abbrev pub IsShort : String → Type 0
IsShort tok = length (codes tok) ≤ 16

-- Bit `i` of the token of the word `w`, the last token being the word 0; the token has four bits for
-- each of its digits.
abbrev pub token_bit : Option ℕ → ℕ → ℕ → Bool
token_bit none len i = false
token_bit (some value) len i = ltb i (4 * len) && bit value i

abbrev pub bit_of : List String → ℕ → ℕ → Bool
bit_of [] w i = false
bit_of (tok ∷ toks) w i =
    if w == length toks
    then token_bit (hex_value (codes tok) 0) (length (codes tok)) i
    else bit_of toks w i

-- The bits of the first token and of the others.
tokens_inv :
    (tok : String) (toks : List String) {bits : List ℕ}
    → tokens_bits (tok ∷ toks) ≡ some bits
    → (value : ℕ) × (ys : List ℕ) × (hex_value (codes tok) 0 ≡ some value)
      × (tokens_bits toks ≡ some ys)
      × (bits ≡ word_bits (4 * length (codes tok)) value (length toks * 64) ++ ys)
unfolding tokens_bits token_bits
tokens_inv tok toks h = elim (Option-cases (hex_value (codes tok) 0)) [
  | inl e ↦ absurd (cc (rw (e, tokens_bits, token_bits) at h))
  | inr (v, e) ↦ elim (Option-cases (tokens_bits toks)) [
    | inl e' ↦ absurd (cc (rw (e, e', tokens_bits, token_bits) at h))
    | inr (ys, e') ↦ (v, ys, e, e', sym (some_inj (rw (e, e', tokens_bits, token_bits) at h)))
  ]
]

tokens-above :
    (toks : List String) (bits : List ℕ) (k : ℕ)
    → tokens_bits toks ≡ some bits
    → All IsShort toks
    → length toks * 64 ≤ k
    → contains bits k ≡ false
unfolding tokens_bits
tokens-above [] bits k h short far = rw⁻¹ (some_inj h) refl
tokens-above (tok ∷ toks) bits k h (small, short) far =
    let (v, ys, e, e', split) = tokens_inv tok toks h in
    let here =
      contains-above (4 * length (codes tok)) v (length toks * 64) k (omega (arith, small, far)) in
    let there = tokens-above toks ys k e' short (omega (arith, far)) in
    rw (split, contains-append, here, there) refl

-- `_parse_key_bits` reads the code `w * 64 + i`, for `i` below 64, exactly when bit `i` is set in the
-- token of the word `w`, counted from the end: for tokens of at most 16 digits, all of which are
-- hexadecimal numbers.
pub tokens_bits-contains :
    (toks : List String) (bits : List ℕ) (w i : ℕ)
    → tokens_bits toks ≡ some bits
    → All IsShort toks
    → i < 64
    → contains bits (w * 64 + i) ≡ bit_of toks w i
unfolding tokens_bits
tokens_bits-contains [] bits w i h short low = rw⁻¹ (some_inj h) refl
tokens_bits-contains (tok ∷ toks) bits w i h (small, short) low =
    let (v, ys, e, e', split) = tokens_inv tok toks h in
    let n = 4 * length (codes tok) in
    elim (Bool-cases (w == length toks)) [
      | inl q ↦
          let same : w ≡ length toks = ground (arith, q) in
          let there = tokens-above toks ys (w * 64 + i) e' short (omega (arith, same)) in
          let here = contains-word_bits n v (w * 64) i in
          rw (split, contains-append, there, q, e) (rw⁻¹ same (ground (arith, here)))
      | inr q ↦
          let rest = tokens_bits-contains toks ys w i e' short low in
          elim (Bool-cases (ltb w (length toks))) [
            | inl p ↦
                let here =
                  contains-below n v (length toks * 64) (w * 64 + i) (ground (arith, p, low)) in
                rw (split, contains-append, here, q) rest
            | inr p ↦
                let here =
                  contains-above n v (length toks * 64) (w * 64 + i)
                    (ground (arith, p, q, small)) in
                rw (split, contains-append, here, q) rest
          ]
    ]
