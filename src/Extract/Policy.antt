-- ===== src/Extract/Policy.antt =====
-- The members that an extraction by box/lib/causb/extract.py accepts.
use nebula_ca_harness.Prelude.{
  ℕ, ◌+◌, ◌≤◌, String, ◌≡◌, refl, sym, subst, inl, inr, Bool, true, false, ◌&&◌, some, Option-cases,
  Result-cases, List, [], ◌∷◌, All, length, ltb, arith, Bool-cases, Result, ok, ok-injective,
}
use nebula_ca_harness.Json.{ℤ, pos, negsuc}
use nebula_ca_harness.Extract.{
  Reason, Tree, Member, Stream, done, broken, next, max_files, max_bytes, safe_name, check_size,
  check_member, Outcome, written, os_error, value_error, write_member, after_write, Extraction,
  extract_loop, extract,
}

abbrev pub members : Stream → List Member
members done = []
members broken = []
members (next m s) = m ∷ members s

-- The stream ends, and does not break.
abbrev pub ends_well : Stream → Bool
ends_well done = true
ends_well broken = false
ends_well (next m s) = ends_well s

abbrev pub size_of : ℤ → ℕ
size_of (pos n) = n
size_of (negsuc n) = 0

abbrev pub total_size : List Member → ℕ
total_size [] = 0
total_size (m ∷ ms) = size_of m.size + total_size ms

-- A regular file with a safe name, a size and data that can be read.
abbrev pub IsAcceptable : Member → Type 0
IsAcceptable m =
    (safe_name m.name ≡ true)
    × (m.isreg ≡ true)
    × (m.size ≡ pos (size_of m.size))
    × ((b : List ℕ) × (m.bytes ≡ some b))

-- What the header of a member that passes the tests says.
abbrev pub Passed : Member → ℕ → ℕ → ℕ → Type 0
Passed m files bytes total =
    (safe_name m.name ≡ true)
    × (m.isreg ≡ true)
    × (m.size ≡ pos (size_of m.size))
    × (files + 1 ≤ max_files)
    × (total ≡ bytes + size_of m.size)
    × (total ≤ max_bytes)

and_inv : (a b : Bool) → (a && b) ≡ true → (a ≡ true) × (b ≡ true)
and_inv true b h = (refl, h)
and_inv false b h = absurd cc

within : (a b : ℕ) → ltb a b ≡ false → b ≤ a
within a b h = ground arith

check_size-Passed :
    (m : Member) (files bytes total : ℕ) (z : ℤ)
    → files + 1 ≤ max_files
    → m.size ≡ z
    → check_size m bytes z ≡ ok total
    → Passed m files bytes total
unfolding check_size
check_size-Passed m files bytes total (negsuc n) few same h = absurd cc
check_size-Passed m files bytes total (pos n) few same h =
    elim (Bool-cases (ltb max_bytes (bytes + n))) [
      | inl e ↦ absurd (cc (rw e at h))
      | inr e ↦ elim (Bool-cases (safe_name m.name && m.isreg)) [
        | inl e' ↦
            let (safe, regular) = and_inv (safe_name m.name) m.isreg e' in
            let r : ◌≡◌ {A = Result Reason ℕ} (ok (bytes + n)) (ok total) = rw (e, e') at h in
            let total_eq = ok-injective r in
            let fits = within max_bytes (bytes + n) e in
            (
              safe,
              regular,
              rw same refl,
              few,
              rw same (sym total_eq),
              subst (λ x. x ≤ max_bytes) total_eq fits,
            )
        | inr e' ↦ absurd (cc (rw (e, e') at h))
      ]
    ]

pub check_member-Passed :
    (m : Member) (files bytes total : ℕ)
    → check_member m files bytes ≡ ok total
    → Passed m files bytes total
unfolding check_member
check_member-Passed m files bytes total h = elim (Bool-cases (ltb max_files (files + 1))) [
  | inl e ↦ absurd (cc (rw e at h))
  | inr e ↦
      check_size-Passed m files bytes total m.size (within max_files (files + 1) e) refl (rw e at h)
]

-- What the rest of a stream is like, after `files` members of `bytes` bytes.
abbrev IsAcceptedFrom : Stream → ℕ → ℕ → Type 0
IsAcceptedFrom s files bytes =
    (ends_well s ≡ true)
    × All IsAcceptable (members s)
    × (files + length (members s) ≤ max_files)
    × (bytes + total_size (members s) ≤ max_bytes)

module _ (accepts : String → Bool) where
  after_write_inv :
      (t : Tree) (o : Outcome) (rest : Tree → Extraction)
      → (after_write (record { tree = t; outcome = o }) rest).result ≡ ok tt
      → (rest t).result ≡ ok tt
  after_write_inv t written rest h = h
  after_write_inv t os_error rest h = absurd cc
  after_write_inv t value_error rest h = absurd cc

  extract_loop-IsAccepted :
      (s : Stream) (files bytes : ℕ) (t : Tree)
      → files ≤ max_files
      → bytes ≤ max_bytes
      → (extract_loop accepts s files bytes t).result ≡ ok tt
      → IsAcceptedFrom s files bytes
  unfolding extract_loop
  extract_loop-IsAccepted done files bytes t few small h =
      (refl, tt, omega (arith, few), omega (arith, small))
  extract_loop-IsAccepted broken files bytes t few small h = absurd cc
  extract_loop-IsAccepted (next m s) files bytes t few small h =
      elim (Result-cases (check_member m files bytes)) [
        | inl (total, e) ↦ elim (Option-cases m.bytes) [
          | inl none_left ↦ absurd (cc (rw (e, none_left, extract_loop) at h))
          | inr (b, e') ↦
              let (safe, regular, sized, few', total_eq, small') =
                check_member-Passed m files bytes total e in
              let (ended, all, count, sum) =
                extract_loop-IsAccepted s (files + 1) total (write_member accepts m.name b t).tree
                  few' small'
                  (after_write_inv (write_member accepts m.name b t).tree
                    (write_member accepts m.name b t).outcome
                    (λ t'. extract_loop accepts s (files + 1) total t')
                    (rw (e, e', extract_loop) at h)) in
              (
                ended,
                ((safe, regular, sized, (b, e')), all),
                omega (arith, count),
                omega (arith, sum, total_eq),
              )
        ]
        | inr (e, e') ↦ absurd (cc (rw (e', extract_loop) at h))
      ]

  -- When `extract` returns, the tar opened and was read to its end, each of its members is a regular
  -- file with a safe name, a size and readable data, there are 64 members at most, and the sizes in
  -- their headers sum up to 8 MiB at most.
  pub extract-IsAccepted :
      (s : Stream) (t : Tree)
      → (extract accepts (some s) t).result ≡ ok tt
      → (ends_well s ≡ true)
        × All IsAcceptable (members s)
        × (length (members s) ≤ max_files)
        × (total_size (members s) ≤ max_bytes)
  unfolding extract
  extract-IsAccepted s t h =
      let (ended, all, count, sum) =
        extract_loop-IsAccepted s 0 0 t (omega arith) (omega arith) h in
      (ended, all, omega (arith, count), omega (arith, sum))
