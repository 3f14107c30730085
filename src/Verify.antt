-- ===== src/Verify.antt =====
-- box/lib/causb/verify.py: the signature checks of a job. `ssh-keygen` and the files are outside of
-- the program: `Tools` says what they answer, `none` for an `OSError`, a `SubprocessError` or a
-- `UnicodeDecodeError`, which the program treats alike.
pub mod Cosign
use nebula_ca_harness.Prelude.{
  ℕ, String, Bool, true, false, not, ◌&&◌, ◌||◌, any, Option, none, some, List, [], ◌∷◌, ◌++◌,
  contains, ◌==◌, string_eq, if◌then◌else◌, Result, ok, err, ◌>>=◌, ◌>>◌, require,
}
use nebula_ca_harness.Json.{ℤ, pos, negsuc}
use nebula_ca_harness.Mountctl.{is_zero}
use nebula_ca_harness.Text.{is_newline, ends_line, lines_by, strip, words, starts_with}

-- `VerifyError.reason`, and the `ValueError` of a relative anchor path.
pub data Reason : Type 0 where
  verify_failed cosign_failed value_error : Reason

pub record Completed : Type 0 where
  pub returncode : ℤ
  -- `result.stdout.decode()`
  pub stdout : Option String

pub record Tools : Type 0 where
  -- `subprocess.run`, with what goes to the standard input.
  pub run : List String → List ℕ → Option Completed
  -- `open(path, "rb").read()`
  pub bytes : String → Option (List ℕ)
  -- `open(path).read()`
  pub text : String → Option String

-- `os.path.isabs`
abbrev pub is_abs : String → Bool
is_abs path = starts_with "/" path

-- `[line for line in ... if line.strip()]`
unfoldable pub not_blank : List String → List String
not_blank [] = []
not_blank (line ∷ lines) =
    let rest = not_blank lines in if strip line == "" then rest else line ∷ rest

abbrev pub only_line : List String → Option String
only_line (line ∷ []) = some (strip line)
only_line lines = none

-- The principal in what `find-principals` printed; the outer `none` is an exception.
unfoldable pub principal_of : Completed → Option (Option String)
unfolding not_blank
principal_of c = if not (is_zero c.returncode) then some none else elim c.stdout [
  | none ↦ none
  | some out ↦ some (only_line (not_blank (lines_by ends_line out)))
]

abbrev pub find_argv : String → String → List String
find_argv sig anchor = "ssh-keygen" ∷ "-Y" ∷ "find-principals" ∷ "-s" ∷ sig ∷ "-f" ∷ anchor ∷ []

abbrev pub verify_argv : String → String → String → List String
verify_argv sig anchor principal =
    "ssh-keygen" ∷ "-Y" ∷ "verify" ∷ "-f" ∷ anchor ∷ "-I" ∷ principal ∷ "-n" ∷ "nebula-ca-job"
    ∷ "-s" ∷ sig ∷ []

-- `_KEY_TYPES`
abbrev pub key_types : List String
key_types =
    "ssh-ed25519" ∷ "ssh-rsa" ∷ "ssh-dss" ∷ "ecdsa-sha2-nistp256" ∷ "ecdsa-sha2-nistp384"
    ∷ "ecdsa-sha2-nistp521" ∷ "sk-ssh-ed25519@openssh.com" ∷ "sk-ecdsa-sha2-nistp256@openssh.com"
    ∷ []

-- A key's type and its base64 text.
pub record Blob : Type 0 where
  pub kind : String
  pub key : String

abbrev pub same_blob : Blob → Blob → Bool
same_blob a b = a.kind == b.kind && a.key == b.key

-- `blob in blobs`
abbrev pub has_blob : List Blob → Blob → Bool
has_blob blobs b = any (λ a. same_blob a b) blobs

-- The first key type that a field follows, with that field.
unfoldable pub blob_of : List String → List Blob
blob_of [] = []
blob_of (kind ∷ []) = []
blob_of (kind ∷ key ∷ fields) =
    let rest = blob_of (key ∷ fields) in
    if contains key_types kind then record { kind = kind; key = key } ∷ [] else rest

-- The turns of the loop of `_key_blobs`.
unfoldable pub blobs_of : List String → List Blob
unfolding blob_of
blobs_of [] = []
blobs_of (raw_line ∷ lines) =
    let line = strip raw_line in
    let rest = blobs_of lines in
    if line == "" || starts_with "#" line then rest else blob_of (words line) ++ rest

-- `a & b` is not empty.
abbrev pub intersects : List Blob → List Blob → Bool
intersects a b = any (has_blob b) a

abbrev pub is_empty : List Blob → Bool
is_empty [] = true
is_empty (b ∷ bs) = false

-- What the `except` clause makes of an exception.
abbrev pub folded {ℓ} : {A : Type ℓ} → Reason → Option A → Result Reason A
folded reason none = err reason
folded reason (some a) = ok a

module _ (t : Tools) where
  -- `_find_principal`
  unfoldable pub find_principal : String → String → Option (Option String)
  unfolding principal_of
  find_principal sig anchor = elim (t.run (find_argv sig anchor) []) [
    | none ↦ none
    | some c ↦ principal_of c
  ]

  -- `_verify_bytes`
  unfoldable pub verify_bytes : String → String → String → String → Option Bool
  verify_bytes tar sig anchor principal = elim (t.bytes tar) [
    | none ↦ none
    | some b ↦ elim (t.run (verify_argv sig anchor principal) b) [
      | none ↦ none
      | some c ↦ some (is_zero c.returncode)
    ]
  ]

  -- The steps that `_verify_against_anchor` and `verify_cosign` have in common, and the reason that a
  -- failure gets.
  unfoldable pub authenticate : Reason → String → String → String → Result Reason String
  authenticate reason tar sig anchor = do
    found ← folded reason (find_principal sig anchor)
    principal ← folded reason found
    good ← folded reason (verify_bytes tar sig anchor principal)
    require good reason
    ok principal

  -- `_verify_against_anchor`
  unfoldable pub verify_against_anchor : String → String → String → Result Reason String
  verify_against_anchor tar sig anchor = do
    require (is_abs anchor) value_error
    authenticate verify_failed tar sig anchor

  unfoldable pub verify : String → String → String → Result Reason String
  unfolding verify_against_anchor
  verify tar sig allowed = verify_against_anchor tar sig allowed

  unfoldable pub verify_breakglass_primary : String → String → String → Result Reason String
  unfolding verify_against_anchor
  verify_breakglass_primary tar sig breakglass = verify_against_anchor tar sig breakglass

  -- `_key_blobs`
  unfoldable pub key_blobs : String → Option (List Blob)
  unfolding blobs_of
  key_blobs anchor = elim (t.text anchor) [
    | none ↦ none
    | some s ↦ some (blobs_of (lines_by is_newline s))
  ]

  unfoldable pub verify_cosign : String → String → String → String → Result Reason (Unit {0})
  verify_cosign tar bg_sig breakglass allowed = do
    require (is_abs breakglass) value_error
    require (is_abs allowed) value_error
    bg_principal ← authenticate cosign_failed tar bg_sig breakglass
    allowed_keys ← folded cosign_failed (key_blobs allowed)
    breakglass_keys ← folded cosign_failed (key_blobs breakglass)
    require (not (is_empty allowed_keys || is_empty breakglass_keys)) cosign_failed
    require (not (intersects allowed_keys breakglass_keys)) cosign_failed
    ok tt
