-- ===== src/Extract.antt =====
-- box/lib/causb/extract.py: the policy for the members of a job's tar, and their extraction.
-- `tarfile` is outside of the program: a `Stream` is what its `next` returns, call by call. The
-- destination is the tree below `dest_dir`. `accepts` says which names the file system takes for a
-- new entry (it refuses one that is too long). A disk without room is left out.
pub mod Policy
pub mod Frame
use Prim.Native.Char.{code}
use nebula_ca_harness.Prelude.{
  ℕ, suc, ◌+◌, ◌*◌, String, Bool, true, false, not, ◌&&◌, ◌||◌, any, Option, none, some, List, [],
  ◌∷◌, contains, length, ltb, ◌==◌, nat_eq, string_eq, if◌then◌else◌, Result, ok, err,
}
use nebula_ca_harness.Json.{ℤ, pos, negsuc}
use nebula_ca_harness.Names.{codes, split_slash, is_dots}
use nebula_ca_harness.Text.{starts_with}

-- `ExtractError.reason`, and the `ValueError` of `os.mkdir` for a name with a NUL.
pub data Reason : Type 0 where
  path_traversal cap_exceeded bad_tar value_error : Reason

mutual
  -- `other` is what is no file and no directory, such as a symbolic link.
  pub data Node : Type 0 where
    file : List ℕ → Node
    folder : Tree → Node
    other : Node

  pub data Tree : Type 0 where
    nil : Tree
    entry : String → Node → Tree → Tree

unfoldable pub find : Tree → String → Option Node
find nil name = none
find (entry k n t) name = if k == name then some n else find t name

unfoldable pub place : String → Node → Tree → Tree
place name n nil = entry name n nil
place name n (entry k m t) = if k == name then entry name n t else entry k m (place name n t)

-- `TarInfo`, with what `extractfile(member).read()` returns (`none` for a `TarError` or an `OSError`).
pub record Member : Type 0 where
  pub name : String
  pub size : ℤ
  pub isreg : Bool
  pub bytes : Option (List ℕ)

-- `tar.next()`: `None`, a `TarError`, or a member.
pub data Stream : Type 0 where
  done : Stream
  broken : Stream
  next : Member → Stream → Stream

-- `CAPS["tar_files"]`, `CAPS["tar_bytes"]`, `CAPS["depth"]`
abbrev pub max_files : ℕ
max_files = 64

abbrev pub max_bytes : ℕ
max_bytes = 8 * 1024 * 1024

abbrev pub max_depth : ℕ
max_depth = 4

-- `part in ("", "..")`
abbrev pub is_bad_part : String → Bool
is_bad_part part = part == "" || part == ".."

-- `_safe_name`
unfoldable pub safe_name : String → Bool
unfolding split_slash starts_with
safe_name name =
    not (starts_with "/" name)
    && not (ltb max_depth (length (split_slash name)))
    && not (any is_bad_part (split_slash name))
    && (name == "manifest.json" || starts_with "payload/" name)

-- The tests of `_extract_into` on one member's size, name and type, after members of `bytes` bytes,
-- and the new total of bytes.
unfoldable pub check_size : Member → ℕ → ℤ → Result Reason ℕ
unfolding safe_name
check_size m bytes (negsuc n) = err bad_tar
check_size m bytes (pos n) =
    if ltb max_bytes (bytes + n)
    then err cap_exceeded
    else (if safe_name m.name && m.isreg then ok (bytes + n) else err path_traversal)

-- All the tests on a member, after `files` members.
unfoldable pub check_member : Member → ℕ → ℕ → Result Reason ℕ
unfolding check_size
check_member m files bytes =
    if ltb max_files (files + 1) then err cap_exceeded else check_size m bytes m.size

-- How a write ends: well, or with an `OSError` or a `ValueError`.
pub data Outcome : Type 0 where
  written os_error value_error : Outcome

pub record Wrote : Type 0 where
  pub tree : Tree
  pub outcome : Outcome

-- `"\0" in s`
abbrev pub has_nul : String → Bool
has_nul s = contains (codes s) 0

-- The C string that `ctypes` passes for a name.
unfoldable pub until_nul : String → String
until_nul String.[] = ""
until_nul (String.◌∷◌ c s) = let rest = until_nul s in if code c == 0 then "" else String.◌∷◌ c rest

-- The write of the rest of the path in a directory of the name.
abbrev pub inside : String → Tree → Wrote → Wrote
inside name t w = record { tree = place name (folder w.tree) t; outcome = w.outcome }

pub record Extraction : Type 0 where
  pub tree : Tree
  pub result : Result Reason (Unit {0})

-- The loop after a write, which goes on from the tree.
abbrev pub after_write : Wrote → (Tree → Extraction) → Extraction
after_write w rest = elim w.outcome [
  | written ↦ rest w.tree
  | os_error ↦ record { tree = w.tree; result = err bad_tar }
  | value_error ↦ record { tree = w.tree; result = err value_error }
]

module _ (accepts : String → Bool) where
  -- `_openat2` for a file to write, with what stands at the name.
  unfoldable pub write_leaf : String → List ℕ → Tree → Wrote
  unfolding find place is_dots
  write_leaf name bytes t =
      if name == "" || is_dots name
      then record { tree = t; outcome = os_error }
      else (elim (find t name) [
        | some n ↦ elim n [
          | file old ↦ record { tree = place name (file bytes) t; outcome = written }
          | folder k ↦ record { tree = t; outcome = os_error }
          | other ↦ record { tree = t; outcome = os_error }
        ]
        | none ↦
            if accepts name
            then record { tree = place name (file bytes) t; outcome = written }
            else record { tree = t; outcome = os_error }
      ])

  -- `_ensure_dir_beneath`, for what stands at the name, and the rest of the descent.
  unfoldable pub descend : String → Tree → (Tree → Wrote) → Wrote
  unfolding find place
  descend name t rest =
      if has_nul name
      then record { tree = t; outcome = value_error }
      else (if name == "."
          then rest t
          else (if is_bad_part name
              then record { tree = t; outcome = os_error }
              else (elim (find t name) [
                | some n ↦ elim n [
                  | file b ↦ record { tree = t; outcome = os_error }
                  | folder k ↦ inside name t (rest k)
                  | other ↦ record { tree = t; outcome = os_error }
                ]
                | none ↦
                    if accepts name
                    then inside name t (rest nil)
                    else record { tree = t; outcome = os_error }
              ])))

  -- `_write_member`, on the components of the name.
  unfoldable pub write_parts : List String → List ℕ → Tree → Wrote
  unfolding write_leaf descend until_nul
  write_parts [] bytes t = record { tree = t; outcome = os_error }
  write_parts (leaf ∷ []) bytes t = write_leaf (until_nul leaf) bytes t
  write_parts (component ∷ part ∷ parts) bytes t =
      descend component t (write_parts (part ∷ parts) bytes)

  unfoldable pub write_member : String → List ℕ → Tree → Wrote
  unfolding write_parts split_slash
  write_member name bytes t = write_parts (split_slash name) bytes t

  -- The loop of `_extract_into`, after `files` members of `bytes` bytes.
  unfoldable pub extract_loop : Stream → ℕ → ℕ → Tree → Extraction
  unfolding check_member write_member
  extract_loop done files bytes t = record { tree = t; result = ok tt }
  extract_loop broken files bytes t = record { tree = t; result = err bad_tar }
  extract_loop (next m s) files bytes t = elim (check_member m files bytes) [
    | err e ↦ record { tree = t; result = err e }
    | ok total ↦ elim m.bytes [
      | none ↦ record { tree = t; result = err bad_tar }
      | some b ↦ after_write (write_member m.name b t) (λ t'. extract_loop s (files + 1) total t')
    ]
  ]

  -- `extract`: `opened` is what `tarfile.open` returns, `none` for a `TarError` or an `OSError`.
  unfoldable pub extract : Option Stream → Tree → Extraction
  unfolding extract_loop
  extract none t = record { tree = t; result = err bad_tar }
  extract (some s) t = extract_loop s 0 0 t
