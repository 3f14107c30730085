-- ===== src/Collect.antt =====
-- box/lib/causb/collect.py: the copy of a job's outputs from the directory that the job wrote.
-- A directory is what it holds when it is walked: the descriptors that the program keeps pin it.
-- `os.fwalk` is top-down: a directory's own names first, then its subdirectories. The results are
-- those of a call that returns; what a failed call leaves in the destination is never used.
pub mod Outputs
use Prim.Native.Nat.{Ordering}
use Prim.Native.String.{compare, ◌++◌ as ◌<>◌}
use nebula_ca_harness.Prelude.{
  ℕ, suc, ◌+◌, ◌-◌, String, Bool, true, false, Option, none, some, List, [], ◌∷◌, ◌++◌, length, ltb,
  leb, ◌==◌, nat_eq, if◌then◌else◌, Result, ok, err, ◌>>=◌, ◌>>◌, require,
}
use nebula_ca_harness.Extract
use nebula_ca_harness.Extract.{Tree, nil, file, folder, other, find, place, max_files, max_depth}

-- `CollectError.reason`
pub data Reason : Type 0 where
  path_traversal cap_exceeded bad_output : Reason

mutual
  -- An entry: a regular file with its number of hard links and its bytes (`none` where it cannot be
  -- opened or read), a symbolic link (to a directory or not), a socket, device or fifo, and a
  -- directory that can be opened or not.
  pub data Node : Type 0 where
    regular : ℕ → Option (List ℕ) → Node
    symlink : Bool → Node
    special : Node
    subdir : Listing → Node
    closed_dir : Node

  pub data Listing : Type 0 where
    finished : Listing
    listed : String → Node → Listing → Listing

-- An entry of the list that `collect` returns.
pub record Meta : Type 0 where
  pub path : String
  pub sha256 : String
  pub bytes : ℕ

-- How far the walk is: the destination, the bytes that fit on its file system, the files so far.
pub record Progress : Type 0 where
  pub dest : Tree
  pub room : ℕ
  pub file_count : ℕ
  pub outputs : List Meta

-- A name with the node.
abbrev pub Leaf : Type 0
Leaf = String × Node

-- `dirnames` holds what is a directory when a link is followed, `filenames` the rest.
unfoldable pub filenames : Listing → List Leaf
filenames finished = []
filenames (listed name (regular links data') rest) = (name, regular links data') ∷ filenames rest
filenames (listed name (symlink true) rest) = filenames rest
filenames (listed name (symlink false) rest) = (name, symlink false) ∷ filenames rest
filenames (listed name special rest) = (name, special) ∷ filenames rest
filenames (listed name (subdir d) rest) = filenames rest
filenames (listed name closed_dir rest) = filenames rest

-- A directory's own names among `dirnames` are no symbolic links.
unfoldable pub check_dirnames : Listing → Result Reason (Unit {0})
check_dirnames finished = ok tt
check_dirnames (listed name (symlink true) rest) = err path_traversal
check_dirnames (listed name node rest) = check_dirnames rest

abbrev is_before : String → String → Bool
is_before a b = elim (compare a b) [ Ordering.lt ↦ true | _ ↦ false ]

unfoldable pub insert_leaf : Leaf → List Leaf → List Leaf
insert_leaf a [] = a ∷ []
insert_leaf a (b ∷ bs) = if is_before b.0 a.0 then b ∷ insert_leaf a bs else a ∷ b ∷ bs

-- `sorted(filenames)`
unfoldable pub sort_leaves : List Leaf → List Leaf
unfolding insert_leaf
sort_leaves [] = []
sort_leaves (a ∷ as') = insert_leaf a (sort_leaves as')

-- `_open_source_nofollow` and the read of the file.
unfoldable pub open_source : Node → Result Reason (List ℕ)
open_source (regular links none) = err bad_output
open_source (regular links (some bytes)) = if links == 1 then ok bytes else err path_traversal
open_source node = err path_traversal

-- The relative path's text.
unfoldable pub join_path : List String → String → String
join_path [] name = name
join_path (part ∷ parts) name = part <> "/" <> join_path parts name

-- `_open_dir_component`, for what stands at the name, and the rest of the descent below it.
abbrev pub open_dir :
    String → Tree → Option Extract.Node → (Tree → Result Reason Tree) → Result Reason Tree
open_dir name t none rest = rest nil >>= λ k. ok (place name (folder k) t)
open_dir name t (some (folder d)) rest = rest d >>= λ k. ok (place name (folder k) t)
open_dir name t (some (file b)) rest = err bad_output
open_dir name t (some other) rest = err bad_output

-- The file is created, and not there before (`O_EXCL`).
abbrev pub create : String → List ℕ → Tree → Option Extract.Node → Result Reason Tree
create name bytes t none = ok (place name (file bytes) t)
create name bytes t (some n) = err bad_output

-- The descent of `_write_dest` and the creation of the file.
unfoldable pub write_at : List String → String → List ℕ → Tree → Result Reason Tree
unfolding find place
write_at [] leaf bytes t = create leaf bytes t (find t leaf)
write_at (component ∷ parts) leaf bytes t =
    open_dir component t (find t component) (write_at parts leaf bytes)

-- The destination is empty.
abbrev pub start : ℕ → Progress
start room = record { dest = nil; room = room; file_count = 0; outputs = [] }

module _ (sha256 : List ℕ → String) where
  -- `_write_dest`: `ENOSPC` where the bytes do not fit.
  unfoldable pub write_dest : List String → String → List ℕ → Progress → Result Reason Progress
  unfolding write_at join_path
  write_dest rel name bytes p = do
    dest ← write_at rel name bytes p.dest
    require (leb (length bytes) p.room) cap_exceeded
    ok (record {
      dest = dest;
      room = p.room - length bytes;
      file_count = p.file_count;
      outputs =
          p.outputs
          ++ (record { path = join_path rel name; sha256 = sha256 bytes; bytes = length bytes }
              ∷ []);
    })

  -- The loop over `sorted(filenames)` of the directory `rel`.
  unfoldable pub collect_files : List String → List Leaf → Progress → Result Reason Progress
  unfolding open_source
  collect_files rel [] p = ok p
  collect_files rel ((name, node) ∷ leaves) p = do
    require (leb (p.file_count + 1) max_files) cap_exceeded
    require (leb (length rel + 1) max_depth) path_traversal
    bytes ← open_source node
    p' ← write_dest rel name bytes (record p { file_count = p.file_count + 1 })
    collect_files rel leaves p'

  -- The body of the loop over the directories.
  unfoldable pub collect_dir : List String → Listing → Progress → Result Reason Progress
  unfolding check_dirnames filenames sort_leaves
  collect_dir rel listing p = do
    require (leb (length rel) max_depth) path_traversal
    check_dirnames listing
    collect_files rel (sort_leaves (filenames listing)) p

  -- The subdirectories of a directory, each with its own.
  unfoldable pub collect_subdirs : List String → Listing → Progress → Result Reason Progress
  collect_subdirs rel finished p = ok p
  collect_subdirs rel (listed name (subdir listing) rest) p = do
    p' ← collect_dir (rel ++ (name ∷ [])) listing p
    p'' ← collect_subdirs (rel ++ (name ∷ [])) listing p'
    collect_subdirs rel rest p''
  collect_subdirs rel (listed name closed_dir rest) p = err bad_output
  collect_subdirs rel (listed name node rest) p = collect_subdirs rel rest p

  -- `collect`, into an empty destination with room for some bytes.
  unfoldable pub collect : Listing → ℕ → Result Reason Progress
  collect out_dir room = do p ← collect_dir [] out_dir (start room); collect_subdirs [] out_dir p
