-- ===== src/Recovery.antt =====
-- box/lib/causb/recovery.py: the public recovery kit that a blank stick gets. An action records what
-- stands at CA-RECOVERY on the stick after each step (see `Effect`). The box's files, the stick's
-- file system and the tools are the parameter `World`; the directories of the box do not end in a
-- slash. The old kit goes file by file, and a file of the new one grows byte by byte, so that the steps
-- have every state between; a removal or a write that fails stops there. Directories without files
-- and permission bits are left out.
pub mod Info
pub mod Kit
pub mod Allowed
pub mod Public
use Prim.Native.String.{◌++◌ as ◌<>◌}
use nebula_ca_harness.Prelude.{
  ℕ, String, Bool, true, false, not, ◌&&◌, Option, none, some, List, [], ◌∷◌, ◌++◌, all, contains,
  ◌==◌, string_eq, if◌then◌else◌, Result, ok, err,
}
use nebula_ca_harness.Prelude.Dict.{Dict, put}
use nebula_ca_harness.Json.{ℤ, Value}
use nebula_ca_harness.Effect.{Action, pure, raise, step, read, ◌>>=◌, ◌>>◌, check}
use nebula_ca_harness.Dispatch.{is_true}

abbrev pub Bytes : Type 0
Bytes = List ℕ

-- `RecoveryError.reason`
pub data Reason : Type 0 where
  unsafe_dest src_missing write_failed : Reason

-- What stands at a path of the box: a regular file with its bytes (`none` where they cannot be read),
-- or a symbolic link, directory or device.
pub data File : Type 0 where
  regular : Option Bytes → File
  irregular : File

-- What stands at `CA-RECOVERY` on the stick: a directory is the files below it, by their paths.
pub data Place : Type 0 where
  absent : Place
  folder : Dict String Bytes → Place
  link : Place
  no_folder : Place

abbrev pub Io : Type 0 → Type 0
Io = Action Place Reason

-- What a tool printed, with its exit code.
pub record Printed : Type 0 where
  pub returncode : ℤ
  pub stdout : String

pub record World : Type 0 where
  -- `os.lstat` and the bytes of a file of the box.
  pub files : String → Option File
  -- On the stick: the removal of a file of the old kit, and of its emptied directory; a new directory,
  -- a new file, and room for one more byte after those that a file has.
  pub can_remove : String → Bool
  pub can_clear : Bool
  pub can_make : String → Bool
  pub can_create : String → Bool
  pub can_fill : String → Bytes → Bool
  -- `shutil.which`, `_run_capture`, and `open(path, "rb").read()` of a tool.
  pub which : String → Option String
  pub capture : List String → Option Printed
  pub binary : String → Option Bytes
  -- `int(f.read().strip())` of the file `seq`, `none` for an exception.
  pub seq : Option ℤ
  pub year : ℕ
  pub generated_at : String
  pub python_version : String
  pub loads : String → Option Value
  -- `json.dump(..., indent=2, sort_keys=True)`, the encoding of a text file, and `hashlib.sha256`.
  pub dumps : Value → String
  pub encode : String → Bytes
  pub sha256 : Bytes → String

-- The directories that `write` is called with.
pub record Dirs : Type 0 where
  pub src : String
  pub anchors_dir : String
  pub ca_dir : String

-- A copy: the path on the box and the path in the kit.
pub record Copy : Type 0 where
  pub source : String
  pub target : String

-- `TEMPLATES`, `TOOLS`, `CAUSB_MODULES` and `_ANCHOR_FILES`
abbrev pub templates : List String
templates =
    "README-OPERATOR.md" ∷ "README-AGENT.md" ∷ "RECOVERY-CEREMONY.md" ∷ "setup-new-stick.sh" ∷ []

abbrev pub tools : List String
tools = "caj" ∷ "caj-recv" ∷ []

abbrev pub causb_modules : List String
causb_modules = "__init__.py" ∷ "config.py" ∷ "manifest.py" ∷ []

abbrev pub anchor_files : List String
anchor_files = "allowed_signers" ∷ "breakglass_signers" ∷ []

-- The copies of the names of a directory.
abbrev pub copies : String → String → List String → List Copy
copies source target [] = []
copies source target (name ∷ names) =
    record { source = source <> name; target = target <> name } ∷ copies source target names

abbrev pub template_copies : Dirs → List Copy
template_copies d = copies (d.src <> "/recovery-kit/") "" templates

abbrev pub tool_copies : Dirs → List Copy
tool_copies d = copies (d.src <> "/") "" tools

abbrev pub module_copies : Dirs → List Copy
module_copies d = copies (d.src <> "/causb/") "causb/" causb_modules

abbrev pub anchor_copies : Dirs → List Copy
anchor_copies d = copies (d.anchors_dir <> "/") "" anchor_files

abbrev pub ca_crt : Dirs → Copy
ca_crt d = record { source = d.ca_dir <> "/ca.crt"; target = "ca.crt" }

abbrev pub ca_registry : Dirs → Copy
ca_registry d = record { source = d.ca_dir <> "/registry.json"; target = "registry.json" }

abbrev pub is_regular_file : Option File → Bool
is_regular_file (some (regular b)) = true
is_regular_file f = false

-- The files of the kit.
abbrev pub kit_of : Place → Dict String Bytes
kit_of (folder kit) = kit
kit_of p = []

unfoldable pub on_kit : (Dict String Bytes → Dict String Bytes) → Place → Place
on_kit f (folder kit) = folder (f kit)
on_kit f p = p

abbrev pub bytes_of : Option File → Option Bytes
bytes_of (some (regular b)) = b
bytes_of f = none

module _ (w : World) where
  -- `_is_regular`
  unfoldable pub is_regular : String → Bool
  is_regular path = is_regular_file (w.files path)

  -- `_require_src`
  unfoldable pub is_staged : List Copy → Bool
  unfolding is_regular
  is_staged [] = true
  is_staged (c ∷ cs) = is_regular c.source && is_staged cs

  unfoldable pub require_src : Dirs → Io (Unit {0})
  unfolding is_staged
  require_src d =
      check (is_staged (tool_copies d ++ (module_copies d ++ template_copies d))) src_missing

  -- `os.makedirs` of the kit's directory.
  abbrev pub make_dest : Io (Unit {0})
  make_dest = check (w.can_make "") write_failed >> step (λ p. folder [])

  -- `shutil.rmtree`, over the files in the order of the directory's listing.
  unfoldable pub remove_files : Dict String Bytes → Io (Unit {0})
  remove_files [] = check w.can_clear write_failed >> step (λ p. absent)
  remove_files ((name, b) ∷ kit) = do
    check (w.can_remove name) write_failed
    step (λ p. folder kit)
    remove_files kit

  unfoldable pub clear_dest : Place → Io (Unit {0})
  unfolding remove_files
  clear_dest absent = pure tt
  clear_dest (folder kit) = remove_files kit
  clear_dest link = raise unsafe_dest
  clear_dest no_folder = raise unsafe_dest

  -- `_prepare_dest`
  unfoldable pub prepare_dest : Io (Unit {0})
  unfolding clear_dest
  prepare_dest = do p ← read (λ p. p); clear_dest p; make_dest

  -- The bytes that a file gets after those it has: `shutil.copyfileobj`, `json.dump` and `f.write`.
  unfoldable pub fill_file : String → Bytes → Bytes → Io (Unit {0})
  unfolding on_kit
  fill_file path have [] = pure tt
  fill_file path have (b ∷ bytes) = do
    check (w.can_fill path have) write_failed
    step (on_kit (put path (have ++ (b ∷ []))))
    fill_file path (have ++ (b ∷ [])) bytes

  -- `open(path, "w")`, and the bytes.
  unfoldable pub write_file : String → Bytes → Io (Unit {0})
  unfolding fill_file
  write_file path bytes = do
    check (w.can_create path) write_failed
    step (on_kit (put path []))
    fill_file path [] bytes

  abbrev pub write_read : String → Option Bytes → Io (Unit {0})
  write_read target none = raise write_failed
  write_read target (some bytes) = write_file target bytes

  -- `_copy_nofollow`
  unfoldable pub copy_nofollow : Copy → Io (Unit {0})
  unfolding write_file
  copy_nofollow c = write_read c.target (bytes_of (w.files c.source))

  unfoldable pub copy_all : List Copy → Io (Unit {0})
  unfolding copy_nofollow
  copy_all [] = pure tt
  copy_all (c ∷ cs) = do copy_nofollow c; copy_all cs

  -- `if _is_regular(path): _copy_nofollow(path, ...)`
  unfoldable pub copy_present : Copy → Io (Unit {0})
  unfolding copy_nofollow is_regular
  copy_present c = if is_regular c.source then copy_nofollow c else pure tt

  unfoldable pub copy_all_present : List Copy → Io (Unit {0})
  unfolding copy_present
  copy_all_present [] = pure tt
  copy_all_present (c ∷ cs) = do copy_present c; copy_all_present cs
