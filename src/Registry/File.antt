-- ===== src/Registry/File.antt =====
-- registry.json on the disk: `_is_well_formed`, `load` and `save` (box/lib/causb/registry.py). The
-- directory is a dict of its files, and registry.json is a regular file if it is there. What `load`
-- returns is the dict as it was read.
use nebula_ca_harness.Prelude.{
  String, ◌≡◌, refl, ◌∙◌, ◌⊎◌, inl, inr, Bool, true, false, ◌&&◌, Option, none, some, [], All,
  string_eq, if◌then◌else◌, Result, ok, err, ap, Bool-cases,
}
use nebula_ca_harness.Prelude.Dict.{Dict, lookup, remove, put, lookup-put}
use nebula_ca_harness.Json.{Value, str, obj, Fields, end, field, get}
use nebula_ca_harness.Effect.{Action, step, check, ◌>>=◌, ◌>>◌}
use nebula_ca_harness.Effect.Triple.{Triple, Post, Triple-step, Triple-check, Triple-bind}
use nebula_ca_harness.Commitlog.{Bytes, Codec}
use nebula_ca_harness.Registry.{empty_registry}

-- `RegistryError("bad_registry")`, and the `OSError` of a file operation.
pub data Fault : Type 0 where
  bad_registry os_error : Fault

-- The file operations of `save`, which may fail.
pub data Op : Type 0 where
  make_dir create fill sync replace sync_dir : Op

abbrev pub Dir : Type 0
Dir = Dict String Bytes

abbrev pub Io : Type 0 → Type 0
Io = Action Dir Fault

abbrev pub is_str : Value → Bool
is_str (str s) = true
is_str v = false

abbrev pub is_host : Value → Bool
is_host (obj host) = is_str (get host "ip")
is_host v = false

-- The loop over the hosts.
unfoldable pub are_hosts : Fields → Bool
unfolding get
are_hosts end = true
are_hosts (field name host hosts) = is_host host && are_hosts hosts

abbrev pub is_hosts : Value → Bool
is_hosts (obj hosts) = are_hosts hosts
is_hosts v = false

-- `_is_well_formed`
unfoldable pub is_well_formed : Value → Bool
unfolding get are_hosts
is_well_formed (obj reg) = is_str (get reg "overlay_cidr") && is_hosts (get reg "hosts")
is_well_formed v = false

abbrev pub file_name : String
file_name = "registry.json"

abbrev pub tmp_name : String
tmp_name = "registry.json.tmp"

-- `_empty_registry`
abbrev pub empty_fields : Fields
empty_fields = field "overlay_cidr" (str empty_registry.overlay_cidr) (field "hosts" (obj end) end)

abbrev pub checked : Value → Result Fault Fields
checked (obj reg) = if is_well_formed (obj reg) then ok reg else err bad_registry
checked v = err bad_registry

abbrev pub decoded : Option Value → Result Fault Fields
decoded none = err bad_registry
decoded (some v) = checked v

-- `os.replace(tmp, name)`
unfoldable pub rename_tmp : Dir → Dir
rename_tmp items = elim (lookup tmp_name items) [
  | none ↦ items
  | some b ↦ put file_name b (remove tmp_name items)
]

module _ (c : Codec) where
  abbrev pub read_file : Option Bytes → Result Fault Fields
  read_file none = ok empty_fields
  read_file (some b) = decoded (c.loads b)

  unfoldable pub load : Dir → Result Fault Fields
  unfolding is_well_formed
  load items = read_file (lookup file_name items)

  -- `save`, where `works` tells which operations succeed: `os.makedirs`, `_atomic_write` and `_fsync_dir`.
  -- The bytes of the temporary file are one step; one that fails leaves it empty.
  unfoldable pub save : (Op → Bool) → Fields → Io (Unit {0})
  unfolding rename_tmp
  save works reg = do
    check (works make_dir) os_error
    check (works create) os_error
    step (put tmp_name [])
    check (works fill) os_error
    step (put tmp_name (c.dumps (obj reg)))
    check (works sync) os_error
    check (works replace) os_error
    step rename_tmp
    check (works sync_dir) os_error

-- The temporary file is not what `load` reads.
load-put_tmp : (c : Codec) (b : Bytes) (items : Dir) → load c (put tmp_name b items) ≡ load c items
unfolding load
load-put_tmp c b items = rw (lookup-put file_name tmp_name b items) refl

rename_tmp-put :
    (b : Bytes) (items : Dir)
    → rename_tmp (put tmp_name b items) ≡ put file_name b (remove tmp_name (put tmp_name b items))
unfolding rename_tmp
rename_tmp-put b items = rw (lookup-put tmp_name tmp_name b items, rename_tmp) refl

load-put :
    (c : Codec) (reg : Fields) (b : Bytes) (items : Dir)
    → c.loads b ≡ some (obj reg)
    → is_well_formed (obj reg) ≡ true
    → load c (put file_name b items) ≡ ok reg
unfolding load
load-put c reg b items law good = rw (lookup-put file_name file_name b items, law, good) refl

load-rename_tmp :
    (c : Codec) (reg saved : Fields) (items : Dir)
    → c.loads (c.dumps (obj reg)) ≡ some (obj saved)
    → is_well_formed (obj saved) ≡ true
    → load c (rename_tmp (put tmp_name (c.dumps (obj reg)) items)) ≡ ok saved
load-rename_tmp c reg saved items law good =
    rw (rename_tmp-put (c.dumps (obj reg)) items) (load-put c saved (c.dumps (obj reg)) _ law good)

-- `load` reads what it read in `items`, or the registry that is saved.
abbrev pub IsOldOrNew : Codec → Fields → Dir → Dir → Type 0
IsOldOrNew c saved items s = (load c s ≡ load c items) ⊎ (load c s ≡ ok saved)

module _ (c : Codec) (works : Op → Bool) (reg saved : Fields) (items : Dir)
    (law : c.loads (c.dumps (obj reg)) ≡ some (obj saved))
    (good : is_well_formed (obj saved) ≡ true) where
  abbrev IsOld : Dir → Type 0
  IsOld s = load c s ≡ load c items

  abbrev IsNew : Dir → Type 0
  IsNew s = load c s ≡ ok saved

  abbrev Left : Dir → Type 0
  Left = IsOldOrNew c saved items

  -- The temporary file is complete.
  abbrev IsReady : Dir → Type 0
  IsReady s = (before : Dir) × (s ≡ put tmp_name (c.dumps (obj reg)) before) × IsOld before

  check-Triple :
      (P : Dir → Type 0) (o : Op)
      → ((s : Dir) → P s → Left s)
      → Triple P Left (λ _. P) (check (works o) os_error)
  check-Triple P o h = Triple-check (works o) os_error (λ s p _. p) h

  IsReady-Left : (s : Dir) → IsReady s → Left s
  IsReady-Left s (before, e, old) =
      inl (ap (load c) e ∙ load-put_tmp c (c.dumps (obj reg)) before ∙ old)

  IsReady-IsNew : (s : Dir) → IsReady s → IsNew (rename_tmp s)
  IsReady-IsNew s (before, e, old) =
      ap (λ t. load c (rename_tmp t)) e ∙ load-rename_tmp c reg saved before law good

  save-Triple : Triple IsOld Left (λ _. IsNew) (save c works reg)
  unfolding save
  save-Triple = Triple-bind _ _ (check-Triple IsOld make_dir λ s h. inl h) λ _.
      Triple-bind _ _ (check-Triple IsOld create λ s h. inl h) λ _.
        Triple-bind _ _
          (Triple-step {R = λ _. IsOld} (put tmp_name [])
            λ s h. let o = load-put_tmp c [] s ∙ h in (inl o, o))
          λ _. Triple-bind _ _ (check-Triple IsOld fill λ s h. inl h) λ _.
            Triple-bind _ _
              (Triple-step {R = λ _. IsReady} (put tmp_name (c.dumps (obj reg))) λ s h.
                let r : IsReady (put tmp_name (c.dumps (obj reg)) s) = (s, refl, h) in
                (IsReady-Left _ r, r))
              λ _. Triple-bind _ _ (check-Triple IsReady sync IsReady-Left) λ _.
                Triple-bind _ _ (check-Triple IsReady replace IsReady-Left) λ _.
                  Triple-bind _ _
                    (Triple-step {R = λ _. IsNew} rename_tmp
                      λ s r. let n = IsReady-IsNew s r in (inr n, n))
                    λ _. check-Triple IsNew sync_dir λ s h. inr h

  -- An action raises only where an operation fails.
  abbrev IsExcused : Io (Unit {0}) → Type 0
  IsExcused m =
      (s : Dir)
      → ((m s).result ≡ ok tt) ⊎ ((o : Op) × (works o ≡ false) × ((m s).result ≡ err os_error))

  then-IsExcused : (m k : Io (Unit {0})) → IsExcused m → IsExcused k → IsExcused (m >> k)
  unfolding ◌>>=◌
  then-IsExcused m k h h' s = elim (h s) [
    | inl e ↦ rw (e, ◌>>=◌) (h' (m s).state)
    | inr (o, f, e) ↦ inr (o, f, rw (e, ◌>>=◌) refl)
  ]

  check-IsExcused : (o : Op) → IsExcused (check (works o) os_error)
  check-IsExcused o s = elim (Bool-cases (works o)) [
    | inl e ↦ inl (rw e refl)
    | inr e ↦ inr (o, e, rw e refl)
  ]

  step-IsExcused : (f : Dir → Dir) → IsExcused (step f)
  step-IsExcused f s = inl refl

  save-IsExcused : IsExcused (save c works reg)
  unfolding save
  save-IsExcused = then-IsExcused _ _ (check-IsExcused make_dir) (
      then-IsExcused _ _ (check-IsExcused create) (
        then-IsExcused _ _ (step-IsExcused (put tmp_name [])) (
          then-IsExcused _ _ (check-IsExcused fill) (
            then-IsExcused _ _ (step-IsExcused (put tmp_name (c.dumps (obj reg)))) (
              then-IsExcused _ _ (check-IsExcused sync) (
                then-IsExcused _ _ (check-IsExcused replace)
                  (then-IsExcused _ _ (step-IsExcused rename_tmp) (check-IsExcused sync_dir))))))))

  -- A power loss at any file operation of `save`, or an `OSError` of one, leaves a file from which
  -- `load` reads what it read before or the registry that is saved. `save` returns unless an operation
  -- fails, and when it returns `load` reads the registry that is saved. That is what `json` reads
  -- back from the text that it wrote, and it has to be well formed.
  pub save-IsAtomic :
      All (IsOldOrNew c saved items) (save c works reg items).trace
      × Post
          (IsOldOrNew c saved items)
          (λ _ s. load c s ≡ ok saved)
          (save c works reg items).result
          (save c works reg items).state
      × (((save c works reg items).result ≡ ok tt)
          ⊎ ((o : Op) × (works o ≡ false) × ((save c works reg items).result ≡ err os_error)))
  save-IsAtomic = let (t, p) = save-Triple.at items refl in (t, p, save-IsExcused items)
