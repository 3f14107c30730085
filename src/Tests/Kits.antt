-- ===== src/Tests/Kits.antt =====
-- A recovery kit by box/lib/causb/recovery.py on a blank stick, after two presses, and a registry that
-- box/lib/causb/registry.py saves.
use nebula_ca_harness.Prelude.{
  ◌≡◌, ◌⊎◌, refl, Bool, true, false, some, none, [], err, ◌∷◌, All, string_eq, ok, ◌==◌,
  if◌then◌else◌,
}
use nebula_ca_harness.Prelude.Dict.{put, lookup, remove}
use nebula_ca_harness.Json.{obj, str, Fields, end, field, get, pos, bool}
use nebula_ca_harness.Effect.{◌>>=◌}
use nebula_ca_harness.Effect.Triple.{Post}
use nebula_ca_harness.Dispatch.{is_true}
use nebula_ca_harness.Commitlog.{Codec}
use nebula_ca_harness.Registry.File.{
  is_well_formed, are_hosts, load, save, save-IsAtomic, Op, os_error, IsOldOrNew, rename_tmp,
}
use nebula_ca_harness.Recovery.{
  World, Dirs, regular, Place, folder, on_kit, remove_files, clear_dest, fill_file, is_regular,
  is_staged, require_src, prepare_dest, write_file, copy_nofollow, copy_all, copy_present,
  copy_all_present,
}
use nebula_ca_harness.Recovery.Kit.{copy_registry, write_metadata, assemble_kit, write}
use nebula_ca_harness.Recovery.Allowed.{IsWhole, Left}
use nebula_ca_harness.Recovery.Public.{write-IsPublic}

abbrev pub box : World
box = record {
  files = λ path. some (regular (some (if path == "/ca/registry.json" then 2 ∷ [] else 1 ∷ [])));
  can_remove = λ name. true;
  can_clear = true;
  can_make = λ path. true;
  can_create = λ path. true;
  can_fill = λ path have. true;
  which = λ name. none;
  capture = λ argv. none;
  binary = λ path. none;
  seq = some (pos 4);
  year = 2026;
  generated_at = "2026-01-01T00:00:00+00:00";
  python_version = "3.13";
  loads = λ s. none;
  dumps = λ v. "{}";
  encode = λ s. [];
  sha256 = λ b. "0";
}

abbrev pub dirs : Dirs
dirs = record { src = "/src"; anchors_dir = "/etc"; ca_dir = "/ca" }

-- A kit of before.
abbrev old : Place
old = folder (("ca.crt", 7 ∷ []) ∷ ("notes.txt", 8 ∷ 9 ∷ []) ∷ [])

write-IsPublic_example :
    All (Left box dirs (bool true) old) (write box dirs (bool true) old).trace
    × Post
        (Left box dirs (bool true) old)
        (λ _. IsWhole box dirs (bool true))
        (write box dirs (bool true) old).result
        (write box dirs (bool true) old).state
write-IsPublic_example = write-IsPublic box dirs (bool true) old

-- The registry is in the kit of this run.
kit_returns : (write box dirs (bool true) old).result ≡ ok tt
unfolding remove_files clear_dest fill_file write require_src is_staged is_regular prepare_dest
    assemble_kit copy_all copy_nofollow write_file on_kit put copy_all_present copy_present
    copy_registry is_true write_metadata ◌>>=◌
kit_returns = refl

-- A registry with one host, and a text for it.
abbrev registry : Fields
registry =
    field "overlay_cidr" (str "10.66.0.0/16")
      (field "hosts" (obj (field "lighthouse" (obj (field "ip" (str "10.66.0.9") end)) end)) end)

abbrev registry_codec : Codec
registry_codec = record { loads = λ b. some (obj registry); dumps = λ v. 1 ∷ []; sha256 = λ b. "0" }

registry_fits : is_well_formed (obj registry) ≡ true
unfolding is_well_formed are_hosts get
registry_fits = refl

-- The same registry before `json.dumps` sorts its keys, on a disk that is full.
abbrev unsorted : Fields
unsorted =
    field "hosts" (obj (field "lighthouse" (obj (field "ip" (str "10.66.0.9") end)) end))
      (field "overlay_cidr" (str "10.66.0.0/16") end)

abbrev full_disk : Op → Bool
full_disk Op.fill = false
full_disk o = true

save-IsAtomic_example :
    All (IsOldOrNew registry_codec registry []) (save registry_codec full_disk unsorted []).trace
    × Post
        (IsOldOrNew registry_codec registry [])
        (λ _ s. load registry_codec s ≡ ok registry)
        (save registry_codec full_disk unsorted []).result
        (save registry_codec full_disk unsorted []).state
    × (((save registry_codec full_disk unsorted []).result ≡ ok tt)
        ⊎ ((o : Op) × (full_disk o ≡ false)
            × ((save registry_codec full_disk unsorted []).result ≡ err os_error)))
save-IsAtomic_example =
    save-IsAtomic registry_codec full_disk unsorted registry [] refl registry_fits

-- On a disk that works `save` returns.
save_returns : (save registry_codec (λ o. true) unsorted []).result ≡ ok tt
unfolding save rename_tmp put lookup remove ◌>>=◌
save_returns = refl
