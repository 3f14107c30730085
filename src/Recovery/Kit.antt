-- ===== src/Recovery/Kit.antt =====
-- `_assemble_kit` and `write` (box/lib/causb/recovery.py).
use nebula_ca_harness.Prelude.{if◌then◌else◌}
use nebula_ca_harness.Json.{Value}
use nebula_ca_harness.Effect.{pure, ◌>>◌, check}
use nebula_ca_harness.Dispatch.{is_true}
use nebula_ca_harness.Recovery.{
  write_failed, World, Dirs, Io, template_copies, tool_copies, module_copies, anchor_copies, ca_crt,
  ca_registry, is_regular, require_src, prepare_dest, write_file, copy_all, copy_present,
  copy_all_present,
}
use nebula_ca_harness.Recovery.Info.{box_info, tool_versions}

module _ (w : World) (d : Dirs) where
  -- `if confirm2 is True: ...`
  unfoldable pub copy_registry : Value → Io (Unit {0})
  unfolding copy_present is_true
  copy_registry confirm2 = if is_true confirm2 then copy_present w (ca_registry d) else pure tt

  -- `_write_box_info` and `_write_tool_versions`
  unfoldable pub write_metadata : Io (Unit {0})
  unfolding write_file box_info tool_versions is_regular
  write_metadata = do
    write_file w "box-info.json" (box_info w (ca_crt d).source (is_regular w (ca_crt d).source))
    write_file w "TOOL-VERSIONS.md" (tool_versions w)

  -- `_assemble_kit`
  unfoldable pub assemble_kit : Value → Io (Unit {0})
  unfolding copy_all copy_all_present copy_present copy_registry write_metadata
  assemble_kit confirm2 = do
    copy_all w (template_copies d)
    copy_all w (tool_copies d)
    check (w.can_make "causb") write_failed
    copy_all w (module_copies d)
    copy_all_present w (anchor_copies d)
    copy_present w (ca_crt d)
    copy_registry confirm2
    write_metadata

  unfoldable pub write : Value → Io (Unit {0})
  unfolding require_src prepare_dest assemble_kit
  write confirm2 = do require_src w d; prepare_dest w; assemble_kit confirm2
