-- ===== src/Lib.antt =====
-- The certificate authority harness of box/: a headless machine that takes signed jobs from a USB
-- stick, runs them and delivers their results. This library models the Python modules of
-- box/lib/causb that decide what is trusted, what runs, and what is kept.
--
-- How a job goes through them: `mountctl` mounts the stick, `verify` checks the signatures,
-- `extract` unpacks the archive, `manifest` parses manifest.json, `freshness` asks the store of
-- `commitlog` whether the job is new, `button` waits for the operator's confirmation, `led` shows
-- the state, `dispatch` runs the child, `registry` keeps the hosts' addresses, `collect` gathers
-- what the child left, and `commitlog` commits the result. After a power loss `commitlog` repairs its
-- store at boot. `recovery` writes a public kit to a blank stick, and `nebulacli` calls nebula-cert for
-- the handlers. box/bin/ca-usb-run composes these, and delivers the committed result to the stick.
--
-- Files:
--   Prelude, Prelude/*     shared names, Boolean tests, lists, equality, results, dictionaries
--   Effect, Effect/Triple  actions that record the state after each step, and their crash triples
--   Json, Names, Text      Python's JSON values and the string methods that the program uses
--   Manifest, Manifest/*   box/lib/causb/manifest.py (`parse`, `_is_uuid4`)
--   Freshness, Freshness/* box/lib/causb/freshness.py (`check`)
--   Commitlog, Commitlog/* box/lib/causb/commitlog.py (`commit`, `cached_result`,
--                          `reconcile_on_boot`)
--   Dispatch, Dispatch/*   box/lib/causb/dispatch.py (`run`, `_run_script`, `_run_vetted_handler`)
--   Registry, Registry/*   box/lib/causb/registry.py (`allocate`, `record`, `reconcile`, `load`, `save`)
--   Extract, Extract/*     box/lib/causb/extract.py (`extract`, `_safe_name`, `_write_member`)
--   Verify, Verify/Cosign  box/lib/causb/verify.py (`verify`, `verify_breakglass_primary`,
--                          `verify_cosign`)
--   Mountctl, Mountctl/*   box/lib/causb/mountctl.py (`mount_ro`, `mount_rw`, `umount`)
--   Button, Button/*       box/lib/causb/button.py (`_parse_block`, `resolve_k1_path`,
--                          `_PressWaiter`, `await_press`)
--   Led, Led/Writes        box/lib/causb/led.py (`plan`, `set`)
--   Collect, Collect/*     box/lib/causb/collect.py (`collect`, `_write_dest`)
--   Recovery, Recovery/*   box/lib/causb/recovery.py (`write`, `_assemble_kit`)
--   Nebulacli, Nebulacli/* box/lib/causb/nebulacli.py (`ca`, `sign`, `print_json`, `version`)
--   Orchestrator, Orchestrator/*
--                          box/bin/ca-usb-run (`_process_mounted`, `_replay`,
--                          `_commit_and_deliver`, `_deliver_and_finish`, `_run_locked`)
--   Tests, Tests/*         concrete runs
--
-- State: `Commitlog.Store` is the results directory with the files `seq` and `consumed-jobs`; each
-- file operation of `commit` is one step, so that the trace of a run holds every state that a power
-- loss can leave. `Registry.Registry` is registry.json. `Extract.Tree` is the destination of an
-- extraction. `Orchestrator.Outcome` is the list of what a run does to the stick, the LED, the
-- audit log and the children, with the store after it; in it the answers of `mountctl` and `button`
-- are Booleans of `Orchestrator.World`, and the others are called as they are modelled. A world
-- outside of the program (json, ssh-keygen, tarfile, mount, the kernel, the account database) is a
-- parameter of the definitions that use it.
--
-- Bounds: the caps of box/lib/causb/config.py are written out. Loops are structural recursion, but
-- for `feed`, whose fuel is the number of bytes: a turn takes 24 of them. The bits of a key token are
-- read four for each of its digits.
--
-- Not modelled: the order in which unsynced metadata reaches a disk, permission bits, console
-- messages, the module audit, the lock, the boot entry and the faults of the LED and the button in
-- box/bin/ca-usb-run, the handlers of box/handlers and the operator's tools in mac/.
pub mod Prelude
pub mod Effect
pub mod Json
pub mod Names
pub mod Manifest
pub mod Commitlog
pub mod Freshness
pub mod Dispatch
pub mod Registry
pub mod Text
pub mod Verify
pub mod Mountctl
pub mod Extract
pub mod Led
pub mod Button
pub mod Tests
pub mod Collect
pub mod Orchestrator
pub mod Recovery
pub mod Nebulacli
