-- ===== src/Commitlog/Reconcile.antt =====
-- The repair of the store at boot: `reconcile_on_boot` of box/lib/causb/commitlog.py.
use nebula_ca_harness.Prelude.{ℕ, max, String, Option, none, some, List, [], ◌∷◌, ◌++◌, string_eq}
use nebula_ca_harness.Prelude.Dict.{Dict, keys, lookup}
use nebula_ca_harness.Effect.{pure, step, read, ◌>>=◌, ◌>>◌}
use nebula_ca_harness.Commitlog.{
  Io, fsync, remove_tree, done_of, sort_names, Item, Entry, Codec, dir, symlink, other,
}

-- `max_seq` and `consumed` of `reconcile_on_boot`.
pub record Scan : Type 0 where
  pub max_seq : ℕ
  pub ids : List String

module _ (c : Codec) where
  -- A job's directory, with the seq of its marker.
  unfoldable pub visit_dir : String → Dict String Item → Option ℕ → Scan → Io Scan
  unfolding remove_tree
  visit_dir name items none scan = do remove_tree name items; pure scan
  visit_dir name items (some seq) scan =
      pure (record { max_seq = max scan.max_seq seq; ids = scan.ids ++ (name ∷ []) })

  -- One turn of the loop. A symbolic link and what is no directory are left alone.
  unfoldable pub visit : String → Option Entry → Scan → Io Scan
  unfolding visit_dir done_of
  visit name none scan = pure scan
  visit name (some (dir items)) scan = visit_dir name items (done_of c.loads items) scan
  visit name (some symlink) scan = pure scan
  visit name (some other) scan = pure scan

  unfoldable pub scan_jobs : List String → Scan → Io Scan
  unfolding visit
  scan_jobs [] scan = pure scan
  scan_jobs (name ∷ names) scan = do
    entry ← read (λ s. lookup name s.results)
    scan' ← visit name entry scan
    scan_jobs names scan'

  -- Each rewritten file of the caches appears in one step, its rename.
  unfoldable pub reconcile_on_boot : Io (Unit {0})
  unfolding sort_names scan_jobs
  reconcile_on_boot = do
    names ← read (λ s. sort_names (keys s.results))
    scan ← scan_jobs names (record { max_seq = 0; ids = [] })
    step (λ s. record s { seq = max s.seq scan.max_seq })
    step (λ s. record s { consumed = scan.ids })
    fsync
