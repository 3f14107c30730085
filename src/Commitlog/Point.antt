-- ===== src/Commitlog/Point.antt =====
-- The DONE marker is the single commit point of `commit` (box/lib/causb/commitlog.py).
use Prim.Native.String.{◌++◌ as ◌<>◌}
use nebula_ca_harness.Prelude.{
  ℕ, ◌≤◌, String, ◌≡◌, ◌≢◌, sym, ◌⊎◌, inl, inr, true, not, Option, none, some, Option-cases, List,
  [], ◌∷◌, ◌++◌, All, contains, contains-append, arith, string_eq, str_iff, str_refl,
}
use nebula_ca_harness.Prelude.Dict.{Dict, lookup, remove, lookup-nil, lookup-put, lookup-remove}
use nebula_ca_harness.Json
use nebula_ca_harness.Json.{pos, Value, int, obj, Fields, end, field, get}
use nebula_ca_harness.Effect.{◌>>=◌}
use nebula_ca_harness.Effect.Triple.{
  Post, Triple-pure, Triple-raise, Triple-step, Triple-check, Triple-bind, Triple-given,
  Triple-read, Triple-crash,
}
use nebula_ca_harness.Commitlog.{
  Item, file, Entry, dir, symlink, other, Store, Codec, IsLawful, done_value, Output, in_dir,
  on_dir, done_of, read_done, remove_items, remove_tree, wipe_stale, make_job_dir, status_dict,
  atomic_write, write_done, bump_caches, commit_new, commit, unless_done, job_dir_is_symlink,
  is_safe_output, is_symlink, is_safe_job_id, Bytes,
}
use nebula_ca_harness.Commitlog.Atomic.{
  InDir, Holds, NoDone, atomic_write-Holds, fsync-Holds, written, lookup-written,
}
use nebula_ca_harness.Commitlog.Names.{tmp-ne-status}
use nebula_ca_harness.Commitlog.Outputs.{
  Stored, Stored-written, NoDone-written, Partial, Apart, describe_all, write_outputs-Holds,
  safe_output-ne-status, safe_output-ne-done,
}

-- No output has the name of a temporary file of the control files, and the outputs are apart (see
-- `Apart`).
abbrev pub IsWritable : List Output → Type 0
IsWritable os =
    All (λ o. "DONE" <> ".tmp" ≢ o.path) os
    × All (λ o. "status.json" <> ".tmp" ≢ o.path) os
    × Apart [] os

apart_of_control :
    (name : String) (items : Dict String Item) (os : List Output)
    → ((path : String) → is_safe_output path ≡ true → path ≢ name)
    → All (λ o. name <> ".tmp" ≢ o.path) os
    → All (Stored items) os
    → All (λ o. (name ≢ o.path) × (name <> ".tmp" ≢ o.path)) os
apart_of_control name items [] ne far stored = tt
apart_of_control name items (o ∷ os) ne (x, far) ((there, safe), stored) =
    ((λ e. ne o.path safe (sym e), x), apart_of_control name items os ne far stored)

module _ (c : Codec) (j : String) where
  -- A reader does not take the job for committed.
  abbrev pub IsPending : Store → Type 0
  IsPending s = read_done c.loads (lookup j s.results) ≡ none

  NoDone-IsPending : (s : Store) → InDir j NoDone s → IsPending s
  unfolding read_done
  NoDone-IsPending s (items, there, fresh) = rw there (ground arith)

  read_done-remove :
      (name : String) (e : Entry)
      → read_done c.loads (some e) ≡ none
      → read_done c.loads (some (on_dir (remove name) e)) ≡ none
  unfolding read_done on_dir
  read_done-remove name (dir items) h = ground (arith, lookup-remove "DONE" name items)
  read_done-remove name e h = h

  lookup-in_dir :
      (f : Dict String Item → Dict String Item) (s : Store) (e : Entry)
      → lookup j s.results ≡ some e
      → lookup j (in_dir j f s).results ≡ some (on_dir f e)
  unfolding in_dir
  lookup-in_dir f s e h = rw (h, in_dir) (rw lookup-put (rw str_refl))

  remove-IsPending :
      (name : String) (s : Store) → IsPending s → IsPending (in_dir j (remove name) s)
  unfolding in_dir
  remove-IsPending name s h = elim (Option-cases (lookup j s.results)) [
    | inl absent ↦ rw (absent, in_dir) h
    | inr (e, there) ↦
        rw (lookup-in_dir (remove name) s e there) (read_done-remove name e (rw there at h))
  ]

  remove_items-Holds :
      (items : Dict String Item) → Holds IsPending IsPending (λ _. IsPending) (remove_items j items)
  unfolding remove_items
  remove_items-Holds [] = Triple-pure tt λ s p. p
  remove_items-Holds ((name, i) ∷ items) =
      Triple-bind _ _
        (Triple-step (in_dir j (remove name)) λ s p. let q = remove-IsPending name s p in (q, q))
        λ _. remove_items-Holds items

  remove_dir-IsPending : (s : Store) → IsPending (record s { results = remove j s.results })
  unfolding read_done
  remove_dir-IsPending s = rw lookup-remove (rw str_refl)

  pub remove_tree-Holds :
      (items : Dict String Item) → Holds IsPending IsPending (λ _. IsPending) (remove_tree j items)
  unfolding remove_tree
  remove_tree-Holds items =
      Triple-bind _ _ (remove_items-Holds items)
        λ _. Triple-step _ λ s p. (remove_dir-IsPending s, remove_dir-IsPending s)

  wipe_stale-Holds :
      (e : Option Entry) → Holds IsPending IsPending (λ _. IsPending) (wipe_stale j e)
  unfolding wipe_stale
  wipe_stale-Holds none = Triple-pure tt λ s p. p
  wipe_stale-Holds (some (dir items)) = remove_tree-Holds items
  wipe_stale-Holds (some symlink) = Triple-raise _ λ s p. p
  wipe_stale-Holds (some other) = Triple-raise _ λ s p. p

  make_job_dir-InDir : (s : Store) → InDir j (Partial []) (make_job_dir j s)
  unfolding make_job_dir
  make_job_dir-InDir s = ([], rw lookup-put (rw str_refl), (lookup-nil "DONE", tt))

module _ (c : Codec) (law : IsLawful c) (j : String) (seq : ℕ) (outputs : List Output)
    (out_status : Fields) (writable : IsWritable outputs) where
  abbrev status_bytes : Bytes
  status_bytes = c.dumps (obj (status_dict c j seq (describe_all c outputs) out_status))

  -- The whole result: marker, status.json and every output.
  pub record IsResult (items : Dict String Item) : Type 0 where
    pub done : done_of c.loads items ≡ some seq
    pub status : lookup "status.json" items ≡ some (file status_bytes)
    pub stored : All (Stored items) outputs

  abbrev pub IsComplete : Store → Type 0
  IsComplete = InDir j IsResult

  abbrev pub IsCommitState : Store → Type 0
  IsCommitState s = IsPending c j s ⊎ IsComplete s

  pending : (s : Store) → InDir j NoDone s → IsCommitState s
  pending s p = inl (NoDone-IsPending c j s p)

  abbrev Ready : Dict String Item → Type 0
  Ready items =
      NoDone items
      × (lookup "status.json" items ≡ some (file status_bytes))
      × All (Stored items) outputs

  Ready-of_Stored :
      (items : Dict String Item)
      → NoDone items
      → All (Stored items) outputs
      → Ready (written "status.json" status_bytes items)
  Ready-of_Stored items fresh stored = (
    NoDone-written "status.json" status_bytes items (ground (arith, str_iff "status.json" "DONE"))
        fresh,
    rw lookup-written,
    Stored-written "status.json" status_bytes items outputs
        (apart_of_control "status.json" items outputs safe_output-ne-status writable.1 stored)
        stored,
  )

  done_of_marker :
      (items : Dict String Item)
      → lookup "DONE" items ≡ some (file (c.dumps (done_value seq)))
      → done_of c.loads items ≡ some seq
  unfolding done_of
  done_of_marker items h = ground (arith, law.loads-dumps seq)

  IsResult-of_Ready :
      (items : Dict String Item)
      → Ready items
      → IsResult (written "DONE" (c.dumps (done_value seq)) items)
  IsResult-of_Ready items (fresh, status, stored) = record {
    done = done_of_marker _ (rw lookup-written);
    status = rw lookup-written (
        ground (
          arith,
          str_iff "DONE" "status.json",
          tmp-ne-status "DONE",
          str_iff ("DONE" <> ".tmp") "status.json",
        ));
    stored =
        Stored-written "DONE" (c.dumps (done_value seq)) items outputs
          (apart_of_control "DONE" items outputs safe_output-ne-done writable.0 stored) stored;
  }

  -- The caches keep the directory, and record the job.
  abbrev pub IsCommitted : Store → Type 0
  IsCommitted s = IsComplete s × (seq ≤ s.seq) × (contains s.consumed j ≡ true)

  bump_caches-Holds : Holds IsComplete IsCommitState (λ _. IsCommitted) (bump_caches j seq)
  unfolding bump_caches
  bump_caches-Holds =
      Triple-bind _ _
        (Triple-step {R = λ _ s. IsComplete s × (seq ≤ s.seq)} _ λ s p. (inr p, (p, omega arith)))
        λ _.
          Triple-bind _ _
            (Triple-step {R = λ _. IsCommitted} _
              λ s p. (inr p.0, (p.0, p.1, consumed-append s.consumed)))
            λ _. fsync-Holds IsCommitted IsCommitState (λ s p. inr p.0)
    where
      consumed-append : (xs : List String) → contains (xs ++ (j ∷ [])) j ≡ true
      consumed-append xs = rw contains-append (ground (arith, str_refl j))

  write_done-Holds : Holds (InDir j Ready) IsCommitState (λ _. IsComplete) (write_done c j seq)
  unfolding write_done ◌>>=◌
  write_done-Holds =
      Triple-bind _ _
        (atomic_write-Holds j IsCommitState pending "DONE" (c.dumps (done_value seq)) Ready IsResult
          (λ items φ. φ.0) IsResult-of_Ready (λ s p. inr p))
        λ _. fsync-Holds IsComplete IsCommitState (λ s p. inr p)

  abbrev Filled : Dict String Item → Type 0
  Filled items = NoDone items × All (Stored items) [] × All (Stored items) outputs

  Ready-pending : (s : Store) → InDir j Ready s → IsCommitState s
  Ready-pending s p = let (items, there, φ) = p in pending s (items, there, φ.0)

  status-Holds :
      (metas : Json.Items)
      → metas ≡ describe_all c outputs
      → Holds
          (InDir j Filled)
          IsCommitState
          (λ _. InDir j Ready)
          (atomic_write j "status.json" (c.dumps (obj (status_dict c j seq metas out_status))))
  status-Holds metas em = rw em (
      atomic_write-Holds j IsCommitState pending "status.json" status_bytes Filled Ready
        (λ items φ. φ.0) (λ items φ. Ready-of_Stored items φ.0 φ.2) Ready-pending)

  commit_new-Holds :
      (e : Option Entry)
      → Holds
          (IsPending c j)
          IsCommitState
          (λ _. IsCommitted)
          (commit_new c j seq outputs out_status e)
  unfolding commit_new
  commit_new-Holds e = Triple-bind _ _ (Triple-crash _ (wipe_stale-Holds c j e) λ s p. inl p) λ _.
      Triple-bind _ _
        (Triple-step {R = λ _. InDir j (Partial [])} (make_job_dir j)
          λ s p. let q = make_job_dir-InDir c j s in (begun (make_job_dir j s) q, q))
        λ _. Triple-bind _ _ (fsync-Holds (InDir j (Partial [])) IsCommitState begun) λ _.
          Triple-bind _ _ (write_outputs-Holds c j IsCommitState pending outputs [] writable.2)
            λ metas. Triple-given _ λ em.
              Triple-bind _ _ (status-Holds metas em)
                λ _. Triple-bind _ _ write_done-Holds λ _. bump_caches-Holds
    where
      begun : (s : Store) → InDir j (Partial []) s → IsCommitState s
      begun s p = let (items, there, φ) = p in pending s (items, there, φ.0)

  unless_done-Holds :
      (e : Option Entry)
      → read_done c.loads e ≡ none
      → Holds
          (IsPending c j)
          IsCommitState
          (λ _. IsCommitted)
          (unless_done (read_done c.loads e) (commit_new c j seq outputs out_status e))
  unless_done-Holds e fresh = rw fresh (commit_new-Holds e)

  commit-Holds :
      Holds (IsPending c j) IsCommitState (λ _. IsCommitted) (commit c j seq outputs out_status)
  unfolding commit
  commit-Holds =
      Triple-bind _ _
        (Triple-check {R = λ _. IsPending c j} (is_safe_job_id j) _ (λ s p e. p) (λ s p. inl p))
        λ _.
          Triple-bind _ _
            (Triple-read {R = λ e s. (read_done c.loads e ≡ none) × IsPending c j s} _
              (λ s p. (p, p)))
            λ e.
              Triple-bind _ _
                (Triple-check {R = λ _ s. (read_done c.loads e ≡ none) × IsPending c j s}
                  (not (is_symlink e)) job_dir_is_symlink (λ s p h. p) (λ s p. inl p.1))
                λ _. Triple-given _ λ fresh. unless_done-Holds e fresh

  -- From a store where the job is not committed, a power loss during `commit` at any file operation
  -- leaves a store where the job is not committed, or one with the valid DONE marker, this
  -- status.json and every output with its bytes. So does an exception. If `commit` returns, the
  -- result is complete, `seq` is at least the job's and `consumed-jobs` names the job. The outputs have
  -- different names, and none has the name of the temporary file of DONE, of status.json or of a
  -- later output; the DONE marker that is written reads back.
  pub commit-atomic :
      (s : Store)
      → IsPending c j s
      → All IsCommitState (commit c j seq outputs out_status s).trace
        × Post IsCommitState
            (λ _. IsCommitted)
            (commit c j seq outputs out_status s).result
            (commit c j seq outputs out_status s).state
  commit-atomic = commit-Holds.at
