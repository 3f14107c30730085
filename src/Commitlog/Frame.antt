-- ===== src/Commitlog/Frame.antt =====
-- `commit` (box/lib/causb/commitlog.py) and the jobs that are in the store already: another job's
-- entry is never touched, and a job that is committed stays as it is.
use nebula_ca_harness.Prelude.{
  ℕ, String, ◌≡◌, ◌≢◌, refl, true, false, not, Option, none, some, Option-cases, inl, inr, List, [],
  ◌∷◌, All, arith, string_eq, str_iff, ok,
}
use nebula_ca_harness.Prelude.Dict.{Dict, lookup, lookup-put, lookup-remove}
use nebula_ca_harness.Json.{Value, Fields}
use nebula_ca_harness.Effect.{step, ◌>>=◌}
use nebula_ca_harness.Effect.Triple.{
  Post, Triple-pure, Triple-raise, Triple-step, Triple-check, Triple-bind, Triple-read,
}
use nebula_ca_harness.Commitlog.{
  Item, Entry, dir, symlink, other, Store, Codec, Output, in_dir, atomic_write, remove_items,
  remove_tree, wipe_stale, make_job_dir, write_output, write_outputs, write_done, bump_caches,
  commit_new, unless_done, commit, Io, is_safe_job_id, is_symlink, read_done, is_safe_output,
}
use nebula_ca_harness.Commitlog.Atomic.{Holds}

module _ (c : Codec) (j k : String) (ne : k ≢ j) (e : Option Entry) where
  abbrev pub IsSame : Store → Type 0
  IsSame s = lookup k s.results ≡ e

  abbrev Keeps : {A : Type 0} → Io A → Type 0
  Keeps m = Holds IsSame IsSame (λ _. IsSame) m

  Keeps-step : (f : Store → Store) → ((s : Store) → IsSame s → IsSame (f s)) → Keeps (step f)
  Keeps-step f h = Triple-step f λ s p. (h s p, h s p)

  in_dir-IsSame :
      (f : Dict String Item → Dict String Item) (s : Store) → IsSame s → IsSame (in_dir j f s)
  unfolding in_dir
  in_dir-IsSame f s h = elim (Option-cases (lookup j s.results)) [
    | inl absent ↦ rw (absent, in_dir) h
    | inr (o, there) ↦ rw (there, in_dir) (rw lookup-put (ground (arith, str_iff j k)))
  ]

  atomic_write-Keeps : (name : String) (b : List ℕ) → Keeps (atomic_write j name b)
  unfolding atomic_write
  atomic_write-Keeps name b = Triple-bind _ _ (Keeps-step _ (in_dir-IsSame _)) λ _.
      Triple-bind _ _ (Keeps-step _ (in_dir-IsSame _))
        λ _. Triple-bind _ _ (Keeps-step _ λ s p. p) λ _. Keeps-step _ (in_dir-IsSame _)

  remove_items-Keeps : (items : Dict String Item) → Keeps (remove_items j items)
  unfolding remove_items
  remove_items-Keeps [] = Triple-pure tt λ s p. p
  remove_items-Keeps ((name, i) ∷ items) =
      Triple-bind _ _ (Keeps-step _ (in_dir-IsSame _)) λ _. remove_items-Keeps items

  pub remove_tree-Keeps : (items : Dict String Item) → Keeps (remove_tree j items)
  unfolding remove_tree
  remove_tree-Keeps items =
      Triple-bind _ _ (remove_items-Keeps items)
        λ _. Keeps-step _ λ s p. rw lookup-remove (ground (arith, str_iff j k))

  wipe_stale-Keeps : (o : Option Entry) → Keeps (wipe_stale j o)
  unfolding wipe_stale
  wipe_stale-Keeps none = Triple-pure tt λ s p. p
  wipe_stale-Keeps (some (dir items)) = remove_tree-Keeps items
  wipe_stale-Keeps (some symlink) = Triple-raise _ λ s p. p
  wipe_stale-Keeps (some other) = Triple-raise _ λ s p. p

  make_job_dir-IsSame : (s : Store) → IsSame s → IsSame (make_job_dir j s)
  unfolding make_job_dir
  make_job_dir-IsSame s h = rw lookup-put (ground (arith, str_iff j k))

  write_output-Keeps : (o : Output) → Keeps (write_output c j o)
  unfolding write_output
  write_output-Keeps o =
      Triple-bind _ _
        (Triple-check {R = λ _. IsSame} (is_safe_output o.path) _ (λ s p e. p) (λ s p. p))
        λ _. Triple-bind _ _ (atomic_write-Keeps o.path o.bytes) λ _. Triple-pure _ λ s p. p

  write_outputs-Keeps : (os : List Output) → Keeps (write_outputs c j os)
  unfolding write_outputs
  write_outputs-Keeps [] = Triple-pure _ λ s p. p
  write_outputs-Keeps (o ∷ os) =
      Triple-bind _ _ (write_output-Keeps o)
        λ m. Triple-bind _ _ (write_outputs-Keeps os) λ ms. Triple-pure _ λ s p. p

  bump_caches-Keeps : (seq : ℕ) → Keeps (bump_caches j seq)
  unfolding bump_caches
  bump_caches-Keeps seq =
      Triple-bind _ _ (Keeps-step _ λ s p. p)
        λ _. Triple-bind _ _ (Keeps-step _ λ s p. p) λ _. Keeps-step _ λ s p. p

  commit_new-Keeps :
      (seq : ℕ) (os : List Output) (st : Fields) (o : Option Entry)
      → Keeps (commit_new c j seq os st o)
  unfolding commit_new write_done
  commit_new-Keeps seq os st o = Triple-bind _ _ (wipe_stale-Keeps o) λ _.
      Triple-bind _ _ (Keeps-step _ make_job_dir-IsSame) λ _.
        Triple-bind _ _ (Keeps-step _ λ s p. p) λ _.
          Triple-bind _ _ (write_outputs-Keeps os) λ metas.
            Triple-bind _ _ (atomic_write-Keeps "status.json" _) λ _.
              Triple-bind _ _
                (Triple-bind _ _ (atomic_write-Keeps "DONE" _) λ _. Keeps-step _ λ s p. p)
                λ _. bump_caches-Keeps seq

  unless_done-Keeps : (o : Option ℕ) (m : Io (Unit {0})) → Keeps m → Keeps (unless_done o m)
  unless_done-Keeps none m h = h
  unless_done-Keeps (some n) m h = Triple-pure tt λ s p. p

  commit-Keeps : (seq : ℕ) (os : List Output) (st : Fields) → Keeps (commit c j seq os st)
  unfolding commit
  commit-Keeps seq os st =
      Triple-bind _ _ (Triple-check {R = λ _. IsSame} (is_safe_job_id j) _ (λ s p e. p) (λ s p. p))
        λ _. Triple-bind _ _ (Triple-read {R = λ _. IsSame} _ (λ s p. p)) λ o.
          Triple-bind _ _
            (Triple-check {R = λ _. IsSame} (not (is_symlink o)) _ (λ s p e. p) (λ s p. p))
            λ _. unless_done-Keeps (read_done c.loads o) _ (commit_new-Keeps seq os st o)

  pub commit-frame :
      (s : Store) (seq : ℕ) (os : List Output) (st : Fields)
      → lookup k s.results ≡ e
      → All IsSame (commit c j seq os st s).trace
        × Post IsSame (λ _. IsSame) (commit c j seq os st s).result (commit c j seq os st s).state
  commit-frame s seq os st h = (commit-Keeps seq os st).at s h

not-symlink_of_done :
    (loads : List ℕ → Option Value) (o : Option Entry) (n : ℕ)
    → read_done loads o ≡ some n
    → is_symlink o ≡ false
unfolding read_done is_symlink
not-symlink_of_done loads none n h = absurd cc
not-symlink_of_done loads (some (dir items)) n h = refl
not-symlink_of_done loads (some symlink) n h = absurd cc
not-symlink_of_done loads (some other) n h = refl

-- `commit` of a job with a valid DONE marker returns at once.
pub commit-replays :
    (c : Codec) (j : String) (seq n : ℕ) (os : List Output) (st : Fields) (s : Store)
    → is_safe_job_id j ≡ true
    → read_done c.loads (lookup j s.results) ≡ some n
    → commit c j seq os st s ≡ record { trace = []; result = ok tt; state = s }
unfolding commit ◌>>=◌
commit-replays c j seq n os st s safe h = rw (safe, not-symlink_of_done c.loads _ n h, h)
