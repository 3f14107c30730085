-- ===== src/Commitlog/Boot.antt =====
-- `reconcile_on_boot` (box/lib/causb/commitlog.py): what the repair at boot does to a committed job.
use mathlib.Core.Bool.{true≢false}
use nebula_ca_harness.Prelude.{
  ℕ, max, ◌≤◌, String, ◌≡◌, ◌≢◌, refl, sym, ap, subst, ◌⊎◌, inl, inr, ◌∙◌, true, ◌||◌, Option, none,
  some, Bool-cases, some_inj, List, [], ◌∷◌, ◌++◌, All, contains, contains-append, arith, ◌==◌,
  string_eq, str_iff,
}
use nebula_ca_harness.Prelude.Dict.{Dict, keys, lookup}
use nebula_ca_harness.Effect.Triple.{
  Post, Triple-pure, Triple-step, Triple-bind, Triple-read, Triple-given,
}
use nebula_ca_harness.Commitlog.{
  Item, Entry, dir, symlink, other, Store, Codec, read_done, done_of, insert_name, sort_names,
}
use nebula_ca_harness.Commitlog.Reconcile.{Scan, visit_dir, visit, scan_jobs, reconcile_on_boot}
use nebula_ca_harness.Commitlog.Atomic.{Holds}
use nebula_ca_harness.Commitlog.Frame.{remove_tree-Keeps}

contains-insert :
    (a j : String) (bs : List String) → contains (insert_name a bs) j ≡ (a == j || contains bs j)
unfolding insert_name
contains-insert a j [] = refl
contains-insert a j (b ∷ bs) = ground (arith, contains-insert a j bs)

contains-sort :
    (j : String) (names : List String) → contains (sort_names names) j ≡ contains names j
unfolding sort_names
contains-sort j [] = refl
contains-sort j (a ∷ as') =
    contains-insert a j (sort_names as') ∙ ap (λ b. a == j || b) (contains-sort j as')

contains-keys :
    (j : String) (d : Dict String Entry) (e : Entry)
    → lookup j d ≡ some e
    → contains (keys d) j ≡ true
unfolding lookup
contains-keys j [] e h = absurd cc
contains-keys j ((k, v) ∷ d) e h = ground (arith, contains-keys j d e)

-- The job is still to be visited, or it is in the lists already.
abbrev Fact : String → ℕ → List String → Scan → Type 0
Fact j n names scan =
    (contains names j ≡ true) ⊎ ((contains scan.ids j ≡ true) × (n ≤ scan.max_seq))

module _ (c : Codec) (j : String) (e : Entry) (n : ℕ)
    (done : read_done c.loads (some e) ≡ some n) where
  abbrev pub IsKept : Store → Type 0
  IsKept s = lookup j s.results ≡ some e

  abbrev Rest : List String → Scan → Store → Type 0
  Rest names scan s = Fact j n names scan × IsKept s

  skip :
      (name : String) (names : List String) (scan : Scan)
      → name ≢ j
      → Fact j n (name ∷ names) scan
      → Fact j n names scan
  skip name names scan ne (inr old) = inr old
  skip name names scan ne (inl later) = elim (Bool-cases (name == j)) [
    | inl same ↦ absurd (ne ((str_iff name j).0 same))
    | inr differ ↦ inl (rw differ at later)
  ]

  visit_dir-Holds :
      (name : String) (names : List String) (items : Dict String Item) (o : Option ℕ) (scan : Scan)
      → ((name ≢ j) ⊎ (o ≡ some n))
      → Fact j n (name ∷ names) scan
      → Holds IsKept IsKept (Rest names) (visit_dir c name items o scan)
  unfolding visit_dir
  visit_dir-Holds name names items none scan (inl ne) fact =
      Triple-bind _ _ (remove_tree-Keeps c name j (λ same. ne (sym same)) (some e) items)
        λ _. Triple-pure scan λ s p. (skip name names scan ne fact, p)
  visit_dir-Holds name names items none scan (inr same) fact = absurd cc
  visit_dir-Holds name names items (some seq) scan h fact = Triple-pure _ λ s p. (listed h fact, p)
    where
      listed :
          ((name ≢ j) ⊎ (some seq ≡ some n))
          → Fact j n (name ∷ names) scan
          → Fact j n names
              (record { max_seq = max scan.max_seq seq; ids = scan.ids ++ (name ∷ []) })
      listed h fact = elim (Bool-cases (name == j)) [
        | inl same ↦ elim h [
          | inl ne ↦ absurd (ne ((str_iff name j).0 same))
          | inr seq_eq ↦
              let le : seq ≡ n = some_inj seq_eq in
              inr (rw contains-append (ground (arith, same)), omega (arith, le))
        ]
        | inr differ ↦
            elim (skip name names scan (λ x. true≢false (sym ((str_iff name j).1 x) ∙ differ))
              fact) [
                | inl later ↦ inl later
                | inr (there, le) ↦
                    inr (rw contains-append (ground (arith, there)), omega (arith, le))
              ]
      ]

  -- What the read of an entry says of a committed job.
  seen :
      (name : String) (o : Option Entry) (s : Store)
      → o ≡ lookup name s.results
      → IsKept s
      → (name ≢ j) ⊎ (o ≡ some e)
  seen name o s h kept = elim (Bool-cases (name == j)) [
    | inl same ↦ inr (h ∙ ap (λ x. lookup x s.results) ((str_iff name j).0 same) ∙ kept)
    | inr differ ↦ inl (λ x. true≢false (sym ((str_iff name j).1 x) ∙ differ))
  ]

  done_seen :
      (name : String) (items : Dict String Item)
      → ((name ≢ j) ⊎ (some (dir items) ≡ some e))
      → (name ≢ j) ⊎ (done_of c.loads items ≡ some n)
  unfolding read_done
  done_seen name items (inl ne) = inl ne
  done_seen name items (inr same) = inr (subst (λ o. read_done c.loads o ≡ some n) (sym same) done)

  not_entry :
      {name : String} (x : Entry)
      → read_done c.loads (some x) ≡ none
      → ((name ≢ j) ⊎ (some x ≡ some e))
      → name ≢ j
  not_entry x fresh (inl ne) = ne
  not_entry x fresh (inr same) = absurd (cc (fresh, done, ap (read_done c.loads) same))

  visit-Holds :
      (name : String) (names : List String) (o : Option Entry) (scan : Scan)
      → ((name ≢ j) ⊎ (o ≡ some e))
      → Fact j n (name ∷ names) scan
      → Holds IsKept IsKept (Rest names) (visit c name o scan)
  unfolding visit read_done
  visit-Holds name names none scan (inl ne) fact =
      Triple-pure scan λ s p. (skip name names scan ne fact, p)
  visit-Holds name names none scan (inr same) fact = absurd cc
  visit-Holds name names (some (dir items)) scan h fact =
      visit_dir-Holds name names items (done_of c.loads items) scan (done_seen name items h) fact
  visit-Holds name names (some symlink) scan h fact =
      Triple-pure scan λ s p. (skip name names scan (not_entry symlink refl h) fact, p)
  visit-Holds name names (some other) scan h fact =
      Triple-pure scan λ s p. (skip name names scan (not_entry other refl h) fact, p)

  scan_jobs-Holds :
      (names : List String) (scan : Scan)
      → Fact j n names scan
      → Holds IsKept IsKept (Rest []) (scan_jobs c names scan)
  unfolding scan_jobs
  scan_jobs-Holds [] scan fact = Triple-pure scan λ s p. (fact, p)
  scan_jobs-Holds (name ∷ names) scan fact =
      Triple-bind _ _
        (Triple-read {R = λ o s. ((name ≢ j) ⊎ (o ≡ some e)) × IsKept s} _
          λ s p. (seen name (lookup name s.results) s refl p, p))
        λ o. Triple-given _ λ h.
          Triple-bind _ _ (visit-Holds name names o scan h fact)
            λ scan'. Triple-given _ λ fact'. scan_jobs-Holds names scan' fact'

  -- The caches agree with the job's marker.
  abbrev pub IsRepaired : Store → Type 0
  IsRepaired s = IsKept s × (n ≤ s.seq) × (contains s.consumed j ≡ true)

  finished : (scan : Scan) → Fact j n [] scan → (contains scan.ids j ≡ true) × (n ≤ scan.max_seq)
  finished scan (inl none_left) = absurd cc
  finished scan (inr f) = f

  reconcile_on_boot-Holds : Holds IsKept IsKept (λ _. IsRepaired) (reconcile_on_boot c)
  unfolding reconcile_on_boot
  reconcile_on_boot-Holds =
      Triple-bind _ _
        (Triple-read {R = λ names s. (contains names j ≡ true) × IsKept s} _
          λ s p. (contains-sort j (keys s.results) ∙ contains-keys j s.results e p, p))
        λ names. Triple-given _ λ there.
          Triple-bind _ _ (scan_jobs-Holds names _ (inl there)) λ scan. Triple-given _ λ fact.
            let (known, le) = finished scan fact in
            Triple-bind _ _
              (Triple-step {R = λ _ s. IsKept s × (n ≤ s.seq)} _ λ s p. (p, (p, omega (arith, le))))
              λ _.
                Triple-bind _ _
                  (Triple-step {R = λ _. IsRepaired} _ λ s p. (p.0, (p.0, p.1, known)))
                  λ _. Triple-step _ λ s p. (p.0, p)

  -- For a job with a valid DONE marker, the repair at boot never touches the job's directory: it is
  -- the same at every moment of the repair, so also after a power loss during it. And when the
  -- repair returns, the caches agree with the marker: the job is among the consumed ones, and the
  -- last seq is not below the job's own. So the job is neither lost nor taken for a fresh one.
  pub reconcile_on_boot-IsRepaired :
      (s : Store)
      → lookup j s.results ≡ some e
      → All IsKept (reconcile_on_boot c s).trace
        × Post IsKept (λ _. IsRepaired) (reconcile_on_boot c s).result (reconcile_on_boot c s).state
  reconcile_on_boot-IsRepaired = reconcile_on_boot-Holds.at
