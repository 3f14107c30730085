-- ===== src/Commitlog/Ledger.antt =====
-- The store of box/lib/causb/commitlog.py as an abstract ledger, which knows of each job whether it is
-- committed and with which seq, and forgets directories, files and caches.
use mathlib.Core.Path.{fun_ext}
use nebula_ca_harness.Prelude.{
  ℕ, String, ◌≡◌, ◌≢◌, refl, sym, ap, ◌∙◌, subst, ◌⊎◌, inl, inr, Option, some, List, [], ◌∷◌, All,
  arith, string_eq, str_iff, ◌==◌, Bool-cases, if◌then◌else◌, Result, ok, err,
}
use nebula_ca_harness.Prelude.Dict.{lookup}
use nebula_ca_harness.Json.{Fields}
use nebula_ca_harness.Effect.Triple.{Post}
use nebula_ca_harness.Commitlog.{Store, Fault, Codec, IsLawful, Output, read_done, commit}
use nebula_ca_harness.Commitlog.Point.{
  IsPending, IsWritable, IsCommitState, IsCommitted, IsComplete, commit-atomic,
}
use nebula_ca_harness.Commitlog.Frame.{commit-frame}

abbrev pub Ledger : Type 0
Ledger = String → Option ℕ

-- What the store says of a job.
abbrev pub ledger : Codec → Store → Ledger
ledger c s job_id = read_done c.loads (lookup job_id s.results)

-- The one step of the specification: a job is entered with its seq.
abbrev pub enter : String → ℕ → Ledger → Ledger
enter j seq l job_id = if job_id == j then some seq else l job_id

for_every_key :
    {T K : Type 0} (Q : K → T → Type 0) (xs : List T)
    → ((k : K) → All (Q k) xs)
    → All (λ x. (k : K) → Q k x) xs
for_every_key Q [] h = tt
for_every_key Q (x ∷ xs) h = ((λ k. (h k).0), for_every_key Q xs λ k. (h k).1)

All-zip :
    {T : Type 0} (P Q R : T → Type 0) (xs : List T)
    → ((x : T) → P x → Q x → R x)
    → All P xs
    → All Q xs
    → All R xs
All-zip P Q R [] f ps qs = tt
All-zip P Q R (x ∷ xs) f (p, ps) (q, qs) = (f x p q, All-zip P Q R xs f ps qs)

module _ (c : Codec) (law : IsLawful c) (j : String) (seq : ℕ) (outputs : List Output)
    (out_status : Fields) (writable : IsWritable outputs) (s : Store)
    (pending : IsPending c j s) where
  abbrev Other : Type 0
  Other = (job_id : String) × (job_id ≢ j)

  -- Another job's entry is as it was.
  abbrev Apart : Other → Store → Type 0
  Apart (k, ne) s' = lookup k s'.results ≡ lookup k s.results

  abbrev pub Before : Store → Type 0
  Before s' = ledger c s' ≡ ledger c s

  abbrev pub After : Store → Type 0
  After s' = ledger c s' ≡ enter j seq (ledger c s)

  agree_before : (s' : Store) → IsPending c j s' → ((o : Other) → Apart o s') → Before s'
  agree_before s' p same = fun_ext λ k. elim (Bool-cases (k == j)) [
    | inl e ↦
        let here : k ≡ j = ground (arith, str_iff k j) in
        subst (λ x. ledger c s' x ≡ ledger c s x) (sym here) (p ∙ sym pending)
    | inr e ↦ ap (read_done c.loads) (same (k, λ h. absurd (ground (arith, str_iff k j, h))))
  ]

  agree_after : (s' : Store) → ledger c s' j ≡ some seq → ((o : Other) → Apart o s') → After s'
  agree_after s' p same = fun_ext λ k. elim (Bool-cases (k == j)) [
    | inl e ↦
        let here : k ≡ j = ground (arith, str_iff k j) in
        rw e (subst (λ x. ledger c s' x ≡ some seq) (sym here) p)
    | inr e ↦ rw e (ap (read_done c.loads) (same (k, λ h. absurd (ground (arith, str_iff k j, h)))))
  ]

  complete-ledger :
      (s' : Store)
      → IsComplete c law j seq outputs out_status writable s'
      → ledger c s' j ≡ some seq
  unfolding read_done
  complete-ledger s' (items, there, result) = rw there result.done

  settle :
      (s' : Store)
      → IsCommitState c law j seq outputs out_status writable s'
      → ((o : Other) → Apart o s')
      → Before s' ⊎ After s'
  settle s' (inl p) same = inl (agree_before s' p same)
  settle s' (inr d) same = inr (agree_after s' (complete-ledger s' d) same)

  same_end :
      {A : Type 0} (P : Store → Type 0) (r : Result Fault A) (s' : Store)
      → Post P (λ _. P) r s'
      → P s'
  same_end P (ok a) s' h = h
  same_end P (err e) s' h = h

  end :
      (r : Result Fault (Unit {0})) (s' : Store)
      → Post
          (IsCommitState c law j seq outputs out_status writable)
          (λ _. IsCommitted c law j seq outputs out_status writable)
          r
          s'
      → ((o : Other) → Apart o s')
      → Post (λ s'. Before s' ⊎ After s') (λ _. After) r s'
  end (ok u) s' h same = agree_after s' (complete-ledger s' h.0) same
  end (err e) s' h same = settle s' h same

  -- `commit` of a pending job refines the one step that enters it in the ledger: at every moment of the
  -- run, and after an exception, the store stands for the ledger as it was or for the ledger with the
  -- job entered, and nothing in between; when `commit` returns it stands for the latter. The outputs
  -- are writable and the DONE marker reads back.
  pub commit-IsRefinement :
      All (λ s'. Before s' ⊎ After s') (commit c j seq outputs out_status s).trace
      × Post
          (λ s'. Before s' ⊎ After s')
          (λ _. After)
          (commit c j seq outputs out_status s).result
          (commit c j seq outputs out_status s).state
  commit-IsRefinement =
      let run = commit c j seq outputs out_status s in
      let (moments, last) = commit-atomic c law j seq outputs out_status writable s pending in
      let frame = λ (o : Other).
        commit-frame c j o.0 o.1 (lookup o.0 s.results) s seq outputs out_status refl in
      (
        All-zip _ _ _ run.trace settle moments (for_every_key Apart run.trace λ o. (frame o).0),
        end run.result run.state last λ o. same_end (Apart o) run.result run.state (frame o).1,
      )
