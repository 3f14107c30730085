-- ===== src/Commitlog/Atomic.antt =====
-- The DONE marker is the single commit point of `commit` (box/lib/causb/commitlog.py).
use Prim.Native.String.{◌++◌ as ◌<>◌}
use nebula_ca_harness.Prelude.{
  String, ◌≡◌, refl, ap, sym, subst, none, some, [], arith, ◌==◌, string_eq, str_iff, str_refl,
  if◌then◌else◌,
}
use nebula_ca_harness.Prelude.Dict.{Dict, lookup, put, lookup-put, lookup-remove}
use nebula_ca_harness.Effect.{step}
use nebula_ca_harness.Effect.Triple.{Triple, Triple-step, Triple-bind}
use nebula_ca_harness.Commitlog.{
  Fault, Item, file, dir, Store, Io, in_dir, replace, fsync, atomic_write, Bytes,
}
use nebula_ca_harness.Commitlog.Names.{tmp-ne-done}

abbrev Items : Type 0
Items = Dict String Item

-- The directory of `job_id` is there, and its listing fits `Φ`.
abbrev pub InDir : String → (Items → Type 0) → Store → Type 0
InDir job_id Φ s = (items : Items) × (lookup job_id s.results ≡ some (dir items)) × Φ items

in_dir-lookup :
    (j : String) (f : Items → Items) (s : Store) (items : Items)
    → lookup j s.results ≡ some (dir items)
    → lookup j (in_dir j f s).results ≡ some (dir (f items))
unfolding in_dir
in_dir-lookup j f s items h = rw (h, in_dir) (simp lookup-put (rw str_refl))

-- The listing after `_atomic_write`.
abbrev pub written : String → Bytes → Items → Items
written name b items =
    replace (name <> ".tmp") name
      (put (name <> ".tmp") (file b) (put (name <> ".tmp") (file []) items))

lookup-put_self : (k : String) (i : Item) (items : Items) → lookup k (put k i items) ≡ some i
lookup-put_self k i items = rw lookup-put (rw str_refl)

pub lookup-written :
    (k name : String) (b : Bytes) (items : Items)
    → lookup k (written name b items) ≡ (
        if name == k then some (file b) else if (name <> ".tmp") == k then none else lookup k items)
unfolding replace
lookup-written k name b items =
    rw (lookup-put_self (name <> ".tmp"), replace) (simp (lookup-put, lookup-remove) (ground arith))

-- Crash triples of actions on the store.
abbrev pub Holds :
    {A : Type 0} → (Store → Type 0) → (Store → Type 0) → (A → Store → Type 0) → Io A → Type 0
Holds P Q R m = Triple {E = Fault} P Q R m

pub fsync-Holds : (P Q : Store → Type 0) → ((s : Store) → P s → Q s) → Holds P Q (λ _. P) fsync
fsync-Holds P Q q = Triple-step (λ s. s) λ s p. (q s p, p)

abbrev pub NoDone : Items → Type 0
NoDone items = lookup "DONE" items ≡ none

abbrev Image : (Items → Items) → (Items → Type 0) → Items → Type 0
Image f Φ items' = (items : Items) × Φ items × (items' ≡ f items)

put_tmp-NoDone :
    (name : String) (i : Item) (items : Items)
    → NoDone items
    → NoDone (put (name <> ".tmp") i items)
put_tmp-NoDone name i items h =
    rw lookup-put (ground (arith, h, str_iff (name <> ".tmp") "DONE", tmp-ne-done name))

module _ (j : String) (Q : Store → Type 0) (pending : (s : Store) → InDir j NoDone s → Q s) where
  step-in_dir-Holds :
      (f : Items → Items) (Φ Ψ : Items → Type 0)
      → ((items : Items) → Φ items → Ψ (f items))
      → ((s : Store) → InDir j Ψ s → Q s)
      → Holds (InDir j Φ) Q (λ _. InDir j Ψ) (step (in_dir j f))
  step-in_dir-Holds f Φ Ψ h q = Triple-step (in_dir j f) λ s p.
      let (items, there, φ) = p in
      let r : InDir j Ψ (in_dir j f s) = (f items, in_dir-lookup j f s items there, h items φ) in
      (q _ r, r)

  -- `_atomic_write` into a directory without a DONE marker keeps it without one until the rename,
  -- and leaves the listing `written`.
  pub atomic_write-Holds :
      (name : String) (b : Bytes) (Φ Ψ : Items → Type 0)
      → ((items : Items) → Φ items → NoDone items)
      → ((items : Items) → Φ items → Ψ (written name b items))
      → ((s : Store) → InDir j Ψ s → Q s)
      → Holds (InDir j Φ) Q (λ _. InDir j Ψ) (atomic_write j name b)
  unfolding atomic_write
  atomic_write-Holds name b Φ Ψ fresh last end =
      Triple-bind _ _ (step-in_dir-Holds first Φ One (λ items φ. (items, φ, refl)) one) λ _.
        Triple-bind _ _
          (step-in_dir-Holds second One Two (λ items' (items, φ, e). (items, φ, ap second e)) two)
          λ _. Triple-bind _ _ (fsync-Holds (InDir j Two) Q two) λ _.
            step-in_dir-Holds (replace (name <> ".tmp") name) Two Ψ
              (λ items' (items, φ, e).
                subst Ψ (ap (replace (name <> ".tmp") name) (sym e)) (last items φ))
              end
    where
      first : Items → Items
      first = put (name <> ".tmp") (file [])

      second : Items → Items
      second = put (name <> ".tmp") (file b)

      One : Items → Type 0
      One = Image first Φ

      Two : Items → Type 0
      Two = Image (λ items. second (first items)) Φ

      one : (s : Store) → InDir j One s → Q s
      one s p =
          let (items', there, image) = p in
          let (items, φ, e) = image in
          pending s
            (items', there, subst NoDone (sym e) (put_tmp-NoDone name _ items (fresh items φ)))

      two : (s : Store) → InDir j Two s → Q s
      two s p =
          let (items', there, image) = p in
          let (items, φ, e) = image in
          pending s (
            items',
            there,
            subst NoDone (sym e)
                (put_tmp-NoDone name _ _ (put_tmp-NoDone name _ items (fresh items φ))),
          )
