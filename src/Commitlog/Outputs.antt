-- ===== src/Commitlog/Outputs.antt =====
-- `_write_output` for each entry of `outputs` (box/lib/causb/commitlog.py).
use Prim.Native.String.{◌++◌ as ◌<>◌}
use nebula_ca_harness.Prelude.{
  ℕ, String, ◌≡◌, ◌≢◌, refl, ap, ◌∙◌, true, some, List, [], ◌∷◌, All, length, arith, string_eq,
  str_iff,
}
use nebula_ca_harness.Prelude.Dict.{Dict, lookup}
use nebula_ca_harness.Json.{pos, Value, int, str, obj, Items, nil, cons, end, field}
use nebula_ca_harness.Effect.{◌>>=◌}
use nebula_ca_harness.Effect.Triple.{Triple-pure, Triple-check, Triple-bind, Triple-given}
use nebula_ca_harness.Commitlog.{
  Item, file, Store, Codec, Output, is_safe_output, write_output, write_outputs,
}
use nebula_ca_harness.Commitlog.Names.{tmp-ne-done}
use nebula_ca_harness.Commitlog.Atomic.{
  InDir, Holds, NoDone, atomic_write-Holds, written, lookup-written,
}

-- The metadata of an output in `status.json`.
abbrev pub describe : Codec → Output → Value
describe c o = obj (
    field "path" (str o.path)
      (field "sha256" (str (c.sha256 o.bytes)) (field "bytes" (int (pos (length o.bytes))) end)))

abbrev pub describe_all : Codec → List Output → Items
describe_all c [] = nil
describe_all c (o ∷ os) = cons (describe c o) (describe_all c os)

-- The output is in the listing with its bytes.
abbrev pub Stored : Dict String Item → Output → Type 0
Stored items o = (lookup o.path items ≡ some (file o.bytes)) × (is_safe_output o.path ≡ true)

-- No later output, and no temporary file of one, has the name of an earlier output.
abbrev pub Apart : List Output → List Output → Type 0
Apart done [] = Unit
Apart done (o ∷ os) =
    All (λ p. (o.path ≢ p.path) × (o.path <> ".tmp" ≢ p.path)) done × Apart (o ∷ done) os

pub Stored-written :
    (name : String) (b : List ℕ) (items : Dict String Item) (os : List Output)
    → All (λ p. (name ≢ p.path) × (name <> ".tmp" ≢ p.path)) os
    → All (Stored items) os
    → All (Stored (written name b items)) os
Stored-written name b items [] apart stored = tt
Stored-written name b items (o ∷ os) ((x, y), apart) ((there, safe), stored) = (
  (rw lookup-written (ground (arith, str_iff name o.path, str_iff (name <> ".tmp") o.path)), safe),
  Stored-written name b items os apart stored,
)

pub NoDone-written :
    (name : String) (b : List ℕ) (items : Dict String Item)
    → name ≢ "DONE"
    → NoDone items
    → NoDone (written name b items)
NoDone-written name b items ne h =
    rw lookup-written
      (ground (arith, str_iff name "DONE", str_iff (name <> ".tmp") "DONE", tmp-ne-done name))

pub safe_output-ne-done : (name : String) → is_safe_output name ≡ true → name ≢ "DONE"
unfolding is_safe_output
safe_output-ne-done name safe = ground (arith, str_iff name "DONE")

pub safe_output-ne-status : (name : String) → is_safe_output name ≡ true → name ≢ "status.json"
unfolding is_safe_output
safe_output-ne-status name safe = ground (arith, str_iff name "status.json")

-- The outputs `done` are stored, and there is no DONE marker.
abbrev pub Partial : List Output → Dict String Item → Type 0
Partial done items = NoDone items × All (Stored items) done

module _ (c : Codec) (j : String) (Q : Store → Type 0)
    (pending : (s : Store) → InDir j NoDone s → Q s) where
  Partial-pending : (done : List Output) (s : Store) → InDir j (Partial done) s → Q s
  Partial-pending done s p = let (items, there, φ) = p in pending s (items, there, φ.0)

  write_output-Holds :
      (o : Output) (done : List Output)
      → All (λ p. (o.path ≢ p.path) × (o.path <> ".tmp" ≢ p.path)) done
      → Holds
          (InDir j (Partial done))
          Q
          (λ m s. (m ≡ describe c o) × InDir j (Partial (o ∷ done)) s)
          (write_output c j o)
  unfolding write_output
  write_output-Holds o done apart =
      Triple-bind _ _
        (Triple-check {R = λ _ s. (is_safe_output o.path ≡ true) × InDir j (Partial done) s}
          (is_safe_output o.path) _ (λ s p e. (e, p)) (Partial-pending done))
        λ _. Triple-given _ λ safe.
          Triple-bind _ _
            (atomic_write-Holds j Q pending o.path o.bytes (Partial done) (Partial (o ∷ done))
              (λ items φ. φ.0)
              (λ items φ. (
                NoDone-written o.path o.bytes items (safe_output-ne-done o.path safe) φ.0,
                (
                  (rw lookup-written (ground (arith, str_iff o.path o.path)), safe),
                  Stored-written o.path o.bytes items done apart φ.1,
                ),
              ))
              (Partial-pending (o ∷ done)))
            λ _. Triple-pure (describe c o) λ s p. (refl, p)

  pub write_outputs-Holds :
      (os done : List Output)
      → Apart done os
      → Holds
          (InDir j (Partial done))
          Q
          (λ m s.
            (m ≡ describe_all c os)
            × InDir j (λ items. NoDone items × All (Stored items) done × All (Stored items) os) s)
          (write_outputs c j os)
  unfolding write_outputs ◌>>=◌
  write_outputs-Holds [] done apart =
      Triple-pure nil λ s p. let (items, there, φ) = p in (refl, (items, there, (φ.0, φ.1, tt)))
  write_outputs-Holds (o ∷ os) done (far, apart) =
      Triple-bind _ _ (write_output-Holds o done far) λ m. Triple-given _ λ e.
        Triple-bind _ _ (write_outputs-Holds os (o ∷ done) apart) λ ms. Triple-given _ λ es.
          Triple-pure (cons m ms) λ s p.
            let (items, there, φ) = p in
            (
              ap (λ x. cons x ms) e ∙ ap (cons (describe c o)) es,
              (items, there, (φ.0, φ.1.1, (φ.1.0, φ.2))),
            )
