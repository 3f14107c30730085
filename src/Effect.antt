-- ===== src/Effect.antt =====
-- Code that changes durable state step by step. An action records the state after each of its
-- steps, so that a power loss at any moment leaves one of the recorded states (or the first one).
pub mod Triple
use nebula_ca_harness.Prelude.{Bool, true, false, List, [], ◌∷◌, ◌++◌, Result, ok, err}

pub record Run (S E A : Type 0) : Type 0 where
  pub trace : List S
  pub result : Result E A
  pub state : S

abbrev pub Action : Type 0 → Type 0 → Type 0 → Type 0
Action S E A = S → Run S E A

module _ {S E : Type 0} where
  abbrev pub pure : {A : Type 0} → A → Action S E A
  pure a s = record { trace = []; result = ok a; state = s }

  -- `raise`
  abbrev pub raise : {A : Type 0} → E → Action S E A
  raise e s = record { trace = []; result = err e; state = s }

  -- One step on the durable state.
  abbrev pub step : (S → S) → Action S E (Unit {0})
  step f s = record { trace = f s ∷ []; result = ok tt; state = f s }

  abbrev pub read : {A : Type 0} → (S → A) → Action S E A
  read f s = record { trace = []; result = ok (f s); state = s }

  abbrev pub continue_run :
      {A B : Type 0} → List S → Result E A → S → (A → Action S E B) → Run S E B
  continue_run trace (ok a) s f =
      let r = f a s in record { trace = trace ++ r.trace; result = r.result; state = r.state }
  continue_run trace (err e) s f = record { trace = trace; result = err e; state = s }

  infixl 5 ◌>>=◌ ◌>>◌
  unfoldable pub ◌>>=◌ : {A B : Type 0} → Action S E A → (A → Action S E B) → Action S E B
  ◌>>=◌ m f s = let r = m s in continue_run r.trace r.result r.state f

  abbrev pub ◌>>◌ : {B : Type 0} → Action S E (Unit {0}) → Action S E B → Action S E B
  m >> k = m >>= λ _. k

  -- `if not test: raise e`
  abbrev pub check : Bool → E → Action S E (Unit {0})
  check true e = pure tt
  check false e = raise e
