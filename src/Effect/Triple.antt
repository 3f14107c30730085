-- ===== src/Effect/Triple.antt =====
-- Crash triples: what holds in every state that a power loss can leave, and in the final state.
use nebula_ca_harness.Prelude.{
  ◌≡◌, refl, Bool, true, false, List, All, All-append, All-map, Result, ok, err, subst,
  ok-injective,
}
use nebula_ca_harness.Effect.{Action, pure, raise, step, read, ◌>>=◌, continue_run, check}

module _ {S E : Type 0} where
  -- After an exception the state is one that a power loss may leave too.
  abbrev pub Post : {A : Type 0} → (S → Type 0) → (A → S → Type 0) → Result E A → S → Type 0
  Post Q R (ok a) s = R a s
  Post Q R (err e) s = Q s

  -- From a state in `P`, every state on the way is in `Q`, and the end is in `R`.
  pub record Triple {A : Type 0} (P Q : S → Type 0) (R : A → S → Type 0) (m : Action S E A)
      : Type 0 where
    pub at : (s : S) → P s → All Q (m s).trace × Post Q R (m s).result (m s).state

  continue_Triple :
      {A B : Type 0} {Q : S → Type 0} {R : A → S → Type 0} {T : B → S → Type 0}
      (f : A → Action S E B)
      → ((a : A) → Triple (R a) Q T (f a))
      → (trace : List S) (r : Result E A) (s : S) → All Q trace
      → Post Q R r s
      → let c = continue_run trace r s f in All Q c.trace × Post Q T c.result c.state
  continue_Triple {Q} f k trace (ok a) s t p =
      let (x, y) = (k a).at s p in (All-append Q trace _ t x, y)
  continue_Triple f k trace (err e) s t p = (t, p)

  module _ {P Q : S → Type 0} where
    pub Triple-pure :
        {A : Type 0} {R : A → S → Type 0} (a : A) → ((s : S) → P s → R a s) → Triple P Q R (pure a)
    Triple-pure a h = record { at = λ s p. (tt, h s p) }

    pub Triple-raise :
        {A : Type 0} {R : A → S → Type 0} (e : E)
        → ((s : S) → P s → Q s)
        → Triple {A = A} P Q R (raise e)
    Triple-raise e h = record { at = λ s p. (tt, h s p) }

    pub Triple-step :
        {R : Unit {0} → S → Type 0} (f : S → S)
        → ((s : S) → P s → Q (f s) × R tt (f s))
        → Triple P Q R (step f)
    Triple-step f h = record { at = λ s p. (((h s p).0, tt), (h s p).1) }

    pub Triple-read :
        {A : Type 0} {R : A → S → Type 0} (f : S → A)
        → ((s : S) → P s → R (f s) s)
        → Triple P Q R (read f)
    Triple-read f h = record { at = λ s p. (tt, h s p) }

    pub Triple-check :
        {R : Unit {0} → S → Type 0} (b : Bool) (e : E)
        → ((s : S) → P s → b ≡ true → R tt s)
        → ((s : S) → P s → Q s)
        → Triple P Q R (check b e)
    Triple-check true e h k = record { at = λ s p. (tt, h s p refl) }
    Triple-check false e h k = record { at = λ s p. (tt, k s p) }

    pub Triple-bind :
        {A B : Type 0} {R : A → S → Type 0} {T : B → S → Type 0} (m : Action S E A)
        (f : A → Action S E B)
        → Triple P Q R m
        → ((a : A) → Triple (R a) Q T (f a))
        → Triple P Q T (m >>= f)
    unfolding ◌>>=◌
    Triple-bind m f h k = record {
      at = λ s p.
          let (x, y) = h.at s p in continue_Triple f k (m s).trace (m s).result (m s).state x y;
    }

    -- A weaker start, and a weaker end.
    pub Triple-weaken :
        {A : Type 0} {P' : S → Type 0} {R R' : A → S → Type 0} (m : Action S E A)
        → Triple P Q R m
        → ((s : S) → P' s → P s)
        → ((a : A) (s : S) → R a s → R' a s)
        → Triple P' Q R' m
    Triple-weaken {A} {R} {R'} m h f g = record {
      at = λ s p. let (x, y) = h.at s (f s p) in (x, weaken (m s).result (m s).state y);
    }
      where
        weaken : (r : Result E A) (s : S) → Post Q R r s → Post Q R' r s
        weaken (ok a) s y = g a s y
        weaken (err e) s y = y

    -- A fact of the start that does not mention the state.
    pub Triple-given :
        {A X : Type 0} {R : A → S → Type 0} (m : Action S E A)
        → (X → Triple P Q R m)
        → Triple (λ s. X × P s) Q R m
    Triple-given m h = record { at = λ s p. (h p.0).at s p.1 }

    -- A power loss may leave more.
    pub Triple-crash :
        {A : Type 0} {Q' : S → Type 0} {R : A → S → Type 0} (m : Action S E A)
        → Triple P Q R m
        → ((s : S) → Q s → Q' s)
        → Triple P Q' R m
    Triple-crash {A} {Q'} {R} m h f = record {
      at = λ s p.
          let (x, y) = h.at s p in (All-map (m s).trace f x, weaken (m s).result (m s).state y);
    }
      where
        weaken : (r : Result E A) (s : S) → Post Q R r s → Post Q' R r s
        weaken (ok a) s y = y
        weaken (err e) s y = f s y

  -- The end of a run that returns.
  pub Post-ok :
      {A : Type 0} (Q : S → Type 0) (R : A → S → Type 0) (r : Result E A) (s : S) (a : A)
      → Post Q R r s
      → r ≡ ok a
      → R a s
  Post-ok Q R (ok b) s a p h = subst (λ x. R x s) (ok-injective h) p
  Post-ok Q R (err e) s a p h = absurd cc
