-- ===== src/Led/Writes.antt =====
-- The order of the writes of `set` (box/lib/causb/led.py).
use nebula_ca_harness.Prelude.{
  String, ◌≡◌, ◌≢◌, refl, ap, ◌∙◌, ◌⊎◌, inl, inr, Bool, some, Bool-cases, some_inj, subst, List, [],
  ◌∷◌, ◌++◌, map, All, ok, err, ◌==◌, string_eq,
}
use nebula_ca_harness.Prelude.Dict.{Dict, lookup}
use nebula_ca_harness.Led.{
  led_write_failed, Setting, plans, plan, Driven, in_dir, write_all, set_state,
}

-- A plan that sets the trigger before anything else.
abbrev pub IsTriggerFirst : List Setting → Type 0
IsTriggerFirst settings =
    (value : String) × (rest : List Setting) × (settings ≡ ("trigger", value) ∷ rest)

lookup-All :
    (P : List Setting → Type 0) (k : String) (d : Dict String (List Setting)) (v : List Setting)
    → All (λ x. P x.1) d
    → lookup k d ≡ some v
    → P v
unfolding lookup
lookup-All P k [] v all h = absurd cc
lookup-All P k ((j, w) ∷ d) v (p, all) h = elim (Bool-cases (j == k)) [
  | inl e ↦ subst P (some_inj (rw e at h)) p
  | inr e ↦ lookup-All P k d v all (rw e at h)
]

plan-IsTriggerFirst :
    (state : String) (settings : List Setting)
    → plan state ≡ some settings
    → IsTriggerFirst settings
unfolding plan
plan-IsTriggerFirst state settings h =
    lookup-All IsTriggerFirst state plans settings
      (
        (_, _, refl),
        (
          (_, _, refl),
          (
            (_, _, refl),
            (
              (_, _, refl),
              (
                (_, _, refl),
                ((_, _, refl), ((_, _, refl), ((_, _, refl), ((_, _, refl), ((_, _, refl), tt))))),
              ),
            ),
          ),
        ),
      )
      h

-- The writes of a part of the settings, all of them when there is no error.
abbrev pub IsPart : String → List Setting → List Setting → Driven → Type 0
IsPart led_dir settings before d =
    (first : List Setting) × (rest : List Setting) × (settings ≡ first ++ rest)
    × (d.writes ≡ before ++ map (in_dir led_dir) first)
    × (((d.result ≡ ok tt) × (rest ≡ [])) ⊎ ((d.result ≡ err led_write_failed) × (rest ≢ [])))

append_nil : (xs : List Setting) → xs ≡ xs ++ []
append_nil [] = refl
append_nil (x ∷ xs) = ap (λ ys. x ∷ ys) (append_nil xs)

append_assoc : (xs ys zs : List Setting) → (xs ++ ys) ++ zs ≡ xs ++ (ys ++ zs)
append_assoc [] ys zs = refl
append_assoc (x ∷ xs) ys zs = ap (λ ws. x ∷ ws) (append_assoc xs ys zs)

module _ (fails : List Setting → Bool) where
  write_all-IsPart :
      (led_dir : String) (settings before : List Setting)
      → IsPart led_dir settings before (write_all fails led_dir settings before)
  unfolding write_all
  write_all-IsPart led_dir [] before = ([], [], refl, append_nil before, inl (refl, refl))
  write_all-IsPart led_dir (s ∷ ss) before = elim (Bool-cases (fails before)) [
    | inl e ↦ rw e ([], s ∷ ss, refl, append_nil before, inr (refl, λ h. absurd cc))
    | inr e ↦
        let (first, rest, split, writes, how) =
          write_all-IsPart led_dir ss (before ++ (in_dir led_dir s ∷ [])) in
        rw e (
          s ∷ first,
          rest,
          ap (λ xs. s ∷ xs) split,
          writes ∙ append_assoc before (in_dir led_dir s ∷ []) (map (in_dir led_dir) first),
          how,
        )
  ]

  -- `set` drives a known state's plan, whose first setting is the trigger, in the plan's order: when it
  -- returns, all of the settings were written; when a write fails, it raises led_write_failed and
  -- only the settings before that one were written.
  pub set_state-IsPart :
      (state led_dir : String) (before settings : List Setting)
      → plan state ≡ some settings
      → IsTriggerFirst settings
        × IsPart led_dir settings before (set_state fails state led_dir before)
  unfolding set_state
  set_state-IsPart state led_dir before settings h = (
    plan-IsTriggerFirst state settings h,
    rw (h, set_state) (write_all-IsPart led_dir settings before),
  )
