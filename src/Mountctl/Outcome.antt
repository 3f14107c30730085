-- ===== src/Mountctl/Outcome.antt =====
-- The outcomes of the mount commands of box/lib/causb/mountctl.py.
use nebula_ca_harness.Prelude.{
  ℕ, zero, suc, ◌*◌, ◌<◌, String, ◌≡◌, refl, ◌⊎◌, inl, inr, true, false, List, [], ◌∷◌, ◌++◌, arith,
  Bool-cases, Result, ok, err,
}
use nebula_ca_harness.Mountctl.{
  Reason, deliver_failed, Completed, Event, ran, slept, Machine, is_zero, is_busy, pause,
  umount_argv, umount_loop, umount,
}

-- The events of `k` attempts that all found the target busy, each with its pause, which doubles.
abbrev pub attempts : ℕ → String → ℕ → List Event → List Event
attempts zero mp backoff before = before
attempts (suc k) mp backoff before =
    attempts k mp (backoff * 2) ((before ++ (ran (umount_argv mp) ∷ [])) ++ (slept backoff ∷ []))

module _ (m : Machine) where
  -- What `umount` answers after the events.
  abbrev pub answer : String → List Event → Completed
  answer mp before = m.runner before (umount_argv mp)

  -- The first `k` attempts fail, with a busy target.
  abbrev pub AllBusy : ℕ → String → ℕ → List Event → Type 0
  AllBusy zero mp backoff before = Unit
  AllBusy (suc k) mp backoff before =
      (is_zero (answer mp before).returncode ≡ false)
      × (is_busy (answer mp before) ≡ true)
      × AllBusy k mp (backoff * 2) ((before ++ (ran (umount_argv mp) ∷ [])) ++ (slept backoff ∷ []))

  -- The attempt after the first `k` ones is the last one, and it has the events at its end.
  abbrev pub EndsAt : ℕ → ℕ → String → ℕ → List Event → List Event → Type 0
  EndsAt k n mp backoff before events =
      (k < n)
      × AllBusy k mp backoff before
      × (events ≡ attempts k mp backoff before ++ (ran (umount_argv mp) ∷ []))

  -- The outcomes of `umount` with `n` attempts: the last attempt exits with 0, or it fails otherwise
  -- than busy, or it is the last of `n` and finds the target busy too, or `n` is 0.
  abbrev pub IsOutcome :
      ℕ → String → ℕ → List Event → Result Reason (Unit {0}) → List Event → Type 0
  IsOutcome n mp backoff before (ok u) events =
      (k : ℕ) × EndsAt k n mp backoff before events
      × (is_zero (answer mp (attempts k mp backoff before)).returncode ≡ true)
  IsOutcome n mp backoff before (err e) events =
      (e ≡ deliver_failed)
      × (((n ≡ 0) × (events ≡ before))
          ⊎ ((k : ℕ) × EndsAt k n mp backoff before events
              × (is_zero (answer mp (attempts k mp backoff before)).returncode ≡ false)
              × ((is_busy (answer mp (attempts k mp backoff before)) ≡ false) ⊎ (suc k ≡ n))))

  later :
      (n : ℕ) (mp : String) (backoff : ℕ) (before : List Event) (r : Result Reason (Unit {0}))
      (events : List Event)
      → is_zero (answer mp before).returncode ≡ false
      → is_busy (answer mp before) ≡ true
      → IsOutcome
          (suc n)
          mp
          (backoff * 2)
          ((before ++ (ran (umount_argv mp) ∷ [])) ++ (slept backoff ∷ []))
          r
          events
      → IsOutcome (suc (suc n)) mp backoff before r events
  later n mp backoff before (ok u) events fails busy (k, (lt, all_busy, shape), zero_code) =
      (suc k, (omega (arith, lt), (fails, busy, all_busy), shape), zero_code)
  later n mp backoff before (err e) events fails busy (reason, o) = elim o [
    | inl (none_left, shape) ↦ absurd (omega (arith, none_left))
    | inr (k, (lt, all_busy, shape), code, why) ↦ (
      reason,
      inr (
        suc k,
        (omega (arith, lt), (fails, busy, all_busy), shape),
        code,
        elim why [ inl calm ↦ inl calm | inr at_end ↦ inr (omega (arith, at_end)) ],
      ),
    )
  ]

  umount_loop-IsOutcome :
      (n : ℕ) (mp : String) (backoff : ℕ) (before : List Event)
      → let r = umount_loop m n mp backoff before in IsOutcome n mp backoff before r.result r.events
  unfolding umount_loop
  umount_loop-IsOutcome zero mp backoff before = (refl, inl (refl, refl))
  umount_loop-IsOutcome (suc n) mp backoff before =
      elim (Bool-cases (is_zero (answer mp before).returncode)) [
        | inl z ↦ rw z (0, (omega arith, tt, refl), z)
        | inr z ↦ elim (Bool-cases (is_busy (answer mp before))) [
          | inl b ↦
              rw (z, b)
                (on_busy n z b (λ backoff' before'. umount_loop-IsOutcome n mp backoff' before'))
          | inr b ↦ rw (z, b) (refl, inr (0, (omega arith, tt, refl), z, inl b))
        ]
      ]
    where
      on_busy :
          (n : ℕ)
          → is_zero (answer mp before).returncode ≡ false
          → is_busy (answer mp before) ≡ true
          → ((backoff' : ℕ) (before' : List Event)
              → let r = umount_loop m n mp backoff' before' in
                IsOutcome n mp backoff' before' r.result r.events)
          → let after = before ++ (ran (umount_argv mp) ∷ []) in
            let r = umount_loop m n mp (backoff * 2) (pause n backoff after) in
            IsOutcome (suc n) mp backoff before r.result r.events
      on_busy zero z b ih = (refl, inr (0, (omega arith, tt, refl), z, inr refl))
      on_busy (suc k) z b ih =
          later k mp backoff before _ _ z b
            (ih (backoff * 2) ((before ++ (ran (umount_argv mp) ∷ [])) ++ (slept backoff ∷ [])))

  -- `umount` returns only when its last command exited with 0; all commands before that one failed on
  -- a busy target, with a pause after each that doubles. It raises `deliver_failed` and nothing else:
  -- with no attempt allowed, or when the last command failed and either its target was not busy or
  -- the allowed attempts are used up. It never runs more commands than it is allowed.
  pub umount-IsOutcome :
      (mp : String) (max_attempts initial_backoff : ℕ) (before : List Event)
      → let r = umount m mp max_attempts initial_backoff before in
        IsOutcome max_attempts mp initial_backoff before r.result r.events
  unfolding umount
  umount-IsOutcome mp max_attempts initial_backoff before =
      umount_loop-IsOutcome max_attempts mp initial_backoff before
