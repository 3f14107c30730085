-- ===== src/Dispatch/Privilege.antt =====
-- The privilege boundary of `dispatch.run` (box/lib/causb/dispatch.py).
use Prim.Native.String.{◌++◌ as ◌<>◌}
use nebula_ca_harness.Prelude.{
  ℕ, String, ◌≡◌, refl, ◌⊎◌, inl, inr, Bool, true, false, Option, none, some, List, [], ◌∷◌, ◌++◌,
  All, Result, ok, sym, subst, string_eq, Bool-cases, Result-cases, if◌then◌else◌,
}
use nebula_ca_harness.Json.{ℤ, pos, Value, bool, Fields, get}
use nebula_ca_harness.Dispatch.{
  Act, spawn, audit_privileged, kill_group, Child, exited, timed_out, not_spawned, Fault, Launch,
  World, Run, exec, scrubbed_env, unshare_pidns, is_privileged, is_true, run_as_root,
  run_as_job_user, run_entry, run_script, validate_entrypoint,
}

-- The children that were started.
abbrev pub launches : List Act → List Launch
launches [] = []
launches (spawn l ∷ acts) = l ∷ launches acts
launches (a ∷ acts) = launches acts

-- Root in a PID namespace.
abbrev pub IsRoot : String → Launch → Type 0
IsRoot script l = l.argv ≡ unshare_pidns ++ ("/bin/sh" ∷ script ∷ [])

-- The job's account, with no supplementary groups.
abbrev pub IsDropped : World → String → Launch → Type 0
IsDropped w script l =
    (user : String × String) × (w.job_user ≡ some user)
    × (l.argv
        ≡ unshare_pidns
          ++ ("setpriv"
              ∷ ("--reuid=" <> user.0)
              ∷ ("--regid=" <> user.1)
              ∷ "--clear-groups"
              ∷ "/bin/sh"
              ∷ script
              ∷ []))

is_true-eq-true : (v : Value) → is_true v ≡ true → v ≡ bool true
unfolding is_true
is_true-eq-true (bool true) h = refl
is_true-eq-true (bool false) h = absurd cc
is_true-eq-true v h = absurd cc

pub exec-launches :
    (P : Launch → Type 0) (w : World) (l : Launch) → P l → All P (launches (exec w l).0)
unfolding exec
exec-launches P w l h = go (w.child l)
  where
    go :
        (c : Child)
        → All P (
            launches
              (elim c as (λ _. List Act × Option ℤ) [
                | exited code ↦ (spawn l ∷ [], some code)
                | timed_out ↦ (spawn l ∷ kill_group ∷ [], some (pos 124))
                | not_spawned ↦ ([], none)
              ]).0)
    go (exited code) = (h, tt)
    go timed_out = (h, tt)
    go not_spawned = tt

pub launches-if :
    (P : Launch → Type 0) (b : Bool) (x y : Run)
    → All P (launches x.acts)
    → All P (launches y.acts)
    → All P (launches (if b then x else y).acts)
launches-if P true x y h k = h
launches-if P false x y h k = k

module _ (w : World) (job : Fields) (payload_dir out_dir : String) (cosigned : Value)
    (timeout_s : ℕ) where
  -- What a run-script child may be.
  abbrev pub IsConfined : Launch → Type 0
  IsConfined l =
      (entrypoint : String) × (validate_entrypoint job ≡ ok entrypoint)
      × (l.env ≡ scrubbed_env out_dir)
      × (l.cwd ≡ out_dir)
      × (((is_privileged job ≡ true)
            × (cosigned ≡ bool true)
            × IsRoot (payload_dir <> "/" <> entrypoint) l)
          ⊎ ((is_privileged job ≡ false) × IsDropped w (payload_dir <> "/" <> entrypoint) l))

  module _ (e : String) (valid : validate_entrypoint job ≡ ok e) where
    run_as_root-IsConfined :
        is_privileged job ≡ true
        → cosigned ≡ bool true
        → All IsConfined
            (launches (run_as_root w job (payload_dir <> "/" <> e) out_dir timeout_s).acts)
    unfolding run_as_root
    run_as_root-IsConfined p c =
        launches-if IsConfined w.can_audit _ _
          (exec-launches IsConfined w _ (e, valid, refl, refl, inl (p, c, refl))) tt

    run_as_job_user-IsConfined :
        (user : Option (String × String))
        → is_privileged job ≡ false
        → w.job_user ≡ user
        → All IsConfined (
            launches
              (run_as_job_user w (payload_dir <> "/" <> e) payload_dir out_dir timeout_s user).acts)
    unfolding run_as_job_user
    run_as_job_user-IsConfined none p u = tt
    run_as_job_user-IsConfined (some (uid, gid)) p u =
        launches-if IsConfined w.can_grant _ _
          (exec-launches IsConfined w _ (e, valid, refl, refl, inr (p, ((uid, gid), u, refl)))) tt

    run_entry-IsConfined :
        All IsConfined (launches (run_entry w job payload_dir out_dir cosigned timeout_s e).acts)
    unfolding run_entry
    run_entry-IsConfined = elim (Bool-cases (is_privileged job)) [
      | inl p ↦ elim (Bool-cases (is_true cosigned)) [
        | inl c ↦ rw (p, c) (run_as_root-IsConfined p (is_true-eq-true cosigned c))
        | inr c ↦ rw (p, c) tt
      ]
      | inr p ↦ rw p (run_as_job_user-IsConfined w.job_user p refl)
    ]

  -- Every child that a run-script job starts runs the validated entrypoint in `out_dir` with PATH
  -- and HOME alone for an environment. It is root only if the job asks for it by the literal `true`
  -- and the co-signature is the literal `True`; otherwise it is dropped to the job's account.
  pub run_script-IsConfined :
      All IsConfined (launches (run_script w job payload_dir out_dir cosigned timeout_s).acts)
  unfolding run_script
  run_script-IsConfined = elim (Result-cases (validate_entrypoint job)) [
    | inl (e, valid) ↦ rw (valid, run_script) (run_entry-IsConfined e valid)
    | inr (f, refused) ↦ rw (refused, run_script) tt
  ]

-- Nothing was started, or the audit line was written first, and names the job's id and the script that
-- the children run: the validated entrypoint in `payload_dir`.
abbrev pub IsAudited : Fields → String → Bool → List Act → Type 0
IsAudited job payload_dir can_audit acts =
    (launches acts ≡ [])
    ⊎ ((entrypoint : String) × (rest : List Act) × (validate_entrypoint job ≡ ok entrypoint)
        × (acts ≡ audit_privileged (get job "job_id") (payload_dir <> "/" <> entrypoint) ∷ rest)
        × All (IsRoot (payload_dir <> "/" <> entrypoint)) (launches rest)
        × (can_audit ≡ true))

IsAudited-if :
    (job : Fields) (payload_dir : String) (b : Bool) (e : String) (acts : List Act)
    (q r : Result Fault ℤ)
    → validate_entrypoint job ≡ ok e
    → All (IsRoot (payload_dir <> "/" <> e)) (launches acts)
    → IsAudited job payload_dir b (
        Run.acts (
          if b
          then record {
            acts = audit_privileged (get job "job_id") (payload_dir <> "/" <> e) ∷ acts;
            result = q;
          }
          else record { acts = []; result = r }))
IsAudited-if job payload_dir true e acts q r valid root = inr (e, acts, valid, refl, root, refl)
IsAudited-if job payload_dir false e acts q r valid root = inl refl

module _ (w : World) (job : Fields) (payload_dir out_dir : String) (cosigned : Value)
    (timeout_s : ℕ) (asked : is_privileged job ≡ true) where
  run_entry-IsAudited :
      (e : String)
      → validate_entrypoint job ≡ ok e
      → IsAudited job payload_dir w.can_audit
          (run_entry w job payload_dir out_dir cosigned timeout_s e).acts
  unfolding run_entry run_as_root
  run_entry-IsAudited e valid = elim (Bool-cases (is_true cosigned)) [
    | inl c ↦
        rw (asked, c)
          (IsAudited-if job payload_dir w.can_audit e _ _ _ valid
            (exec-launches (IsRoot (payload_dir <> "/" <> e)) w _ refl))
    | inr c ↦ rw (asked, c) (inl refl)
  ]

  -- The audit line of a run-script job whose manifest sets `privileged` to the literal `true` comes
  -- before its child. A run that starts a child has first written the line with the job's id and the
  -- path of the validated entrypoint in `payload_dir`, and what it starts after it is that script
  -- as root; where the line cannot be written nothing is started.
  pub run_script-IsAudited :
      IsAudited job payload_dir w.can_audit
        (run_script w job payload_dir out_dir cosigned timeout_s).acts
  unfolding run_script
  run_script-IsAudited = elim (Result-cases (validate_entrypoint job)) [
    | inl (e, valid) ↦
        let entered : run_script w job payload_dir out_dir cosigned timeout_s
            ≡ run_entry w job payload_dir out_dir cosigned timeout_s e =
          rw (valid, run_script) refl in
        subst (λ r. IsAudited job payload_dir w.can_audit r.acts) (sym entered)
          (run_entry-IsAudited e valid)
    | inr (f, refused) ↦ inl (rw (refused, run_script) refl)
  ]
