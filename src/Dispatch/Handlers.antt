-- ===== src/Dispatch/Handlers.antt =====
-- The vetted handlers of `dispatch.run` (box/lib/causb/dispatch.py), and refusals.
use Prim.Native.String.{◌++◌ as ◌<>◌}
use nebula_ca_harness.Prelude.{
  ℕ, String, ◌≡◌, refl, ap, sym, subst, inl, inr, true, some, List, [], ◌∷◌, ◌++◌, All, arith, ◌==◌,
  string_eq, str_iff, contains, Bool-cases, Option-cases, if◌then◌else◌,
}
use nebula_ca_harness.Prelude.Dict.{lookup}
use nebula_ca_harness.Json.{Value, Fields}
use nebula_ca_harness.Dispatch.{
  Act, spawn, audit_privileged, unlink_job_json, Launch, World, Env, exec, flag, set_env,
  vetted_handler_env, is_true, is_safe_component, find_handler, run_handler, run_vetted_handler,
  run,
}
use nebula_ca_harness.Dispatch.Privilege.{launches, launches-if, exec-launches}

lookup-set_env :
    (name value k : String) (env : Env)
    → lookup k (set_env name value env) ≡ (if name == k then some value else lookup k env)
unfolding lookup
lookup-set_env name value k [] = refl
lookup-set_env name value k ((n, v) ∷ env) =
    ground (arith, lookup-set_env name value k env, str_iff n name, str_iff n k, str_iff name k)

-- Both authorization flags are in the handler's environment, whatever it inherits: "1" for the
-- literal `True` and "0" for any other value.
vetted_handler_env_flags :
    (environ : Env) (cosigned bg_authorized : Value)
    → let env = vetted_handler_env environ cosigned bg_authorized in
      (lookup "CA_USB_COSIGNED" env ≡ some (flag (is_true cosigned)))
      × (lookup "CA_USB_BG_AUTHORIZED" env ≡ some (flag (is_true bg_authorized)))
unfolding vetted_handler_env
vetted_handler_env_flags environ cosigned bg_authorized =
    (rw lookup-set_env (rw lookup-set_env), rw lookup-set_env)

-- A handler is found only in one of the directories, under a name that is one safe component.
find_handler-eq-some :
    (w : World) (operation : String) (dirs : List String) (handler : String)
    → find_handler w operation dirs ≡ some handler
    → (d : String) × (contains dirs d ≡ true)
      × (handler ≡ d <> "/" <> operation)
      × (is_safe_component operation ≡ true)
      × (w.is_executable handler ≡ true)
unfolding find_handler
find_handler-eq-some w operation [] handler h = absurd cc
find_handler-eq-some w operation (d ∷ dirs) handler h =
    elim (Bool-cases (is_safe_component operation)) [
      | inl safe ↦ elim (Bool-cases (w.is_executable (d <> "/" <> operation))) [
        | inl run ↦
            let e : handler ≡ d <> "/" <> operation = ground (arith, safe, run) in
            (
              d,
              ground (arith, str_iff d d),
              e,
              safe,
              subst (λ x. w.is_executable x ≡ true) (sym e) run,
            )
        | inr not_run ↦
            let rest : find_handler w operation dirs ≡ some handler =
              ground (arith, safe, not_run) in
            let (d', there, e, s, x) = find_handler-eq-some w operation dirs handler rest in
            (d', ground arith, e, s, x)
      ]
      | inr unsafe ↦ absurd (ground (arith, unsafe))
    ]

-- The command line and the environment of a handler's child.
abbrev pub IsVetted :
    World → String → String → String → Value → Value → List String → Launch → Type 0
IsVetted w operation payload_dir out_dir cosigned bg_authorized dirs l =
    (d : String) × (contains dirs d ≡ true)
    × (is_safe_component operation ≡ true)
    × (w.is_executable (d <> "/" <> operation) ≡ true)
    × (l.argv ≡ (d <> "/" <> operation) ∷ w.job_json_path ∷ payload_dir ∷ out_dir ∷ [])
    × (l.env ≡ vetted_handler_env w.environ cosigned bg_authorized)
    × (lookup "CA_USB_COSIGNED" l.env ≡ some (flag (is_true cosigned)))
    × (lookup "CA_USB_BG_AUTHORIZED" l.env ≡ some (flag (is_true bg_authorized)))

module _ (w : World) (operation : String) (job : Fields) (payload_dir out_dir : String)
    (cosigned bg_authorized : Value) (timeout_s : ℕ) (dirs : List String) where
  launches-append :
      (P : Launch → Type 0) (xs ys : List Act)
      → All P (launches xs)
      → All P (launches ys)
      → All P (launches (xs ++ ys))
  launches-append P [] ys hx hy = hy
  launches-append P (spawn l ∷ xs) ys hx hy = (hx.0, launches-append P xs ys hx.1 hy)
  launches-append P (audit_privileged _ _ ∷ xs) ys hx hy = launches-append P xs ys hx hy
  launches-append P (x ∷ xs) ys hx hy = launches-append P xs ys hx hy

  -- A vetted operation starts no child but the executable of its own name, one safe path component,
  -- in one of the handler directories, on job.json, the payload and the output directory. Its
  -- environment is the inherited one but for the two authorization flags, each of which is "1" for the
  -- literal `True` and "0" for any other value.
  pub run_vetted_handler-IsVetted :
      All (IsVetted w operation payload_dir out_dir cosigned bg_authorized dirs) (
        launches
          (run_vetted_handler w operation job payload_dir out_dir cosigned bg_authorized timeout_s
            dirs).acts)
  unfolding run_vetted_handler run_handler
  run_vetted_handler-IsVetted = elim (Bool-cases (is_safe_component operation)) [
    | inl safe ↦ elim (Option-cases (find_handler w operation dirs)) [
      | inl absent ↦ rw (safe, absent, run_vetted_handler) tt
      | inr (handler, found) ↦
          let (d, there, e, s, x) = find_handler-eq-some w operation dirs handler found in
          let flags = vetted_handler_env_flags w.environ cosigned bg_authorized in
          rw (safe, found, run_vetted_handler)
            (launches-if _ w.can_write_job _ _
              (launches-append _ (exec w _).0 (unlink_job_json ∷ [])
                (exec-launches _ w _ (
                  d,
                  there,
                  s,
                  subst (λ y. w.is_executable y ≡ true) e x,
                  ap (λ y. y ∷ w.job_json_path ∷ payload_dir ∷ out_dir ∷ []) e,
                  refl,
                  flags.0,
                  flags.1,
                ))
                tt)
              tt)
    ]
    | inr unsafe ↦ rw unsafe tt
  ]
