-- ===== src/Nebulacli/Calls.antt =====
-- Which commands box/lib/causb/nebulacli.py runs, and what it makes of their answers.
use nebula_ca_harness.Prelude.{
  ℕ, String, ◌≡◌, refl, ◌⊎◌, ◌↔◌, inl, inr, true, false, any, Option, none, some, List, [], ◌∷◌,
  All, ok, err, bind_inv, ok-injective, Bool-cases,
}
use nebula_ca_harness.Json.{ℤ, Value, null, bool, int, float, str, arr, obj, nil, cons, Fields}
use nebula_ca_harness.Mountctl.{is_zero}
use nebula_ca_harness.Names.{has_control}
use nebula_ca_harness.Nebulacli.{
  value_error, Answer, finished, timed_out, not_found, raised, World, Call, is_clean, output_of,
  Signing, sign_argv, print_argv, as_object, only_object, run, print_json,
}

-- The command exits with 0 and prints the text.
abbrev pub Prints : World → List String → ℕ → String → Type 0
Prints w argv timeout_s out =
    (returncode : ℤ) × (w.runner argv timeout_s ≡ finished returncode out)
    × (is_zero returncode ≡ true)

output_of_inv :
    (a : Answer) {out : String}
    → output_of a ≡ ok out
    → (returncode : ℤ) × (a ≡ finished returncode out) × (is_zero returncode ≡ true)
output_of_inv (finished n s) h = elim (Bool-cases (is_zero n)) [
  | inl e ↦ let same : s ≡ _ = ok-injective (rw e at h) in (n, cc, e)
  | inr e ↦ absurd (cc (rw e at h))
]
output_of_inv timed_out h = absurd cc
output_of_inv not_found h = absurd cc
output_of_inv raised h = absurd cc

run_iff :
    (w : World) (argv : List String) (timeout_s : ℕ) (out : String)
    → ((run w argv timeout_s).result ≡ ok out)
      ↔ ((is_clean argv ≡ true) × Prints w argv timeout_s out)
unfolding run
run_iff w argv timeout_s out = elim (Bool-cases (is_clean argv)) [
  | inl e ↦ (
    λ h. (e, output_of_inv (w.runner argv timeout_s) (rw (e, run) at h)),
    λ (_, (n, a, z)). rw (e, run, a, z) refl,
  )
  | inr e ↦ (λ h. absurd (cc (rw (e, run) at h)), λ (c, _). absurd cc)
]

-- An object, or a list of it alone.
abbrev pub Holds : Option Value → Fields → Type 0
Holds v d = (v ≡ some (obj d)) ⊎ (v ≡ some (arr (cons (obj d) nil)))

as_object_inv : (v : Value) {d : Fields} → as_object v ≡ ok d → v ≡ obj d
as_object_inv (obj e) h = cc
as_object_inv v h = absurd cc

only_object_iff : (v : Option Value) (d : Fields) → (only_object v ≡ ok d) ↔ Holds v d
unfolding only_object
only_object_iff v d = (forth v, back v)
  where
    forth : (v : Option Value) → only_object v ≡ ok d → Holds v d
    forth none h = absurd cc
    forth (some (arr nil)) h = absurd cc
    forth (some (arr (cons (obj e) nil))) h = inr cc
    forth (some (arr (cons null nil))) h = absurd cc
    forth (some (arr (cons (bool b) nil))) h = absurd cc
    forth (some (arr (cons (int n) nil))) h = absurd cc
    forth (some (arr (cons (float s) nil))) h = absurd cc
    forth (some (arr (cons (str s) nil))) h = absurd cc
    forth (some (arr (cons (arr vs) nil))) h = absurd cc
    forth (some (arr (cons v (cons u us)))) h = absurd cc
    forth (some (obj e)) h = inl cc
    forth (some null) h = absurd cc
    forth (some (bool b)) h = absurd cc
    forth (some (int n)) h = absurd cc
    forth (some (float s)) h = absurd cc
    forth (some (str s)) h = absurd cc

    back : (v : Option Value) → Holds v d → only_object v ≡ ok d
    back v (inl e) = rw (e, only_object) refl
    back v (inr e) = rw (e, only_object) refl

-- `print_json` returns a dict if and only if no argument has a control character and the command
-- exited with 0 and printed, as JSON, this object or a list that holds it alone.
pub print_json_iff :
    (w : World) (cert_path : String) (timeout_s : ℕ) (d : Fields)
    → ((print_json w cert_path timeout_s).result ≡ ok d) ↔ (
        (is_clean (print_argv cert_path) ≡ true)
        × ((out : String) × Prints w (print_argv cert_path) timeout_s out × Holds (w.loads out) d))
unfolding print_json
print_json_iff w cert_path timeout_s d = (
  λ h. bind_inv (run w (print_argv cert_path) timeout_s).result h λ out e1 h1.
      let (clean, printed) = (run_iff w (print_argv cert_path) timeout_s out).0 e1 in
      (clean, (out, printed, (only_object_iff (w.loads out) d).0 h1)),
  λ (clean, (out, printed, held)).
      rw ((run_iff w (print_argv cert_path) timeout_s out).1 (clean, printed))
        ((only_object_iff (w.loads out) d).1 held),
)

-- What `sign` does: it runs its one command, whose arguments are clean, or it runs nothing.
abbrev pub IsSigned : World → Signing → ℕ → Call (Unit {0}) → Type 0
IsSigned w s timeout_s c =
    (All (λ arg. has_control arg ≡ false) (sign_argv s)
      × (c.ran ≡ sign_argv s ∷ [])
      × ((c.result ≡ ok tt) ↔ ((out : String) × Prints w (sign_argv s) timeout_s out)))
    ⊎ ((any has_control (sign_argv s) ≡ true) × (c.ran ≡ []) × (c.result ≡ err value_error))
