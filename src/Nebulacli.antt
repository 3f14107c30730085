-- ===== src/Nebulacli.antt =====
-- box/lib/causb/nebulacli.py: the calls of `nebula-cert`. A call is the commands that it ran with what it
-- returned. `subprocess.run` and `json.loads` are the parameter `World`; an exception of the runner
-- that the module does not map is `other_error`.
pub mod Calls
use nebula_ca_harness.Prelude.{
  ℕ, String, Bool, true, false, not, any, Option, none, some, List, [], ◌∷◌, ◌++◌, ◌==◌, string_eq,
  nat_eq, if◌then◌else◌, Result, ok, err, ◌>>=◌,
}
use Prim.Native.Char.{code}
use Prim.Native.String.{◌++◌ as ◌<>◌}
use nebula_ca_harness.Json.{
  ℤ, Value, null, bool, int, float, str, arr, obj, Items, nil, cons, Fields,
}
use nebula_ca_harness.Mountctl.{is_zero}
use nebula_ca_harness.Names.{has_control}
use nebula_ca_harness.Text.{strip}

-- `NebulaError.reason`, and the exceptions that are none.
pub data Reason : Type 0 where
  nebula_failed timeout tool_missing value_error other_error : Reason

-- What becomes of `subprocess.run`: it returns its exit code and standard output, or raises
-- `TimeoutExpired`, `FileNotFoundError` or something else.
pub data Answer : Type 0 where
  finished : ℤ → String → Answer
  timed_out : Answer
  not_found : Answer
  raised : Answer

pub record World : Type 0 where
  pub runner : List String → ℕ → Answer
  -- `none` for a `JSONDecodeError`.
  pub loads : String → Option Value

pub record Call (A : Type 0) : Type 0 where
  pub ran : List (List String)
  pub result : Result Reason A

-- `_check_clean`
unfoldable pub is_clean : List String → Bool
unfolding has_control
is_clean argv = not (any has_control argv)

abbrev pub output_of : Answer → Result Reason String
output_of (finished returncode stdout) = if is_zero returncode then ok stdout else err nebula_failed
output_of timed_out = err timeout
output_of not_found = err tool_missing
output_of raised = err other_error

-- What is made of the output.
abbrev pub then_read : {A B : Type 0} → Call A → (A → Result Reason B) → Call B
then_read c f = record { ran = c.ran; result = c.result >>= f }

abbrev pub nothing : {A : Type 0} → A → Result Reason (Unit {0})
nothing a = ok tt

abbrev pub ca_argv : String → String → String → String → String → String → List String
ca_argv name curve version duration out_crt out_key =
    "nebula-cert" ∷ "ca" ∷ "-name" ∷ name ∷ "-curve" ∷ curve ∷ "-version" ∷ version ∷ "-duration"
    ∷ duration ∷ "-out-crt" ∷ out_crt ∷ "-out-key" ∷ out_key ∷ []

-- `",".join(groups)`
unfoldable pub join_groups : List String → String
join_groups [] = ""
join_groups (g ∷ []) = g
join_groups (g ∷ h ∷ gs) = g <> "," <> join_groups (h ∷ gs)

-- `if groups: argv += ["-groups", ...]`, where `None` is the empty list.
abbrev pub groups_args : List String → List String
groups_args [] = []
groups_args (g ∷ gs) = "-groups" ∷ join_groups (g ∷ gs) ∷ []

abbrev pub qr_args : Option String → List String
qr_args none = []
qr_args (some out_qr) = "-out-qr" ∷ out_qr ∷ []

-- What a host's certificate is signed with.
pub record Signing : Type 0 where
  pub ca_crt : String
  pub ca_key : String
  pub in_pub : String
  pub name : String
  pub networks : String
  pub duration : String
  pub out_crt : String
  pub groups : List String
  pub out_qr : Option String

unfoldable pub sign_argv : Signing → List String
unfolding join_groups
sign_argv s =
    "nebula-cert"
    ∷ "sign"
    ∷ "-ca-crt"
    ∷ s.ca_crt
    ∷ "-ca-key"
    ∷ s.ca_key
    ∷ "-in-pub"
    ∷ s.in_pub
    ∷ "-name"
    ∷ s.name
    ∷ "-networks"
    ∷ s.networks
    ∷ "-duration"
    ∷ s.duration
    ∷ "-version"
    ∷ "1"
    ∷ "-out-crt"
    ∷ s.out_crt
    ∷ (groups_args s.groups ++ qr_args s.out_qr)

abbrev pub print_argv : String → List String
print_argv cert_path = "nebula-cert" ∷ "print" ∷ "-json" ∷ "-path" ∷ cert_path ∷ []

abbrev pub as_object : Value → Result Reason Fields
as_object (obj d) = ok d
as_object v = err nebula_failed

-- One certificate, as an object or in a list of its own.
unfoldable pub only_object : Option Value → Result Reason Fields
only_object none = err nebula_failed
only_object (some (arr (cons v nil))) = as_object v
only_object (some (arr vs)) = err nebula_failed
only_object (some v) = as_object v

-- `text.split(":", 1)[1]`, if there is a colon.
unfoldable pub after_colon : String → Option String
after_colon String.[] = none
after_colon (String.◌∷◌ c s) = let rest = after_colon s in if code c == 58 then some s else rest

-- The version in the output.
unfoldable pub version_text : String → String
unfolding after_colon
version_text out = elim (after_colon (strip out)) [ none ↦ strip out | some rest ↦ strip rest ]

abbrev pub not_empty : String → Result Reason String
not_empty text = if text == "" then err nebula_failed else ok text

module _ (w : World) where
  -- `_run`
  unfoldable pub run : List String → ℕ → Call String
  unfolding is_clean
  run argv timeout_s =
      let answer = output_of (w.runner argv timeout_s) in
      if is_clean argv
      then record { ran = argv ∷ []; result = answer }
      else record { ran = []; result = err value_error }

  unfoldable pub ca : String → String → String → String → String → String → ℕ → Call (Unit {0})
  unfolding run
  ca name curve version duration out_crt out_key timeout_s =
      then_read (run (ca_argv name curve version duration out_crt out_key) timeout_s) nothing

  unfoldable pub sign : Signing → ℕ → Call (Unit {0})
  unfolding run sign_argv
  sign s timeout_s = then_read (run (sign_argv s) timeout_s) nothing

  unfoldable pub print_json : String → ℕ → Call Fields
  unfolding run only_object
  print_json cert_path timeout_s =
      then_read (run (print_argv cert_path) timeout_s) λ out. only_object (w.loads out)

  unfoldable pub version : ℕ → Call String
  unfolding run version_text
  version timeout_s =
      then_read (run ("nebula-cert" ∷ "-version" ∷ []) timeout_s)
        λ out. not_empty (version_text out)
