-- ===== src/Recovery/Info.antt =====
-- The metadata of the recovery kit, box-info.json and TOOL-VERSIONS.md (box/lib/causb/recovery.py).
use Prim.Native.String.{◌++◌ as ◌<>◌}
use nebula_ca_harness.Prelude.{
  String, Bool, true, false, Option, none, some, List, [], ◌∷◌, ◌++◌, ◌==◌, string_eq,
  if◌then◌else◌,
}
use nebula_ca_harness.Json.{
  ℤ, pos, Value, null, bool, int, str, arr, obj, nil, cons, end, field, get,
}
use nebula_ca_harness.Mountctl.{is_zero}
use nebula_ca_harness.Text.{drop_chars, ends_line, lines_by, strip, words, starts_with}
use nebula_ca_harness.Freshness.{box_name, clock_sane}
use nebula_ca_harness.Recovery.{World, Printed, Bytes}

abbrev pub head_of : List String → Option String
head_of [] = none
head_of (s ∷ ss) = some s

-- `re.search(r"Version:\s*(\S+)", text)`
unfoldable pub version_of : String → Option String
unfolding starts_with words
version_of String.[] = none
version_of (String.◌∷◌ c s) =
    let rest = version_of s in
    if starts_with "Version:" (String.◌∷◌ c s) then head_of (words (drop_chars 7 s)) else rest

-- `_first_line`
unfoldable pub first_line : String → String
unfolding lines_by
first_line out = elim (head_of (lines_by ends_line (strip out))) [
  | none ↦ ""
  | some line ↦ strip line
]

-- `fp if isinstance(fp, str) and fp else None`
abbrev pub filled : Value → Option String
filled (str s) = if s == "" then none else some s
filled v = none

-- The fingerprint in what `nebula-cert print -json` printed. What has no `get` is an exception.
unfoldable pub fingerprint_of : Option Value → Option String
unfolding get
fingerprint_of (some (arr (cons (obj d) vs))) = filled (get d "fingerprint")
fingerprint_of (some (obj d)) = filled (get d "fingerprint")
fingerprint_of v = none

abbrev pub or_null : Option String → Value
or_null none = null
or_null (some s) = str s

-- `value or 'unknown'`
abbrev pub or_unknown : String → String
or_unknown s = if s == "" then "unknown" else s

-- `_VERSIONED_TOOLS`
pub record Tool : Type 0 where
  pub name : String
  pub version_arg : String
  pub url : String

abbrev pub nebula_url : String
nebula_url = "https://github.com/slackhq/nebula/releases"

abbrev pub age_url : String
age_url = "https://github.com/FiloSottile/age/releases"

abbrev pub versioned_tools : List Tool
versioned_tools =
    record { name = "nebula-cert"; version_arg = "-version"; url = nebula_url }
    ∷ record { name = "nebula"; version_arg = "-version"; url = nebula_url }
    ∷ record { name = "age"; version_arg = "--version"; url = age_url }
    ∷ record { name = "age-keygen"; version_arg = "--version"; url = age_url }
    ∷ []

-- `"\n".join(lines)`
unfoldable pub join_lines : List String → String
join_lines [] = ""
join_lines (s ∷ []) = s
join_lines (s ∷ t ∷ ss) = s <> "\n" <> join_lines (t ∷ ss)

module _ (w : World) where
  -- What the tool printed, where it is there, could be run, and printed something.
  abbrev pub printed : String → List String → Option Printed
  printed name args = elim (w.which name) [
    | none ↦ none
    | some resolved ↦ w.capture (resolved ∷ args)
  ]

  -- `_nebula_cert_version`
  unfoldable pub nebula_cert_version : Option String
  unfolding version_of
  nebula_cert_version = elim (printed "nebula-cert" ("-version" ∷ [])) [
    | none ↦ none
    | some p ↦ version_of p.stdout
  ]

  -- `_ca_fingerprint`
  unfoldable pub ca_fingerprint : String → Option String
  unfolding fingerprint_of
  ca_fingerprint ca_crt = elim (printed "nebula-cert" ("print" ∷ "-json" ∷ "-path" ∷ ca_crt ∷ [])) [
    | none ↦ none
    | some p ↦
        if is_zero p.returncode
        then (if p.stdout == "" then none else fingerprint_of (w.loads p.stdout))
        else none
  ]

  -- `_read_seq`
  unfoldable pub read_seq : ℤ
  read_seq = elim w.seq [ none ↦ pos 0 | some n ↦ n ]

  abbrev pub versions : Value
  versions = obj (
      field "manifest" (int (pos 1))
        (field "status" (int (pos 1)) (field "error" (int (pos 1)) end)))

  abbrev pub pending : Bool → Value
  pending true = arr (cons (str "overlay_cidr") nil)
  pending false = arr (cons (str "ca_fingerprint") (cons (str "overlay_cidr") nil))

  abbrev pub fingerprint_if : Bool → String → Option String
  fingerprint_if true ca_crt = ca_fingerprint ca_crt
  fingerprint_if false ca_crt = none

  -- `_build_box_info`
  unfoldable pub build_box_info : String → Bool → Value
  unfolding nebula_cert_version ca_fingerprint read_seq clock_sane
  build_box_info ca_crt bootstrapped = obj (
      field "box" (str box_name) (
        field "seq" (int read_seq) (
          field "bootstrapped" (bool bootstrapped) (
            field "nebula_cert_version" (or_null nebula_cert_version) (
              field "curve" (str "25519") (
                field "schema_versions" versions (
                  field "rtc_ok" (bool (clock_sane w.year)) (
                    field "ca_fingerprint" (or_null (fingerprint_if bootstrapped ca_crt)) (
                      field "overlay_cidr" null (
                        field "pending_bootstrap" (pending bootstrapped)
                          (field "generated_at" (str w.generated_at) end)))))))))))

  -- The bytes of box-info.json.
  unfoldable pub box_info : String → Bool → Bytes
  unfolding build_box_info
  box_info ca_crt bootstrapped = w.encode (w.dumps (build_box_info ca_crt bootstrapped) <> "\n")

  abbrev pub version_line : Option Printed → String
  version_line none = ""
  version_line (some p) = first_line p.stdout

  abbrev pub hash_line : Option Bytes → String
  hash_line none = ""
  hash_line (some b) = w.sha256 b

  abbrev pub found_lines : Tool → Option String → List String
  found_lines t none = "- not installed" ∷ []
  found_lines t (some resolved) =
      ("- version: `"
        <> or_unknown (version_line (w.capture (resolved ∷ t.version_arg ∷ [])))
        <> "`")
      ∷ ("- sha256: `" <> or_unknown (hash_line (w.binary resolved)) <> "`")
      ∷ ("- path: `" <> resolved <> "`")
      ∷ []

  -- The turns of the loop over the tools.
  unfoldable pub tool_lines : List Tool → List String
  unfolding first_line
  tool_lines [] = []
  tool_lines (t ∷ ts) =
      ("## " <> t.name)
      ∷ (found_lines t (w.which t.name) ++ (("- releases: " <> t.url) ∷ "" ∷ tool_lines ts))

  -- The bytes of TOOL-VERSIONS.md.
  unfoldable pub tool_versions : Bytes
  unfolding tool_lines join_lines
  tool_versions = w.encode (
      join_lines (
        "# Tool versions (match these when rebuilding the box)"
        ∷ ""
        ∷ "For each binary: the version this box runs, the SHA-256 of the actual"
        ∷ "on-box binary (so a rebuilt box can be verified against this exact"
        ∷ "build), and the upstream releases page to re-fetch the matching arm64"
        ∷ "build from."
        ∷ ""
        ∷ (tool_lines versioned_tools ++ (("- python3: `" <> w.python_version <> "`") ∷ "" ∷ []))))
