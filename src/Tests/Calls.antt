-- ===== src/Tests/Calls.antt =====
-- Calls of `nebula-cert` by box/lib/causb/nebulacli.py.
use nebula_ca_harness.Prelude.{◌≡◌, ◌↔◌, true, some, none, String, [], ◌∷◌, ok}
use nebula_ca_harness.Json.{pos, str, obj, arr, cons, nil, Fields, end, field}
use nebula_ca_harness.Nebulacli.{World, finished, Signing, is_clean, print_argv, print_json}
use nebula_ca_harness.Nebulacli.Calls.{Prints, Holds, print_json_iff}

abbrev details : Fields
details = field "fingerprint" (str "abcd") end

abbrev world : World
world = record {
  runner = λ argv timeout_s. finished (pos 0) "[...]";
  loads = λ text. some (arr (cons (obj details) nil));
}

print_json_iff_example : ((print_json world "/ca/ca.crt" 30).result ≡ ok details) ↔ (
    (is_clean (print_argv "/ca/ca.crt") ≡ true)
    × ((out : String) × Prints world (print_argv "/ca/ca.crt") 30 out
        × Holds (world.loads out) details))
print_json_iff_example = print_json_iff world "/ca/ca.crt" 30 details

abbrev host : Signing
host = record {
  ca_crt = "/ca/ca.crt";
  ca_key = "/ca/ca.key";
  in_pub = "/run/host.pub";
  name = "lighthouse";
  networks = "10.66.0.9/16";
  duration = "43800h";
  out_crt = "/run/host.crt";
  groups = "lighthouse" ∷ "prod" ∷ [];
  out_qr = none;
}
