-- ===== src/Tests/Gates.antt =====
-- Signatures, archives and children: box/lib/causb/verify.py, extract.py and dispatch.py.
use nebula_ca_harness.Prelude.{
  ◌≤◌, String, ◌≡◌, ◌≢◌, refl, ◌↔◌, Bool, true, some, [], ◌∷◌, All, length, string_eq, ok, err,
  ◌==◌, nat_eq, if◌then◌else◌,
}
use nebula_ca_harness.Json.{pos, null, bool, str, arr, obj, nil, cons, Fields, end, field, get}
use nebula_ca_harness.Names.{codes, split_slash, has_slash, is_dots, has_control}
use nebula_ca_harness.Text.{lines_by, rstrip, lstrip, words, starts_with}
use nebula_ca_harness.Dispatch.{
  World, exited, is_safe_component, is_true, is_privileged, find_handler, run_script,
  run_vetted_handler,
}
use nebula_ca_harness.Dispatch.Privilege.{
  launches, IsConfined, IsAudited, run_script-IsConfined, run_script-IsAudited,
}
use nebula_ca_harness.Dispatch.Handlers.{IsVetted, run_vetted_handler-IsVetted}
use nebula_ca_harness.Verify.{
  cosign_failed, Tools, is_abs, not_blank, principal_of, blob_of, blobs_of, find_principal,
  verify_bytes, authenticate, verify, key_blobs, verify_cosign,
}
use nebula_ca_harness.Verify.Cosign.{Vouches, IsCosigned, verify_iff, verify_cosign-IsCosigned}
use nebula_ca_harness.Extract.{
  nil as no_entries, find, place, Member, Stream, done, next, max_files, max_bytes, safe_name,
  check_size, check_member, until_nul, write_leaf, descend, write_parts, write_member, extract_loop,
  extract,
}
use nebula_ca_harness.Extract.Policy.{
  members, ends_well, total_size, IsAcceptable, extract-IsAccepted,
}
use nebula_ca_harness.Extract.Frame.{extract-find}

abbrev world : World
world = record {
  child = λ l. exited (pos 0);
  is_executable = λ path. path == "/opt/handlers/status";
  environ = [];
  job_user = some ("999", "998");
  can_audit = true;
  can_grant = true;
  can_write_job = true;
  job_json_path = "/tmp/job.json";
}

-- A job that asks for root.
abbrev root_job : Fields
root_job = field "job_id" (str "j1") (
    field "payload" (arr (cons (str "run.sh") nil)) (
      field "entrypoint" (str "run.sh")
        (field "args" (obj (field "privileged" (bool true) end)) end)))

run_script-IsConfined_example :
    All
      (IsConfined world root_job "/run/payload" "/run/out" (bool true) 300)
      (launches (run_script world root_job "/run/payload" "/run/out" (bool true) 300).acts)
run_script-IsConfined_example =
    run_script-IsConfined world root_job "/run/payload" "/run/out" (bool true) 300

root_job_asks : is_privileged root_job ≡ true
unfolding is_privileged is_true get
root_job_asks = refl

run_script-IsAudited_example :
    IsAudited root_job "/run/payload" world.can_audit
      (run_script world root_job "/run/payload" "/run/out" (bool true) 300).acts
run_script-IsAudited_example =
    run_script-IsAudited world root_job "/run/payload" "/run/out" (bool true) 300 root_job_asks

run_vetted_handler-IsVetted_example :
    All (IsVetted world "status" "/run/payload" "/run/out" null null ("/opt/handlers" ∷ [])) (
      launches
        (run_vetted_handler world "status" end "/run/payload" "/run/out" null null 300
          ("/opt/handlers" ∷ [])).acts)
run_vetted_handler-IsVetted_example =
    run_vetted_handler-IsVetted world "status" end "/run/payload" "/run/out" null null 300
      ("/opt/handlers" ∷ [])

handler_run : find_handler world "status" ("/opt/handlers" ∷ []) ≡ some "/opt/handlers/status"
unfolding find_handler is_safe_component has_slash is_dots has_control
handler_run = refl

-- A signature tool that always finds one principal, with two anchor files.
abbrev tools : Tools
tools = record {
  run = λ argv input. some (record { returncode = pos 0; stdout = some "operator" });
  bytes = λ path. some (1 ∷ []);
  text = λ path. some (if path == "/a" then "op ssh-ed25519 AAAA" else "bg ssh-ed25519 BBBB");
}

cosign_run : verify_cosign tools "t" "s" "/b" "/a" ≡ ok tt
unfolding verify_cosign starts_with authenticate find_principal principal_of not_blank lines_by
    rstrip lstrip verify_bytes key_blobs blobs_of blob_of words
cosign_run = refl

verify_cosign-IsCosigned_example : IsCosigned tools "t" "s" "/b" "/a"
verify_cosign-IsCosigned_example = verify_cosign-IsCosigned tools "t" "s" "/b" "/a" cosign_run

-- One anchor file for both is refused.
same_run : verify_cosign tools "t" "s" "/a" "/a" ≡ err cosign_failed
unfolding verify_cosign starts_with authenticate find_principal principal_of not_blank lines_by
    rstrip lstrip verify_bytes key_blobs blobs_of blob_of words
same_run = refl

a_is_abs : is_abs "/a" ≡ true
unfolding starts_with
a_is_abs = refl

verify_iff_example :
    (verify tools "t" "s" "/a" ≡ ok "operator")
    ↔ ((is_abs "/a" ≡ true) × Vouches tools "t" "s" "/a" "operator")
verify_iff_example = verify_iff tools "t" "s" "/a" "operator"

-- A tar with a manifest and one payload file.
abbrev member : String → Member
member name = record { name = name; size = pos 2; isreg = true; bytes = some (1 ∷ 2 ∷ []) }

abbrev tar : Stream
tar = next (member "manifest.json") (next (member "payload/run.sh") done)

abbrev accepts : String → Bool
accepts name = true

tar_run : (extract accepts (some tar) no_entries).result ≡ ok tt
unfolding extract extract_loop check_member check_size safe_name split_slash starts_with
    write_member write_parts write_leaf descend until_nul find place is_dots
tar_run = refl

extract-IsAccepted_example :
    (ends_well tar ≡ true)
    × All IsAcceptable (members tar)
    × (length (members tar) ≤ max_files)
    × (total_size (members tar) ≤ max_bytes)
extract-IsAccepted_example = extract-IsAccepted accepts tar no_entries tar_run

abbrev etc : String
etc = "etc"

etc-ne-manifest : codes etc ≢ codes "manifest.json"
etc-ne-manifest e = absurd cc

etc-ne-payload : codes etc ≢ codes "payload"
etc-ne-payload e = absurd cc

extract-find_example : find (extract accepts (some tar) no_entries).tree etc ≡ find no_entries etc
extract-find_example = extract-find accepts (some tar) no_entries etc etc-ne-manifest etc-ne-payload
