-- ===== src/Manifest/Valid.antt =====
-- What an accepted manifest is, stated without the parser's order of checks
-- (`parse` of box/lib/causb/manifest.py).
use nebula_ca_harness.Prelude.{
  ℕ, String, ◌≡◌, refl, ◌↔◌, ◌≤◌, true, not, ◌||◌, Option, none, some, List, [], ◌∷◌, map, length,
  all, All, contains, leb, leb→le, Bool-cases, ◌==◌, string_eq, str_iff, arith, ok, bind_inv,
  require_inv, ok-injective, length-map, ap, subst, sym, ◌∙◌, le→leb, inl, inr,
}
use nebula_ca_harness.Json.{
  pos, negsuc, Value, int, str, arr, obj, Items, nil, cons, Fields, get, elements,
}
use nebula_ca_harness.Manifest.{
  Manifest, decoded, as_dict, as_str, as_list, is_version_1, as_seq, only_job, is_safe_name,
  check_names, has_entrypoint, parse_job, parse, manifest_bytes_cap, payload_files_cap,
}
use nebula_ca_harness.Manifest.Uuid.{is_uuid4}

abbrev pub IsListed : List String → String → Type 0
IsListed names name = contains names name ≡ true

-- The job dict of a manifest, and the payload on disk, fit `m`.
pub record IsValidJob (payload_names : List String) (m : Manifest) : Type 0 where
  pub job_id : get m.job "job_id" ≡ str m.job_id
  pub uuid4 : is_uuid4 m.job_id ≡ true
  pub operation : get m.job "operation" ≡ str m.operation
  pub listed : Items
  pub payload : get m.job "payload" ≡ arr listed
  pub names : elements listed ≡ map str m.payload
  pub count : length m.payload ≤ payload_files_cap
  pub safe : All (λ name. is_safe_name name ≡ true) m.payload
  pub extracted : All (IsListed payload_names) m.payload
  pub accounted : all (contains m.payload) payload_names ≡ true
  pub entrypoint :
      m.operation ≡ "run-script"
      → (e : String) × (get m.job "entrypoint" ≡ str e) × IsListed m.payload e

as_str-eq-ok : (v : Value) (s : String) → as_str v ≡ ok s → v ≡ str s
unfolding as_str
as_str-eq-ok (str t) s h = ground arith
as_str-eq-ok v s h = ground arith

-- The loop over the payload returns exactly the listed names, and has tested each.
check_names-eq-ok :
    (payload_names : List String) (vs : List Value) (names : List String)
    → check_names payload_names vs ≡ ok names
    → (vs ≡ map str names)
      × All (λ name. is_safe_name name ≡ true) names
      × All (IsListed payload_names) names
unfolding check_names
check_names-eq-ok payload_names [] [] h = (refl, tt, tt)
check_names-eq-ok payload_names [] (n ∷ ns) h = ground arith
check_names-eq-ok payload_names (str s ∷ vs) [] h =
    ground (arith, Bool-cases (is_safe_name s), Bool-cases (contains payload_names s))
check_names-eq-ok payload_names (str s ∷ vs) (n ∷ ns) h =
    ground (arith, check_names-eq-ok payload_names vs ns)
check_names-eq-ok payload_names (v ∷ vs) names h = ground arith

check_names-ok :
    (payload_names : List String) (names : List String)
    → All (λ name. is_safe_name name ≡ true) names
    → All (IsListed payload_names) names
    → check_names payload_names (map str names) ≡ ok names
unfolding check_names
check_names-ok payload_names [] safe there = refl
check_names-ok payload_names (n ∷ ns) (s, safe) (t, there) =
    rw (s, t, check_names-ok payload_names ns safe there)

as_list-eq-ok :
    (v : Value) (l : List Value) → as_list v ≡ ok l → (i : Items) × (v ≡ arr i) × (elements i ≡ l)
unfolding as_list
as_list-eq-ok (arr i) l h = (i, refl, ok-injective h)
as_list-eq-ok v l h = absurd cc

as_dict-eq-ok : (v : Value) (d : Fields) → as_dict v ≡ ok d → v ≡ obj d
unfolding as_dict
as_dict-eq-ok (obj t) s h = ground arith
as_dict-eq-ok v s h = ground arith

has_entrypoint-eq-true :
    (v : Value) (names : List String)
    → has_entrypoint v names ≡ true
    → (e : String) × (v ≡ str e) × IsListed names e
unfolding has_entrypoint
has_entrypoint-eq-true (str e) names h = (e, refl, h)
has_entrypoint-eq-true v names h = absurd cc

entrypoint_of_test :
    (op : String) (v : Value) (names : List String)
    → (not (op == "run-script") || has_entrypoint v names) ≡ true
    → op ≡ "run-script"
    → (e : String) × (v ≡ str e) × IsListed names e
entrypoint_of_test op v names h e =
    has_entrypoint-eq-true v names (ground (arith, str_iff op "run-script"))

abbrev JobParsed : List String → Fields → String → ℕ → Value → Manifest → Type 0
JobParsed names top box seq v m =
    (v ≡ obj m.job) × (m.top ≡ top) × (m.box ≡ box) × (m.seq ≡ seq) × IsValidJob names m

parse_job-eq-ok :
    (names : List String) (top : Fields) (box : String) (seq : ℕ) (v : Value) (m : Manifest)
    → parse_job names top box seq v ≡ ok m
    → JobParsed names top box seq v m
unfolding parse_job
parse_job-eq-ok names top box seq (obj job) m h = bind_inv (as_str (get job "job_id")) h λ j ej h1.
    require_inv (is_uuid4 j) _ h1 λ eu h2. bind_inv (as_str (get job "operation")) h2 λ o eo h3.
      bind_inv (as_list (get job "payload")) h3 λ l el h4.
        require_inv (leb (length l) payload_files_cap) _ h4 λ en h5.
          bind_inv (check_names names l) h5 λ ns ens h6.
            require_inv (all (contains ns) names) _ h6 λ ea h7.
              require_inv (not (o == "run-script") || has_entrypoint (get job "entrypoint") ns) _ h7
                λ ee h8.
                  let (i, ei, eq) = as_list-eq-ok _ l el in
                  let (same, safe, there) = check_names-eq-ok names l ns ens in
                  subst (JobParsed names top box seq (obj job)) (ok-injective h8) (
                    refl,
                    refl,
                    refl,
                    refl,
                    record {
                      job_id = as_str-eq-ok _ j ej;
                      uuid4 = eu;
                      operation = as_str-eq-ok _ o eo;
                      listed = i;
                      payload = ei;
                      names = eq ∙ same;
                      count =
                          subst (λ k. k ≤ payload_files_cap) (ap length same ∙ length-map ns str)
                            (leb→le _ _ en);
                      safe = safe;
                      extracted = there;
                      accounted = ea;
                      entrypoint = entrypoint_of_test o (get job "entrypoint") ns ee;
                    },
                  )
parse_job-eq-ok names top box seq v m h = absurd cc

-- `dict`, `list` and entrypoint tests, for a value of the right shape.
has_entrypoint-ok :
    (op : String) (v : Value) (names : List String)
    → (op ≡ "run-script" → (e : String) × (v ≡ str e) × IsListed names e)
    → (not (op == "run-script") || has_entrypoint v names) ≡ true
unfolding has_entrypoint
has_entrypoint-ok op v names h = elim (Bool-cases (op == "run-script")) [
  | inl eq ↦ let (e, ev, there) = h ((str_iff op "run-script").0 eq) in rw (eq, ev) there
  | inr ne ↦ rw ne
]

parse_job-ok :
    (names : List String) (m : Manifest)
    → IsValidJob names m
    → parse_job names m.top m.box m.seq (obj m.job) ≡ ok m
unfolding parse_job
parse_job-ok names m h =
    let few : leb (length (map str m.payload)) payload_files_cap ≡ true =
      le→leb _ _ (subst (λ k. k ≤ payload_files_cap) (sym (length-map m.payload str)) h.count) in
    rw (h.job_id, h.uuid4, h.operation, h.payload, h.names, few)
      (rw (
        check_names-ok names m.payload h.safe h.extracted,
        h.accounted,
        has_entrypoint-ok m.operation (get m.job "entrypoint") m.payload h.entrypoint,
      ))

module _ (loads : List ℕ → Option Value) (raw : List ℕ) (payload_names : List String) where
  -- The wire contract for a whole manifest.
  pub record IsValid (m : Manifest) : Type 0 where
    pub size : length raw ≤ manifest_bytes_cap
    pub decodes : loads raw ≡ some (obj m.top)
    pub version : get m.top "schema_version" ≡ int (pos 1)
    pub box : get m.top "box" ≡ str m.box
    pub seq : get m.top "seq" ≡ int (pos m.seq)
    pub jobs : get m.top "jobs" ≡ arr (cons (obj m.job) nil)
    pub job : IsValidJob payload_names m

  only_job-eq-ok : (l : List Value) (v : Value) → only_job l ≡ ok v → l ≡ v ∷ []
  unfolding only_job
  only_job-eq-ok [] v h = absurd cc
  only_job-eq-ok (x ∷ []) v h = ap (λ y. y ∷ []) (ok-injective h)
  only_job-eq-ok (x ∷ y ∷ l) v h = absurd cc

  single : (i : Items) (v : Value) → elements i ≡ v ∷ [] → i ≡ cons v nil
  single nil v h = absurd cc
  single (cons x nil) v h = ground arith
  single (cons x (cons y i)) v h = absurd cc

  is_version_1-eq-true : (v : Value) → is_version_1 v ≡ true → v ≡ int (pos 1)
  unfolding is_version_1
  is_version_1-eq-true (int (pos n)) h = ground arith
  is_version_1-eq-true (int (negsuc n)) h = absurd cc
  is_version_1-eq-true v h = absurd cc

  as_seq-eq-ok : (v : Value) (n : ℕ) → as_seq v ≡ ok n → v ≡ int (pos n)
  unfolding as_seq
  as_seq-eq-ok (int (pos k)) n h = ap (λ x. int (pos x)) (ok-injective h)
  as_seq-eq-ok (int (negsuc k)) n h = absurd cc
  as_seq-eq-ok v n h = absurd cc

  decoded-eq-ok : (o : Option Value) (v : Value) → decoded o ≡ ok v → o ≡ some v
  decoded-eq-ok none v h = absurd cc
  decoded-eq-ok (some x) v h = ap some (ok-injective h)

  parse_sound : (m : Manifest) → parse loads raw payload_names ≡ ok m → IsValid m
  unfolding parse
  parse_sound m h = require_inv (leb (length raw) manifest_bytes_cap) _ h λ small h1.
      bind_inv (decoded (loads raw)) h1 λ v ev h2. bind_inv (as_dict v) h2 λ top et h3.
        require_inv (is_version_1 (get top "schema_version")) _ h3 λ vers h4.
          bind_inv (as_str (get top "box")) h4 λ box eb h5.
            bind_inv (as_seq (get top "seq")) h5 λ seq es h6.
              bind_inv (as_list (get top "jobs")) h6 λ jobs ej h7.
                bind_inv (only_job jobs) h7 λ job eo h8.
                  let (i, ei, eq) = as_list-eq-ok _ jobs ej in
                  let (isjob, t, b, s, valid) =
                    parse_job-eq-ok payload_names top box seq job m h8 in
                  record {
                    size = leb→le _ _ small;
                    decodes =
                        decoded-eq-ok _ v ev
                        ∙ ap some (as_dict-eq-ok v top et)
                        ∙ ap (λ x. some (obj x)) (sym t);
                    version = rw t (is_version_1-eq-true _ vers);
                    box = rw (t, b) (as_str-eq-ok _ box eb);
                    seq = rw (t, s) (as_seq-eq-ok _ seq es);
                    jobs = rw t (
                        ei
                        ∙ ap arr (
                            single i (obj m.job)
                              (eq ∙ only_job-eq-ok jobs job eo ∙ ap (λ x. x ∷ []) isjob)));
                    job = valid;
                  }

  parse_complete : (m : Manifest) → IsValid m → parse loads raw payload_names ≡ ok m
  unfolding parse
  parse_complete m h =
      rw (le→leb _ _ h.size, h.decodes, h.version, h.box, h.seq, h.jobs)
        (parse_job-ok payload_names m h.job)

  -- `parse` accepts exactly the manifests that meet the wire contract, and returns their fields: at
  -- most 65536 bytes of a JSON object with schema_version 1, a string box, a natural seq and a
  -- single job, whose job_id is a uuid4, whose payload lists at most 16 safe names, each of them
  -- extracted and all that was extracted, and whose entrypoint is listed if it is a run-script.
  pub parse_iff : (m : Manifest) → (parse loads raw payload_names ≡ ok m) ↔ IsValid m
  parse_iff m = (parse_sound m, parse_complete m)
