-- ===== src/Orchestrator/Deliveries.antt =====
-- What holds of the events of a commit with its delivery, and of a replay, in box/bin/ca-usb-run.
use nebula_ca_harness.Prelude.{
  ℕ, String, ◌≡◌, refl, inl, inr, Bool, true, false, Option, none, some, [], ◌∷◌, contains, arith,
  All, string_eq, Result, ok, err, bind_inv, require_inv, subst, ok-injective, Bool-cases,
  Result-cases, ◌==◌,
}
use nebula_ca_harness.Prelude.Dict.{Dict, keys, lookup}
use nebula_ca_harness.Json.{Value, bool, pos, int, str, obj, Fields, get}
use nebula_ca_harness.Commitlog.{
  Bytes, Item, dir, symlink, other, Entry, Store, is_safe_job_id, done_of, commit, contents,
  sort_names, cached_result, set_field,
}
use nebula_ca_harness.Orchestrator.{
  Event, remounted, delivered, latest, Outcome, World, Context, finish,
}
use nebula_ca_harness.Orchestrator.Deliver.{
  Collected, Delivery, then_deliver, remount, copy_files, copy_dir, write_latest, ended,
  build_out_status, deliver_and_finish, when_committed, commit_then_deliver,
}
use nebula_ca_harness.Orchestrator.Replay.{
  has_key, Unusable, unreadable, unforeseen, fields_of, read_item, cached_status, deliver_cached,
  replay_cached, replay,
}
use nebula_ca_harness.Orchestrator.Events.{
  Holds, IsQuiet, Holds-if, finish-Holds, fail_replay-Holds, remount-All, then_deliver-All,
  copy_files-All, write_latest-All, ended-Holds,
}

-- The cached `status.json` of a job's directory, as the dict that was read from it.
abbrev pub IsStatus : World → Dict String Item → Fields → Type 0
IsStatus w items d =
    (raw : Bytes) × (contents (lookup "status.json" items) ≡ some raw)
    × (w.codec.loads raw ≡ some (obj d))

-- What a property says of the events that write results to the stick.
pub record IsTold (w : World) (P : Store → Event → Type 0) : Type 0 where
  pub of_remounted : (s : Store) → P s remounted
  pub of_delivered :
      (s : Store) (job_id : String) (items : Dict String Item) (name : String) (b : Bytes)
      → lookup job_id s.results ≡ some (dir items)
      → contents (lookup name items) ≡ some b
      → contains ("DONE" ∷ []) name ≡ false
      → P s (delivered job_id name b)
  pub of_replayed :
      (s : Store) (job_id : String) (items : Dict String Item) (d : Fields)
      → lookup job_id s.results ≡ some (dir items)
      → IsStatus w items d
      → P s (
          delivered job_id "status.json" (w.codec.dumps (obj (set_field "replayed" (bool true) d))))
  pub of_latest :
      (s : Store) (job_id : String) (items : Dict String Item) (bundle_id seq status_val : Value)
      (replayed : Bool)
      → lookup job_id s.results ≡ some (dir items)
      → P s (latest bundle_id seq job_id status_val replayed)

fields_of_inv : (o : Option Value) {d : Fields} → fields_of o ≡ ok d → o ≡ some (obj d)
fields_of_inv none h = absurd cc
fields_of_inv (some (obj e)) h = cc
fields_of_inv (some v) h = absurd cc

read_item_inv : (o : Option Bytes) {b : Bytes} → read_item o ≡ ok b → o ≡ some b
read_item_inv none h = absurd cc
read_item_inv (some c) h = cc

cached_status-IsStatus :
    (w : World) (items : Dict String Item) (d : Fields)
    → cached_status w items ≡ ok d
    → IsStatus w items d
unfolding cached_status
cached_status-IsStatus w items d h =
    bind_inv (read_item (contents (lookup "status.json" items))) h λ b e1 h1.
      bind_inv (fields_of (w.codec.loads b)) h1 λ d' e2 h2.
        require_inv (has_key d' "seq") _ h2 λ e3 h3. require_inv (has_key d' "status") _ h3 λ e4 h4.
          (
            b,
            read_item_inv _ e1,
            subst (λ x. w.codec.loads b ≡ some (obj x)) (ok-injective h4) (fields_of_inv _ e2),
          )

module _ (w : World) (P : Store → Event → Type 0) (q : IsQuiet P) (t : IsTold w P) where
  deliver_and_finish-Holds :
      (job_id : String) (seq : ℕ) (bundle_id : Value) (status_val : String) (success : Bool)
      (s : Store)
      → Holds P (deliver_and_finish w job_id seq bundle_id status_val success s)
  unfolding deliver_and_finish copy_dir
  deliver_and_finish-Holds job_id seq bundle_id status_val success s =
      go (lookup job_id s.results) refl
    where
      told : Option Entry → Delivery
      told e =
          then_deliver (copy_dir w job_id ("DONE" ∷ []) e)
            (write_latest w bundle_id (int (pos seq)) job_id (str status_val) false)

      no_dir : Holds P (ended w success (remount w ([], false)) s)
      no_dir =
          ended-Holds w P q success (remount w ([], false)) s
            (remount-All w P q t.of_remounted s ([], false) tt)

      go :
          (e : Option Entry)
          → lookup job_id s.results ≡ e
          → Holds P (ended w success (remount w (told e)) s)
      go (some (dir items)) there =
          ended-Holds w P q success (remount w (told (some (dir items)))) s (
            remount-All w P q t.of_remounted s (told (some (dir items))) (
              then_deliver-All w P q s (copy_dir w job_id ("DONE" ∷ []) (some (dir items))) _
                (copy_files-All w P q s job_id ("DONE" ∷ []) items (sort_names (keys items))
                  λ name b h k. t.of_delivered s job_id items name b there h k)
                (write_latest-All w P q s bundle_id (int (pos seq)) job_id (str status_val) false
                  (t.of_latest s job_id items _ _ _ _ there))))
      go (some symlink) there = no_dir
      go (some other) there = no_dir
      go none there = no_dir

  when_committed-Holds :
      {E : Type 0} (r : Result E (Unit {0})) (x y : Outcome)
      → Holds P x
      → Holds P y
      → Holds P (when_committed w r x y)
  when_committed-Holds (ok u) x y h k = h
  when_committed-Holds (err e) x y h k = k

  pub commit_then_deliver-Holds :
      (c : Context) (job_id : String) (seq : ℕ) (bundle_id : Value) (collected : Collected)
      (presence_confirmed : Bool) (exit_code : Value) (s : Store)
      → Holds P
          (commit_then_deliver w c job_id seq bundle_id collected presence_confirmed exit_code s)
  unfolding commit_then_deliver
  commit_then_deliver-Holds c job_id seq bundle_id collected presence_confirmed exit_code s =
      let run =
        commit w.codec job_id seq collected.outputs
          (build_out_status w collected.status presence_confirmed exit_code collected.error) s in
      (
        q.of_commit _ job_id,
        (
          q.of_audited _ _,
          when_committed-Holds run.result
              (deliver_and_finish w job_id seq bundle_id collected.status (collected.status == "ok")
                run.state)
              (finish w false run.state)
              (deliver_and_finish-Holds job_id seq bundle_id collected.status
                (collected.status == "ok") run.state)
              (finish-Holds w P q false run.state),
        ),
      )

  -- `cached_result` finds the job's directory.
  found_inv :
      (job_id : String) (s : Store) {items : Dict String Item}
      → cached_result w.codec job_id s ≡ ok (some items)
      → lookup job_id s.results ≡ some (dir items)
  unfolding cached_result
  found_inv job_id s {items} h = elim (Bool-cases (is_safe_job_id job_id)) [
    | inl e ↦ go (lookup job_id s.results) (ok-injective (rw (e, cached_result) at h))
    | inr e ↦ absurd (cc (rw (e, cached_result) at h))
  ]
    where
      of_done : Option ℕ → Dict String Item → Option (Dict String Item)
      of_done none items = none
      of_done (some n) items = some items

      inside :
          (done : Option ℕ) (items' : Dict String Item)
          → (elim done as (λ _. Option (Dict String Item)) [ none ↦ none | some _ ↦ some items' ])
            ≡ some items
          → some (dir items') ≡ some (dir items)
      inside none items' h = absurd cc
      inside (some n) items' h = cc

      go :
          (o : Option Entry)
          → (elim o as (λ _. Option (Dict String Item)) [
            | some e ↦ elim e as (λ _. Option (Dict String Item)) [
              | dir items ↦ elim (done_of w.codec.loads items) as (λ _. Option (Dict String Item)) [
                | none ↦ none
                | some _ ↦ some items
              ]
              | symlink ↦ none
              | other ↦ none
            ]
            | none ↦ none
          ])
            ≡ some items
          → o ≡ some (dir items)
      go none h = absurd cc
      go (some symlink) h = absurd cc
      go (some other) h = absurd cc
      go (some (dir items')) h = inside (done_of w.codec.loads items') items' h

  deliver_cached-All :
      (s : Store) (job_id : String) (bundle_id : Value) (items : Dict String Item) (d : Fields)
      → lookup job_id s.results ≡ some (dir items)
      → IsStatus w items d
      → All (P s) (deliver_cached w job_id bundle_id items d).0
  unfolding deliver_cached copy_dir
  deliver_cached-All s job_id bundle_id items d there cached =
      let rest =
        write_latest-All w P q s bundle_id (get d "seq") job_id (get d "status") true
          (t.of_latest s job_id items _ _ _ _ there) in
      then_deliver-All w P q s
        (copy_files w job_id ("DONE" ∷ "status.json" ∷ []) items (sort_names (keys items))) _
        (copy_files-All w P q s job_id ("DONE" ∷ "status.json" ∷ []) items (sort_names (keys items))
          λ name b h k. t.of_delivered s job_id items name b there h (ground arith))
        (elim (Bool-cases (w.can_write "status.json")) [
          | inl e ↦ rw e (t.of_replayed s job_id items d there cached, rest)
          | inr e ↦ rw e tt
        ])

  replay_cached-Holds :
      (c : Context) (job_id : String) (bundle_id : Value) (items : Dict String Item) (d : Fields)
      (s : Store)
      → lookup job_id s.results ≡ some (dir items)
      → IsStatus w items d
      → Holds P (replay_cached w c job_id bundle_id items d s)
  unfolding replay_cached finish
  replay_cached-Holds c job_id bundle_id items d s there cached =
      Holds-if P w.presses _ _
        (λ _. (
          q.of_lit _ _,
          (
            q.of_lit _ _,
            (
              q.of_audited _ _,
              ended-Holds w P q true (remount w (deliver_cached w job_id bundle_id items d)) s (
                  remount-All w P q t.of_remounted s (deliver_cached w job_id bundle_id items d)
                    (deliver_cached-All s job_id bundle_id items d there cached)),
            ),
          ),
        ))
        (λ _. (q.of_lit _ _, (q.of_audited _ _, finish-Holds w P q false s)))

  pub replay-Holds :
      (c : Context) (job_id : String) (bundle_id : Value) (s : Store)
      → Holds P (replay w c job_id bundle_id s)
  unfolding replay
  replay-Holds c job_id bundle_id s = elim (Result-cases (cached_result w.codec job_id s)) [
    | inl (o, e) ↦ found o e
    | inr (f, e) ↦ rw (e, replay) (finish-Holds w P q false s)
  ]
    where
      unusable :
          (items : Dict String Item) (e : Unusable)
          → cached_result w.codec job_id s ≡ ok (some items)
          → cached_status w items ≡ err e
          → Holds P (replay w c job_id bundle_id s)
      unusable items unreadable h k = rw (h, k, replay) (fail_replay-Holds w P q c s)
      unusable items unforeseen h k = rw (h, k, replay) (finish-Holds w P q false s)

      found :
          (o : Option (Dict String Item))
          → cached_result w.codec job_id s ≡ ok o
          → Holds P (replay w c job_id bundle_id s)
      found none h = rw (h, replay) (fail_replay-Holds w P q c s)
      found (some items) h = elim (Result-cases (cached_status w items)) [
        | inl (d, k) ↦
            rw (h, k, replay)
              (replay_cached-Holds c job_id bundle_id items d s (found_inv job_id s h)
                (cached_status-IsStatus w items d k))
        | inr (e, k) ↦ unusable items e h k
      ]
