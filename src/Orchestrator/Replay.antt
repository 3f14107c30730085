-- ===== src/Orchestrator/Replay.antt =====
-- box/bin/ca-usb-run `_replay`: the delivery of a committed result once more.
use nebula_ca_harness.Prelude.{
  String, Bool, true, false, not, Option, none, some, [], ◌∷◌, ◌==◌, string_eq, nat_eq,
  if◌then◌else◌, Result, ok, err, ◌>>=◌, ◌>>◌, require,
}
use nebula_ca_harness.Prelude.Dict.{Dict, lookup}
use nebula_ca_harness.Json.{
  pos, negsuc, Value, null, bool, int, float, str, arr, obj, nil, cons, Fields, end, field, get,
}
use nebula_ca_harness.Commitlog.{Bytes, Item, dir, Store, contents, cached_result, set_field}
use nebula_ca_harness.Orchestrator.{
  lit, audited, delivered, Line, Outcome, World, after, Context, finish, fail_replay,
}
use nebula_ca_harness.Orchestrator.Deliver.{
  Delivery, then_deliver, remount, copy_dir, write_latest, ended,
}

-- `key in d`
unfoldable pub has_key : Fields → String → Bool
has_key end key = false
has_key (field k v d) key = let rest = has_key d key in if k == key then true else rest

-- Why a cached `status.json` is of no use: an exception that `_replay` catches, and one that it does
-- not.
pub data Unusable : Type 0 where
  unreadable unforeseen : Unusable

abbrev pub fields_of : Option Value → Result Unusable Fields
fields_of none = err unreadable
fields_of (some (obj d)) = ok d
fields_of (some v) = err unforeseen

abbrev pub read_item : Option Bytes → Result Unusable Bytes
read_item none = err unreadable
read_item (some b) = ok b

module _ (w : World) where
  -- `bool(value)`
  unfoldable pub is_truthy : Value → Bool
  is_truthy null = false
  is_truthy (bool b) = b
  is_truthy (str s) = not (s == "")
  is_truthy (int (pos n)) = not (n == 0)
  is_truthy (int (negsuc n)) = true
  is_truthy (float s) = not (w.is_zero_float s)
  is_truthy (arr nil) = false
  is_truthy (arr (cons v vs)) = true
  is_truthy (obj end) = false
  is_truthy (obj (field k v d)) = true

  -- `cached_status`, in which `seq` and `status` are there.
  unfoldable pub cached_status : Dict String Item → Result Unusable Fields
  unfolding has_key
  cached_status items = do
    b ← read_item (contents (lookup "status.json" items))
    d ← fields_of (w.codec.loads b)
    require (has_key d "seq") unreadable
    require (has_key d "status") unreadable
    ok d

  abbrev replay_line : Context → Value → Value → Value → Line
  replay_line c status seq exit_code = record {
    job_id = c.job_id;
    operation = c.operation;
    principal = c.principal;
    status = status;
    seq = seq;
    replayed = true;
    exit_code = exit_code;
    cosigned = c.cosigned;
  }

  -- The cached files, then the cached status with `replayed` set.
  unfoldable pub deliver_cached : String → Value → Dict String Item → Fields → Delivery
  unfolding copy_dir set_field write_latest
  deliver_cached job_id bundle_id items d =
      let status = w.codec.dumps (obj (set_field "replayed" (bool true) d)) in
      let written : Delivery =
        if w.can_write "status.json"
        then (delivered job_id "status.json" status ∷ [], true)
        else ([], false) in
      then_deliver (copy_dir w job_id ("DONE" ∷ "status.json" ∷ []) (some (dir items)))
        (then_deliver written (write_latest w bundle_id (get d "seq") job_id (get d "status") true))

  unfoldable pub replay_cached :
      Context → String → Value → Dict String Item → Fields → Store → Outcome
  unfolding finish deliver_cached is_truthy get
  replay_cached c job_id bundle_id items d s =
      let seq = get d "seq" in
      let outcome = if is_truthy (get d "error") then get d "error" else get d "status" in
      if w.presses
      then after
          (lit "READY"
            ∷ lit "RUNNING"
            ∷ audited (replay_line c outcome seq (get d "exit_code"))
            ∷ [])
          (ended w true (remount w (deliver_cached job_id bundle_id items d)) s)
      else after (lit "READY" ∷ audited (replay_line c (str "no_confirmation") seq null) ∷ [])
          (finish w false s)

  -- `_replay`
  unfoldable pub replay : Context → String → Value → Store → Outcome
  unfolding cached_result cached_status replay_cached fail_replay finish
  replay c job_id bundle_id s = elim (cached_result w.codec job_id s) [
    | err e ↦ finish w false s
    | ok found ↦ elim found [
      | none ↦ fail_replay w c s
      | some items ↦ elim (cached_status items) [
        | err e ↦ elim e [ unreadable ↦ fail_replay w c s | unforeseen ↦ finish w false s ]
        | ok d ↦ replay_cached c job_id bundle_id items d s
      ]
    ]
  ]
