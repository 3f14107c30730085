-- ===== src/Orchestrator/Events.antt =====
-- What holds of every event of a run of box/bin/ca-usb-run, given the store that the run leaves: the
-- lemmas of `finish`, of the failures and of a delivery, for any property of events.
use nebula_ca_harness.Prelude.{
  String, ◌≡◌, refl, inl, inr, Bool, true, false, ◌&&◌, some, List, [], ◌∷◌, contains, All,
  All-append, string_eq, Bool-cases, Option-cases, if◌then◌else◌,
}
use nebula_ca_harness.Prelude.Dict.{Dict, lookup}
use nebula_ca_harness.Json.{Value}
use nebula_ca_harness.Commitlog.{Bytes, Item, Store, contents}
use nebula_ca_harness.Orchestrator.{
  Event, lit, audited, remounted, breadcrumb, unlinked_breadcrumb, commit_called, delivered, latest,
  unmounted, Line, Outcome, World, after, Context, finish, write_breadcrumb, fail_unverified,
  fail_verified, fail_replay,
}
use nebula_ca_harness.Orchestrator.Deliver.{
  Delivery, then_deliver, remount, copy_files, write_latest, ended,
}

abbrev pub Holds : (Store → Event → Type 0) → Outcome → Type 0
Holds P o = All (P o.store) o.events

-- The events that the property says nothing of.
pub record IsQuiet (P : Store → Event → Type 0) : Type 0 where
  pub of_lit : (s : Store) (color : String) → P s (lit color)
  pub of_audited : (s : Store) (l : Line) → P s (audited l)
  pub of_breadcrumb : (s : Store) (reason phase : String) → P s (breadcrumb reason phase)
  pub of_unlinked : (s : Store) → P s unlinked_breadcrumb
  pub of_commit : (s : Store) (job_id : String) → P s (commit_called job_id)
  pub of_unmounted : (s : Store) (b : Bool) → P s (unmounted b)

module _ (P : Store → Event → Type 0) where
  pub Holds-after :
      (es : List Event) (o : Outcome) → All (P o.store) es → Holds P o → Holds P (after es o)
  Holds-after es o h k = All-append (P o.store) es _ h k

  pub Holds-if :
      (b : Bool) (x y : Outcome)
      → (b ≡ true → Holds P x)
      → (b ≡ false → Holds P y)
      → Holds P (if b then x else y)
  Holds-if true x y h k = h refl
  Holds-if false x y h k = k refl

module _ (w : World) (P : Store → Event → Type 0) (q : IsQuiet P) where
  pub finish-Holds : (success : Bool) (s : Store) → Holds P (finish w success s)
  unfolding finish
  finish-Holds success s = (q.of_unmounted s _, (q.of_lit s _, tt))

  pub fail_unverified-Holds : (reason : String) (s : Store) → Holds P (fail_unverified w reason s)
  unfolding fail_unverified finish
  fail_unverified-Holds reason s = (q.of_audited s _, finish-Holds false s)

  pub fail_replay-Holds : (c : Context) (s : Store) → Holds P (fail_replay w c s)
  unfolding fail_replay finish
  fail_replay-Holds c s = (q.of_audited s _, finish-Holds false s)

  module _ (remounts : (s : Store) → P s remounted) where
    write_breadcrumb-All :
        (s : Store) (reason phase : String) → All (P s) (write_breadcrumb w reason phase)
    unfolding write_breadcrumb
    write_breadcrumb-All s reason phase = elim (Bool-cases w.can_remount) [
      | inl e ↦ elim (Bool-cases (w.can_write "ERROR.json")) [
        | inl e' ↦ rw (e, e', write_breadcrumb) (remounts s, (q.of_breadcrumb s _ _, tt))
        | inr e' ↦ rw (e, e', write_breadcrumb) (remounts s, tt)
      ]
      | inr e ↦ rw (e, write_breadcrumb) tt
    ]

    pub fail_verified-Holds :
        (reason phase : String) (c : Context) (s : Store)
        → Holds P (fail_verified w reason phase c s)
    unfolding fail_verified finish
    fail_verified-Holds reason phase c s = (
      q.of_audited s _,
      All-append (P s) (write_breadcrumb w reason phase) _ (write_breadcrumb-All s reason phase)
          (finish-Holds false s),
    )

    pub remount-All : (s : Store) (d : Delivery) → All (P s) d.0 → All (P s) (remount w d).0
    remount-All s d h = elim (Bool-cases w.can_remount) [
      | inl e ↦ rw e (remounts s, h)
      | inr e ↦ rw e tt
    ]

  pub then_deliver-All :
      (s : Store) (d d' : Delivery)
      → All (P s) d.0
      → All (P s) d'.0
      → All (P s) (then_deliver d d').0
  then_deliver-All s (es, true) d' h k = All-append (P s) es _ h k
  then_deliver-All s (es, false) d' h k = h

  pub copy_files-All :
      (s : Store) (job_id : String) (exclude : List String) (items : Dict String Item)
      (names : List String)
      → ((name : String) (b : Bytes)
          → contents (lookup name items) ≡ some b
          → contains exclude name ≡ false
          → P s (delivered job_id name b))
      → All (P s) (copy_files w job_id exclude items names).0
  unfolding copy_files
  copy_files-All s job_id exclude items [] h = tt
  copy_files-All s job_id exclude items (name ∷ names) h =
      let rest = copy_files-All s job_id exclude items names h in
      elim (Bool-cases (contains exclude name)) [
        | inl e ↦ rw (e, copy_files) rest
        | inr e ↦ elim (Option-cases (contents (lookup name items))) [
          | inl n ↦ rw (e, n, copy_files) tt
          | inr (b, n) ↦ elim (Bool-cases (w.can_write name)) [
            | inl v ↦ rw (e, n, v, copy_files) (h name b n e, rest)
            | inr v ↦ rw (e, n, v, copy_files) tt
          ]
        ]
      ]

  pub write_latest-All :
      (s : Store) (bundle_id seq : Value) (job_id : String) (status_val : Value) (replayed : Bool)
      → P s (latest bundle_id seq job_id status_val replayed)
      → All (P s) (write_latest w bundle_id seq job_id status_val replayed).0
  unfolding write_latest
  write_latest-All s bundle_id seq job_id status_val true h =
      elim (Bool-cases (w.can_write "LATEST.json")) [
        | inl e ↦ rw (e, write_latest) (h, tt)
        | inr e ↦ rw (e, write_latest) tt
      ]
  write_latest-All s bundle_id seq job_id status_val false h =
      elim (Bool-cases (w.can_write "LATEST.json")) [
        | inl e ↦ rw (e, write_latest) (h, (q.of_unlinked s, tt))
        | inr e ↦ rw (e, write_latest) tt
      ]

  pub ended-Holds :
      (success : Bool) (d : Delivery) (s : Store) → All (P s) d.0 → Holds P (ended w success d s)
  unfolding finish
  ended-Holds success (es, returned) s h =
      Holds-after P es (finish w (success && returned) s) h (finish-Holds (success && returned) s)
