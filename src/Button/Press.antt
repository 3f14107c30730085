-- ===== src/Button/Press.antt =====
-- What confirms a job: a press of K1 and a later release of it, among the events of the bytes that
-- `feed` got (box/lib/causb/button.py).
use nebula_ca_harness.Prelude.{
  ℕ, zero, suc, ◌-◌, ◌≤◌, ◌<◌, ◌≡◌, refl, ap, inl, inr, Bool, true, false, ◌&&◌, ◌||◌, List, [],
  ◌∷◌, ◌++◌, length, take, drop, ltb, ltb→lt, arith, Bool-cases, if◌then◌else◌, ◌↔◌,
}
use nebula_ca_harness.Button.{
  Event, PressWaiter, event_size, unpack, is_press, is_release, feed_loop, feed,
}

-- The events of the whole chunks of the bytes, at most `n` of them.
unfoldable pub events_upto : ℕ → List ℕ → List Event
events_upto zero bytes = []
events_upto (suc n) bytes =
    let rest = events_upto n (drop event_size bytes) in
    if ltb (length bytes) event_size then [] else unpack (take event_size bytes) ∷ rest

-- All of them.
abbrev pub events : List ℕ → List Event
events bytes = events_upto (length bytes) bytes

-- A release is among the events.
abbrev pub HasRelease : ℕ → List Event → Type 0
HasRelease code evs =
    (xs : List Event) × (r : Event) × (ys : List Event) × (evs ≡ xs ++ (r ∷ ys))
    × (is_release code r ≡ true)

-- A press is among the events, and a release after it.
abbrev pub HasClick : ℕ → List Event → Type 0
HasClick code evs =
    (xs : List Event) × (p : Event) × (ys : List Event) × (evs ≡ xs ++ (p ∷ ys))
    × (is_press code p ≡ true)
    × HasRelease code ys

-- What a waiter that was pressed or not has to see.
abbrev pub HasEnd : ℕ → Bool → List Event → Type 0
HasEnd code true evs = HasRelease code evs
HasEnd code false evs = HasClick code evs

later :
    (code : ℕ) (pressed : Bool) (e : Event) (evs : List Event)
    → HasEnd code pressed evs
    → HasEnd code pressed (e ∷ evs)
later code true e evs (xs, r, ys, split, h) = (e ∷ xs, r, ys, ap (λ zs. e ∷ zs) split, h)
later code false e evs (xs, p, ys, split, press, h) =
    (e ∷ xs, p, ys, ap (λ zs. e ∷ zs) split, press, h)

-- From an event on, where the state after it has what it needs.
from :
    (code : ℕ) (pressed : Bool) (e : Event) (evs : List Event)
    → HasEnd code (is_press code e || pressed) evs
    → HasEnd code pressed (e ∷ evs)
from code true e evs h = elim (Bool-cases (is_press code e)) [
  | inl p ↦ later code true e evs (rw p at h)
  | inr p ↦ later code true e evs (rw p at h)
]
from code false e evs h = elim (Bool-cases (is_press code e)) [
  | inl p ↦ ([], e, evs, refl, p, rw p at h)
  | inr p ↦ later code false e evs (rw p at h)
]

-- The rest of the events, where the first one is no release that ends the wait.
then_release :
    (code : ℕ) (e : Event) (evs : List Event)
    → is_release code e ≡ false
    → HasRelease code (e ∷ evs)
    → HasRelease code evs
then_release code e evs other ([], r, ys, split, h) = absurd cc
then_release code e evs other (x ∷ xs, r, ys, split, h) = (xs, r, ys, cc, h)

then_click :
    (code : ℕ) (e : Event) (evs : List Event)
    → is_press code e ≡ false
    → HasClick code (e ∷ evs)
    → HasClick code evs
then_click code e evs other ([], p, ys, split, press, h) = absurd cc
then_click code e evs other (x ∷ xs, p, ys, split, press, h) = (xs, p, ys, cc, press, h)

assoc_lem :
    (xs : List Event) (p : Event) (ys zs : List Event)
    → xs ++ (p ∷ (ys ++ zs)) ≡ (xs ++ (p ∷ ys)) ++ zs
assoc_lem [] p ys zs = refl
assoc_lem (x ∷ xs) p ys zs = ap (λ ws. x ∷ ws) (assoc_lem xs p ys zs)

then_pressed :
    (code : ℕ) (e : Event) (evs : List Event) → HasClick code (e ∷ evs) → HasRelease code evs
then_pressed code e evs ([], p, ys, split, press, (zs, r, us, split', h)) = (zs, r, us, cc, h)
then_pressed code e evs (x ∷ xs, p, ys, split, press, (zs, r, us, split', h)) =
    (xs ++ (p ∷ zs), r, us, cc (split, split', assoc_lem xs p zs (r ∷ us)), h)

and_true_inv : (a : Bool) → (a && true) ≡ false → a ≡ false
and_true_inv true h = absurd cc
and_true_inv false h = refl

onward :
    (code : ℕ) (pressed : Bool) (e : Event) (evs : List Event)
    → (is_release code e && pressed) ≡ false
    → HasEnd code pressed (e ∷ evs)
    → HasEnd code (is_press code e || pressed) evs
onward code true e evs go h = elim (Bool-cases (is_press code e)) [
  | inl p ↦ rw p (then_release code e evs (and_true_inv (is_release code e) go) h)
  | inr p ↦ rw p (then_release code e evs (and_true_inv (is_release code e) go) h)
]
onward code false e evs go h = elim (Bool-cases (is_press code e)) [
  | inl p ↦ rw p (then_pressed code e evs h)
  | inr p ↦ rw p (then_click code e evs p h)
]

and_inv : (a b : Bool) → (a && b) ≡ true → (a ≡ true) × (b ≡ true)
and_inv true b h = (refl, h)
and_inv false b h = absurd cc

feed_loop-HasEnd :
    (n code : ℕ) (buf : List ℕ) (pressed : Bool)
    → (feed_loop n (record { code = code; buf = buf; pressed = pressed })).clicked ≡ true
    → HasEnd code pressed (events_upto n buf)
unfolding feed_loop events_upto
feed_loop-HasEnd zero code buf pressed h = absurd cc
feed_loop-HasEnd (suc n) code buf pressed h = elim (Bool-cases (ltb (length buf) event_size)) [
  | inl short ↦ absurd (cc (rw (short, feed_loop) at h))
  | inr long ↦
      let e = unpack (take event_size buf) in
      elim (Bool-cases (is_release code e && pressed)) [
        | inl stop ↦
            let (r, p) = and_inv (is_release code e) pressed stop in
            rw (long, p) ([], e, events_upto n (drop event_size buf), refl, r)
        | inr go ↦ rw long (
            from code pressed e (events_upto n (drop event_size buf)) (
              feed_loop-HasEnd n code (drop event_size buf) (is_press code e || pressed)
                (rw (long, go, feed_loop) at h)))
      ]
]

feed-HasEnd :
    (w : PressWaiter) (bytes : List ℕ)
    → (feed w bytes).clicked ≡ true
    → HasEnd w.code w.pressed (events (w.buf ++ bytes))
unfolding feed
feed-HasEnd w bytes h =
    feed_loop-HasEnd (length (w.buf ++ bytes)) w.code (w.buf ++ bytes) w.pressed h

HasEnd-ne-nil : (code : ℕ) (pressed : Bool) → HasEnd code pressed [] → ⊥
HasEnd-ne-nil code true ([], r, ys, split, h) = absurd cc
HasEnd-ne-nil code true (x ∷ xs, r, ys, split, h) = absurd cc
HasEnd-ne-nil code false ([], p, ys, split, press, h) = absurd cc
HasEnd-ne-nil code false (x ∷ xs, p, ys, split, press, h) = absurd cc

feed_loop-clicked :
    (n code : ℕ) (buf : List ℕ) (pressed : Bool)
    → HasEnd code pressed (events_upto n buf)
    → (feed_loop n (record { code = code; buf = buf; pressed = pressed })).clicked ≡ true
unfolding feed_loop events_upto
feed_loop-clicked zero code buf pressed h = absurd (HasEnd-ne-nil code pressed h)
feed_loop-clicked (suc n) code buf pressed h = elim (Bool-cases (ltb (length buf) event_size)) [
  | inl short ↦ absurd (HasEnd-ne-nil code pressed (rw (short, events_upto) at h))
  | inr long ↦
      let e = unpack (take event_size buf) in
      elim (Bool-cases (is_release code e && pressed)) [
        | inl stop ↦ rw (long, stop, feed_loop) refl
        | inr go ↦
            rw (long, go, feed_loop)
              (feed_loop-clicked n code (drop event_size buf) (is_press code e || pressed) (
                onward code pressed e (events_upto n (drop event_size buf)) go
                  (rw (long, events_upto) at h)))
      ]
]

-- `feed` answers True exactly when the bytes that it holds, those left over from before and the new
-- ones, hold the events of a press of the key and of a release after it; if the key was pressed before
-- those bytes, when they hold a release. Other events and repeats do not count.
pub feed_iff :
    (w : PressWaiter) (bytes : List ℕ)
    → ((feed w bytes).clicked ≡ true) ↔ HasEnd w.code w.pressed (events (w.buf ++ bytes))
unfolding feed
feed_iff w bytes = (
  feed-HasEnd w bytes,
  feed_loop-clicked (length (w.buf ++ bytes)) w.code (w.buf ++ bytes) w.pressed,
)

pub length-drop : (n : ℕ) (bytes : List ℕ) → length (drop n bytes) ≡ length bytes - n
length-drop zero bytes = omega arith
length-drop (suc n) [] = omega arith
length-drop (suc n) (b ∷ bytes) = omega (arith, length-drop n bytes)

feed_loop-short :
    (n : ℕ) (w : PressWaiter)
    → length w.buf ≤ n
    → (feed_loop n w).clicked ≡ false
    → length (feed_loop n w).waiter.buf < event_size
unfolding feed_loop
feed_loop-short zero w enough h = omega (arith, enough)
feed_loop-short (suc n) w enough h = elim (Bool-cases (ltb (length w.buf) event_size)) [
  | inl short ↦ rw (short, feed_loop) (ltb→lt (length w.buf) event_size short)
  | inr long ↦
      let e = unpack (take event_size w.buf) in
      elim (Bool-cases (is_release w.code e && w.pressed)) [
        | inl stop ↦ absurd (cc (rw (long, stop, feed_loop) at h))
        | inr go ↦
            rw (long, go, feed_loop)
              (feed_loop-short n _ (ground (arith, length-drop event_size w.buf, enough, long))
                (rw (long, go, feed_loop) at h))
      ]
]

-- `feed` does not stop early: when it answers False, less than one event's bytes are left over.
pub feed-short :
    (w : PressWaiter) (bytes : List ℕ)
    → (feed w bytes).clicked ≡ false
    → length (feed w bytes).waiter.buf < event_size
unfolding feed
feed-short w bytes h = feed_loop-short (length (w.buf ++ bytes)) _ (omega arith) h
