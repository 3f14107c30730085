-- ===== src/Button/Wait.antt =====
-- The waiting loop of `_wait_press_release_on_fd` (box/lib/causb/button.py): how the reads cut the
-- bytes does not matter.
use nebula_ca_harness.Prelude.{
  ℕ, ◌<◌, ◌≡◌, refl, inl, inr, true, false, List, [], ◌∷◌, ◌++◌, length, arith, Bool-cases, ◌↔◌,
  none, some, sym, ◌∙◌,
}
use nebula_ca_harness.Button.{
  PressWaiter, event_size, feed, Turn, wait_loop, key_bit_set, wait_press_release,
}
use nebula_ca_harness.Button.Press.{feed-short, HasClick, events, feed_iff}
use nebula_ca_harness.Button.Pieces.{feed_append, feed_nil, then_feed-clicked, then_feed-going}

-- All the bytes that the turns read.
abbrev pub received : List Turn → List ℕ
received [] = []
received (none ∷ turns) = received turns
received (some bytes ∷ turns) = bytes ++ received turns

-- The loop answers as one call of `feed` with all the bytes of its turns, however the reads cut them.
wait_loop-feed :
    (turns : List Turn) (w : PressWaiter)
    → length w.buf < event_size
    → wait_loop turns w ≡ (feed w (received turns)).clicked
unfolding wait_loop
wait_loop-feed [] w short = sym (feed_nil w short)
wait_loop-feed (none ∷ turns) w short = wait_loop-feed turns w short
wait_loop-feed (some [] ∷ turns) w short = wait_loop-feed turns w short
wait_loop-feed (some (b ∷ bs) ∷ turns) w short = elim (Bool-cases (feed w (b ∷ bs)).clicked) [
  | inl stop ↦
      rw (stop, wait_loop) refl
      ∙ sym (
          feed_append w (b ∷ bs) (received turns)
          ∙ then_feed-clicked (received turns) (feed w (b ∷ bs)) stop)
  | inr go ↦
      rw (go, wait_loop) refl
      ∙ wait_loop-feed turns (feed w (b ∷ bs)).waiter (feed-short w (b ∷ bs) go)
      ∙ sym (
          feed_append w (b ∷ bs) (received turns)
          ∙ then_feed-going (received turns) (feed w (b ∷ bs)) go)
]

-- `_wait_press_release_on_fd` answers True exactly when the key was not held at first and the bytes that
-- its turns read, in whatever pieces, hold the events of a press of the key and of a release after it.
pub wait_press_release_iff :
    (bitmap : List ℕ) (turns : List Turn) (code : ℕ)
    → (wait_press_release bitmap turns code ≡ true)
      ↔ ((key_bit_set bitmap code ≡ false) × HasClick code (events (received turns)))
unfolding wait_press_release
wait_press_release_iff bitmap turns code =
    let w : PressWaiter = record { code = code; buf = []; pressed = false } in
    let one_piece = wait_loop-feed turns w (omega arith) in
    let (seen, enough) = feed_iff w (received turns) in
    elim (Bool-cases (key_bit_set bitmap code)) [
      | inl held ↦ (λ h. absurd (cc (rw (held, wait_press_release) at h)), λ (free, _). absurd cc)
      | inr free ↦ (
        λ h. (free, seen (sym one_piece ∙ (rw (free, wait_press_release) at h))),
        λ (_, click). rw (free, wait_press_release) (one_piece ∙ enough click),
      )
    ]
