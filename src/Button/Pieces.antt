-- ===== src/Button/Pieces.antt =====
-- `feed` on bytes in two pieces, and the buffer of `_PressWaiter` between them
-- (box/lib/causb/button.py).
use nebula_ca_harness.Prelude.{
  ℕ, zero, suc, ◌≤◌, ◌<◌, ◌≡◌, refl, ap, inl, inr, Bool, true, false, ◌&&◌, ◌||◌, List, [], ◌∷◌,
  ◌++◌, length, take, drop, ltb, arith, Bool-cases, length-append, sym, ◌∙◌,
}
use nebula_ca_harness.Button.{
  Event, Fed, PressWaiter, event_size, unpack, is_press, is_release, feed_loop, feed,
}
use nebula_ca_harness.Button.Press.{length-drop}

take_append : (n : ℕ) (xs ys : List ℕ) → n ≤ length xs → take n (xs ++ ys) ≡ take n xs
take_append zero xs ys h = refl
take_append (suc n) [] ys h = absurd (omega (arith, h))
take_append (suc n) (x ∷ xs) ys h = ap (λ zs. x ∷ zs) (take_append n xs ys (omega (arith, h)))

drop_append : (n : ℕ) (xs ys : List ℕ) → n ≤ length xs → drop n (xs ++ ys) ≡ drop n xs ++ ys
drop_append zero xs ys h = refl
drop_append (suc n) [] ys h = absurd (omega (arith, h))
drop_append (suc n) (x ∷ xs) ys h = drop_append n xs ys (omega (arith, h))

append_assoc : (xs ys zs : List ℕ) → xs ++ (ys ++ zs) ≡ (xs ++ ys) ++ zs
append_assoc [] ys zs = refl
append_assoc (x ∷ xs) ys zs = ap (λ us. x ∷ us) (append_assoc xs ys zs)

append_nil : (xs : List ℕ) → xs ++ [] ≡ xs
append_nil [] = refl
append_nil (x ∷ xs) = ap (λ us. x ∷ us) (append_nil xs)

abbrev head_of : List ℕ → Event
head_of buf = unpack (take event_size buf)

-- A click, or one when the bytes that follow are fed.
abbrev pub then_feed : List ℕ → Fed → Bool
then_feed more f = f.clicked || (feed f.waiter more).clicked

pub then_feed-clicked : (more : List ℕ) (f : Fed) → f.clicked ≡ true → then_feed more f ≡ true
then_feed-clicked more f h = rw h refl

pub then_feed-going :
    (more : List ℕ) (f : Fed) → f.clicked ≡ false → then_feed more f ≡ (feed f.waiter more).clicked
then_feed-going more f h = rw h refl

module _ (code : ℕ) where
  abbrev at : List ℕ → Bool → PressWaiter
  at buf pressed = record { code = code; buf = buf; pressed = pressed }

  scan_short :
      (n : ℕ) (buf : List ℕ) (pressed : Bool)
      → ltb (length buf) event_size ≡ true
      → feed_loop n (at buf pressed) ≡ record { waiter = at buf pressed; clicked = false }
  unfolding feed_loop
  scan_short zero buf pressed short = refl
  scan_short (suc n) buf pressed short = rw (short, feed_loop) refl

  scan_stops :
      (n m : ℕ) (buf : List ℕ) (pressed : Bool)
      → ltb (length buf) event_size ≡ false
      → (is_release code (head_of buf) && pressed) ≡ true
      → feed_loop (suc n) (at buf pressed) ≡ feed_loop (suc m) (at buf pressed)
  unfolding feed_loop
  scan_stops n m buf pressed long stop = rw (long, stop, feed_loop) refl

  scan_stop :
      (n : ℕ) (buf : List ℕ) (pressed : Bool)
      → ltb (length buf) event_size ≡ false
      → (is_release code (head_of buf) && pressed) ≡ true
      → (feed_loop (suc n) (at buf pressed)).clicked ≡ true
  unfolding feed_loop
  scan_stop n buf pressed long stop = rw (long, stop, feed_loop) refl

  scan_go :
      (n : ℕ) (buf : List ℕ) (pressed : Bool)
      → ltb (length buf) event_size ≡ false
      → (is_release code (head_of buf) && pressed) ≡ false
      → feed_loop (suc n) (at buf pressed)
        ≡ feed_loop n (at (drop event_size buf) (is_press code (head_of buf) || pressed))
  unfolding feed_loop
  scan_go n buf pressed long go = rw (long, go, feed_loop) refl

  -- More fuel than bytes changes nothing.
  scan_fuel :
      (n m : ℕ) (buf : List ℕ) (pressed : Bool)
      → length buf ≤ n
      → length buf ≤ m
      → feed_loop n (at buf pressed) ≡ feed_loop m (at buf pressed)
  scan_fuel zero m buf pressed hn hm =
      scan_short zero buf pressed (ground (arith, hn))
      ∙ sym (scan_short m buf pressed (ground (arith, hn)))
  scan_fuel (suc n) zero buf pressed hn hm =
      scan_short (suc n) buf pressed (ground (arith, hm))
      ∙ sym (scan_short zero buf pressed (ground (arith, hm)))
  scan_fuel (suc n) (suc m) buf pressed hn hm = elim (Bool-cases (ltb (length buf) event_size)) [
    | inl short ↦ scan_short (suc n) buf pressed short ∙ sym (scan_short (suc m) buf pressed short)
    | inr long ↦ elim (Bool-cases (is_release code (head_of buf) && pressed)) [
      | inl stop ↦ scan_stops n m buf pressed long stop
      | inr go ↦
          scan_go n buf pressed long go
          ∙ scan_fuel n m (drop event_size buf) (is_press code (head_of buf) || pressed)
              (ground (arith, length-drop event_size buf, hn, long))
              (ground (arith, length-drop event_size buf, hm, long))
          ∙ sym (scan_go m buf pressed long go)
    ]
  ]

  -- The first turn, where more bytes follow those of the buffer.
  append_long :
      (buf more : List ℕ)
      → ltb (length buf) event_size ≡ false
      → ltb (length (buf ++ more)) event_size ≡ false
  append_long buf more long = ground (arith, long, length-append buf more)

  append_head :
      (buf more : List ℕ)
      → ltb (length buf) event_size ≡ false
      → head_of (buf ++ more) ≡ head_of buf
  append_head buf more long = ap unpack (take_append event_size buf more (ground (arith, long)))

  append_stop :
      (n : ℕ) (buf more : List ℕ) (pressed : Bool)
      → ltb (length buf) event_size ≡ false
      → (is_release code (head_of buf) && pressed) ≡ true
      → (feed_loop (suc n) (at (buf ++ more) pressed)).clicked ≡ true
  append_stop n buf more pressed long stop =
      scan_stop n (buf ++ more) pressed (append_long buf more long)
        (rw (append_head buf more long) stop)

  append_go :
      (n : ℕ) (buf more : List ℕ) (pressed : Bool)
      → ltb (length buf) event_size ≡ false
      → (is_release code (head_of buf) && pressed) ≡ false
      → feed_loop (suc n) (at (buf ++ more) pressed)
        ≡ feed_loop n (at (drop event_size buf ++ more) (is_press code (head_of buf) || pressed))
  append_go n buf more pressed long go =
      scan_go n (buf ++ more) pressed (append_long buf more long)
        (rw (append_head buf more long) go)
      ∙ ap (λ e. feed_loop n (at (drop event_size (buf ++ more)) (is_press code e || pressed)))
          (append_head buf more long)
      ∙ ap (λ bytes. feed_loop n (at bytes (is_press code (head_of buf) || pressed)))
          (drop_append event_size buf more (ground (arith, long)))

  append_short :
      (n m : ℕ) (buf more : List ℕ) (pressed : Bool)
      → length (buf ++ more) ≤ m
      → ltb (length buf) event_size ≡ true
      → (feed_loop m (at (buf ++ more) pressed)).clicked
        ≡ then_feed more (feed_loop n (at buf pressed))
  unfolding feed
  append_short n m buf more pressed hm short =
      ap (λ f. f.clicked)
        (scan_fuel m (length (buf ++ more)) (buf ++ more) pressed hm (omega arith))
      ∙ sym (ap (then_feed more) (scan_short n buf pressed short))

  -- What follows does not undo a click, and what was left over is read before what follows.
  append_rest :
      (n m : ℕ) (buf more : List ℕ) (pressed : Bool)
      → length buf ≤ n
      → length (buf ++ more) ≤ m
      → (feed_loop m (at (buf ++ more) pressed)).clicked
        ≡ then_feed more (feed_loop n (at buf pressed))
  append_rest zero m buf more pressed hn hm =
      append_short zero m buf more pressed hm (ground (arith, hn))
  append_rest (suc n) zero buf more pressed hn hm =
      append_short (suc n) zero buf more pressed hm (ground (arith, hm, length-append buf more))
  append_rest (suc n) (suc m) buf more pressed hn hm =
      elim (Bool-cases (ltb (length buf) event_size)) [
        | inl short ↦ append_short (suc n) (suc m) buf more pressed hm short
        | inr long ↦ elim (Bool-cases (is_release code (head_of buf) && pressed)) [
          | inl stop ↦
              append_stop m buf more pressed long stop
              ∙ sym (then_feed-clicked more _ (scan_stop n buf pressed long stop))
          | inr go ↦
              ap (λ f. f.clicked) (append_go m buf more pressed long go)
              ∙ append_rest n m (drop event_size buf) more (is_press code (head_of buf) || pressed)
                  (ground (arith, length-drop event_size buf, hn, long))
                  (ground (
                    arith,
                    length-drop event_size buf,
                    hm,
                    long,
                    length-append (drop event_size buf) more,
                    length-append buf more,
                  ))
              ∙ sym (ap (then_feed more) (scan_go n buf pressed long go))
        ]
      ]

-- Bytes in two pieces.
pub feed_append :
    (w : PressWaiter) (xs ys : List ℕ) → (feed w (xs ++ ys)).clicked ≡ then_feed ys (feed w xs)
unfolding feed
feed_append w xs ys =
    ap (λ bytes. (feed_loop (length bytes) (record w { buf = bytes })).clicked)
      (append_assoc w.buf xs ys)
    ∙ append_rest w.code (length (w.buf ++ xs)) (length ((w.buf ++ xs) ++ ys)) (w.buf ++ xs) ys
        w.pressed (omega arith) (omega arith)

pub feed_nil : (w : PressWaiter) → length w.buf < event_size → (feed w []).clicked ≡ false
unfolding feed
feed_nil w short =
    ap (λ f. f.clicked)
      (scan_short w.code (length (w.buf ++ [])) (w.buf ++ []) w.pressed
        (ground (arith, short, length-append w.buf [])))
