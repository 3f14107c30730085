-- ===== src/Extract/Frame.antt =====
-- Where an extraction by box/lib/causb/extract.py writes: at the top of the destination, only below
-- the two names that the policy allows.
use Prim.Native.Char.{Char, code}
use nebula_ca_harness.Prelude.{
  ℕ, ◌+◌, String, ◌≡◌, ◌≢◌, refl, sym, ap, ◌∙◌, subst, inl, inr, Bool, true, false, not, ◌&&◌, ◌||◌,
  any, Option, none, some, Option-cases, Result-cases, List, [], ◌∷◌, ◌++◌, length, ltb, arith,
  Bool-cases, ok, ◌==◌, str_iff, string_eq, nat_eq, if◌then◌else◌, contains,
}
use nebula_ca_harness.Names.{codes, split_slash, is_dots, onto_first}
use nebula_ca_harness.Text.{starts_with, is_prefix}
use nebula_ca_harness.Extract.{
  Node, file, folder, other, Tree, nil, entry, find, place, Member, Stream, done, broken, next,
  max_depth, is_bad_part, safe_name, check_member, Outcome, written, os_error, value_error, Wrote,
  has_nul, write_leaf, inside, descend, write_parts, write_member, after_write, Extraction,
  extract_loop, extract,
}
use nebula_ca_harness.Extract.Policy.{check_member-Passed}

place-find :
    (name k : String) (n : Node) (t : Tree)
    → (name == k) ≡ false
    → find (place name n t) k ≡ find t k
unfolding place find
place-find name k n nil ne = ground arith
place-find name k n (entry j m t) ne =
    ground (arith, place-find name k n t ne, str_iff j name, str_iff j k, str_iff name k)

-- The first component of a path below a directory, which has a second one.
abbrev Below : List ℕ → List String → Type 0
Below w [] = ⊥
Below w (head ∷ []) = ⊥
Below w (head ∷ part ∷ parts) = codes head ≡ w

split_slash-cons : (s : String) → (p : String) × (ps : List String) × (split_slash s ≡ p ∷ ps)
unfolding split_slash
split_slash-cons String.[] = ("", [], refl)
split_slash-cons (String.◌∷◌ c s) = elim (Bool-cases (code c == b'/')) [
  | inl e ↦ ("", split_slash s, rw e refl)
  | inr e ↦ let (p, ps, e') = split_slash-cons s in (String.◌∷◌ c p, ps, rw (e, e') refl)
]

or_false : (a b : Bool) → (a || b) ≡ false → (a ≡ false) × (b ≡ false)
or_false true b h = absurd cc
or_false false b h = (refl, h)

and_true : (a b : Bool) → (a && b) ≡ true → (a ≡ true) × (b ≡ true)
and_true true b h = (refl, h)
and_true false b h = absurd cc

onto_first-Below :
    (w : List ℕ) (x : ℕ) (c : Char) (parts : List String)
    → x ≡ code c
    → Below w parts
    → Below (x ∷ w) (onto_first c parts)
onto_first-Below w x c [] e h = absurd h
onto_first-Below w x c (head ∷ []) e h = absurd h
onto_first-Below w x c (head ∷ part ∷ parts) e h = rw (e, h) refl

-- A text that begins with a word and a slash splits into the word and more.
prefix-Below :
    (w : List ℕ) (s : String)
    → contains w b'/' ≡ false
    → is_prefix (w ++ (b'/' ∷ [])) (codes s) ≡ true
    → Below w (split_slash s)
unfolding split_slash
prefix-Below [] String.[] free h = absurd cc
prefix-Below (x ∷ w) String.[] free h = absurd cc
prefix-Below [] (String.◌∷◌ c s) free h =
    let e : code c ≡ b'/' =
      sym ((nat_eq.beq_iff b'/' (code c)).0 ((and_true (b'/' == code c) true h).0)) in
    let (p, ps, e') = split_slash-cons s in rw (e, e') refl
prefix-Below (x ∷ w) (String.◌∷◌ c s) free h =
    let (same, rest) = and_true (x == code c) (is_prefix (w ++ (b'/' ∷ [])) (codes s)) h in
    let (x_free, w_free) = or_false (x == b'/') (contains w b'/') free in
    let e : x ≡ code c = (nat_eq.beq_iff x (code c)).0 same in
    let c_free : (code c == b'/') ≡ false = subst (λ y. (y == b'/') ≡ false) e x_free in
    rw c_free (onto_first-Below w x c (split_slash s) e (prefix-Below w s w_free rest))

beq_false : (a b : String) → codes a ≢ codes b → (a == b) ≡ false
beq_false a b ne = elim (Bool-cases (a == b)) [
  | inl e ↦ absurd (ne (ap codes ((str_iff a b).0 e)))
  | inr e ↦ e
]

last_of_four : (a b c d : Bool) → (a && b && c && d) ≡ true → d ≡ true
last_of_four true true true d h = h
last_of_four false b c d h = absurd cc
last_of_four true false c d h = absurd cc
last_of_four true true false d h = absurd cc

allowed :
    (name : String)
    → safe_name name ≡ true
    → (name == "manifest.json" || starts_with "payload/" name) ≡ true
unfolding safe_name
allowed name h =
    last_of_four (not (starts_with "/" name)) (not (ltb max_depth (length (split_slash name))))
      (not (any is_bad_part (split_slash name)))
      (name == "manifest.json" || starts_with "payload/" name) h

module _ (accepts : String → Bool) where
  write_leaf-find :
      (name k : String) (b : List ℕ) (t : Tree)
      → (name == k) ≡ false
      → find (write_leaf accepts name b t).tree k ≡ find t k
  unfolding write_leaf
  write_leaf-find name k b t ne = elim (Bool-cases (name == "" || is_dots name)) [
    | inl e ↦ rw e refl
    | inr e ↦ rw e (at_node (find t name))
  ]
    where
      at_node :
          (o : Option Node)
          → find
              (elim o as (λ _. Wrote) [
                | some n ↦ elim n as (λ _. Wrote) [
                  | file old ↦ record { tree = place name (file b) t; outcome = written }
                  | folder d ↦ record { tree = t; outcome = os_error }
                  | other ↦ record { tree = t; outcome = os_error }
                ]
                | none ↦
                    if accepts name
                    then record { tree = place name (file b) t; outcome = written }
                    else record { tree = t; outcome = os_error }
              ]).tree
              k
            ≡ find t k
      at_node (some (file old)) = place-find name k (file b) t ne
      at_node (some (folder d)) = refl
      at_node (some other) = refl
      at_node none = elim (Bool-cases (accepts name)) [
        | inl e ↦ rw e (place-find name k (file b) t ne)
        | inr e ↦ rw e refl
      ]

  descend-find :
      (name k : String) (t : Tree) (rest : Tree → Wrote)
      → (name == ".") ≡ false
      → (name == k) ≡ false
      → find (descend accepts name t rest).tree k ≡ find t k
  unfolding descend
  descend-find name k t rest no_dot ne = elim (Bool-cases (has_nul name)) [
    | inl e ↦ rw e refl
    | inr e ↦ elim (Bool-cases (is_bad_part name)) [
      | inl e' ↦ rw (e, no_dot, e') refl
      | inr e' ↦ rw (e, no_dot, e') (at_node (find t name))
    ]
  ]
    where
      at_node :
          (o : Option Node)
          → find
              (elim o as (λ _. Wrote) [
                | some n ↦ elim n as (λ _. Wrote) [
                  | file b ↦ record { tree = t; outcome = os_error }
                  | folder d ↦ inside name t (rest d)
                  | other ↦ record { tree = t; outcome = os_error }
                ]
                | none ↦
                    if accepts name
                    then inside name t (rest nil)
                    else record { tree = t; outcome = os_error }
              ]).tree
              k
            ≡ find t k
      at_node (some (file b)) = refl
      at_node (some (folder d)) = place-find name k (folder (rest d).tree) t ne
      at_node (some other) = refl
      at_node none = elim (Bool-cases (accepts name)) [
        | inl e ↦ rw e (place-find name k (folder (rest nil).tree) t ne)
        | inr e ↦ rw e refl
      ]

  write_parts-find :
      (parts : List String) (k : String) (b : List ℕ) (t : Tree)
      → Below (codes "payload") parts
      → codes "payload" ≢ codes k
      → find (write_parts accepts parts b t).tree k ≡ find t k
  unfolding write_parts
  write_parts-find [] k b t h ne = absurd h
  write_parts-find (leaf ∷ []) k b t h ne = absurd h
  write_parts-find (head ∷ part ∷ parts) k b t h ne =
      descend-find head k t (write_parts accepts (part ∷ parts) b)
        (beq_false head "." (λ e. absurd cc)) (beq_false head k (λ e. ne (sym h ∙ e)))

  -- The write of a member of a safe name.
  write_member-find :
      (name k : String) (b : List ℕ) (t : Tree)
      → safe_name name ≡ true
      → codes k ≢ codes "manifest.json"
      → codes k ≢ codes "payload"
      → find (write_member accepts name b t).tree k ≡ find t k
  unfolding write_member starts_with
  write_member-find name k b t safe no_manifest no_payload =
      elim (Bool-cases (name == "manifest.json")) [
        | inl e ↦ manifest name ((str_iff name "manifest.json").0 e)
        | inr e ↦
            let below : starts_with "payload/" name ≡ true = rw e at (allowed name safe) in
            write_parts-find (split_slash name) k b t
              (prefix-Below (codes "payload") name refl below) (λ same. no_payload (sym same))
      ]
    where
      manifest :
          (x : String)
          → x ≡ "manifest.json"
          → find (write_parts accepts (split_slash x) b t).tree k ≡ find t k
      manifest x e = rw e (
          write_leaf-find "manifest.json" k b t
            (beq_false "manifest.json" k (λ same. no_manifest (sym same))))

  after_write-find :
      (k : String) (t t' : Tree) (o : Outcome) (rest : Tree → Extraction)
      → find t' k ≡ find t k
      → find (rest t').tree k ≡ find t' k
      → find (after_write (record { tree = t'; outcome = o }) rest).tree k ≡ find t k
  after_write-find k t t' written rest w r = r ∙ w
  after_write-find k t t' os_error rest w r = w
  after_write-find k t t' value_error rest w r = w

  check_member-safe :
      (m : Member) (files bytes total : ℕ)
      → check_member m files bytes ≡ ok total
      → safe_name m.name ≡ true
  check_member-safe m files bytes total h = (check_member-Passed m files bytes total h).0

  extract_loop-find :
      (s : Stream) (files bytes : ℕ) (t : Tree) (k : String)
      → codes k ≢ codes "manifest.json"
      → codes k ≢ codes "payload"
      → find (extract_loop accepts s files bytes t).tree k ≡ find t k
  unfolding extract_loop
  extract_loop-find done files bytes t k no_manifest no_payload = refl
  extract_loop-find broken files bytes t k no_manifest no_payload = refl
  extract_loop-find (next m s) files bytes t k no_manifest no_payload =
      elim (Result-cases (check_member m files bytes)) [
        | inl (total, e) ↦ elim (Option-cases m.bytes) [
          | inl none_left ↦ rw (e, none_left, extract_loop) refl
          | inr (b, e') ↦
              let w = write_member accepts m.name b t in
              rw (e, e', extract_loop)
                (after_write-find k t w.tree w.outcome
                  (λ t'. extract_loop accepts s (files + 1) total t')
                  (write_member-find m.name k b t (check_member-safe m files bytes total e)
                    no_manifest no_payload)
                  (extract_loop-find s (files + 1) total w.tree k no_manifest no_payload))
        ]
        | inr (x, e) ↦ rw (e, extract_loop) refl
      ]

  -- Whatever tar is extracted, and whether or not `extract` raises, at the top of the destination
  -- every entry but those spelled "manifest.json" and "payload" is as it was before: none is
  -- created, changed or removed.
  pub extract-find :
      (opened : Option Stream) (t : Tree) (k : String)
      → codes k ≢ codes "manifest.json"
      → codes k ≢ codes "payload"
      → find (extract accepts opened t).tree k ≡ find t k
  unfolding extract
  extract-find none t k no_manifest no_payload = refl
  extract-find (some s) t k no_manifest no_payload =
      extract_loop-find s 0 0 t k no_manifest no_payload
