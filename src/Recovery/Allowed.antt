-- ===== src/Recovery/Allowed.antt =====
-- The files that a recovery kit of box/lib/causb/recovery.py may hold, whole or partly written, and
-- the writing of one of them.
use mathlib.Core.List.{Memᴰ}
use nebula_ca_harness.Prelude.{
  ℕ, String, ◌≡◌, refl, ap, sym, ◌∙◌, subst, ◌⊎◌, inl, inr, some, List, [], ◌∷◌, ◌++◌, All, All-map,
  string_eq, ◌==◌, Bool-cases, if◌then◌else◌,
}
use nebula_ca_harness.Prelude.Dict.{Dict, put, put-put}
use nebula_ca_harness.Json.{Value}
use nebula_ca_harness.Effect.Triple.{Triple, Triple-pure, Triple-step, Triple-check, Triple-bind}
use nebula_ca_harness.Dispatch.{is_true}
use nebula_ca_harness.Recovery.{
  Bytes, regular, Place, absent, folder, World, Dirs, Copy, Io, template_copies, tool_copies,
  module_copies, anchor_copies, ca_crt, ca_registry, kit_of, on_kit, is_regular, fill_file,
  write_file,
}
use nebula_ca_harness.Recovery.Info.{box_info, tool_versions}

-- The copies that a kit may be made of.
abbrev pub sources : Dirs → Value → List Copy
sources d confirm2 =
    template_copies d
    ++ (tool_copies d
        ++ (module_copies d
            ++ (anchor_copies d
                ++ (ca_crt d ∷ (if is_true confirm2 then ca_registry d ∷ [] else [])))))

-- A whole file of the kit is the copy of a regular file among the sources, or metadata.
abbrev pub IsPublic : World → Dirs → Value → String × Bytes → Type 0
IsPublic w d confirm2 (name, b) =
    ((name ≡ "box-info.json") × (b ≡ box_info w (ca_crt d).source (is_regular w (ca_crt d).source)))
    ⊎ ((name ≡ "TOOL-VERSIONS.md") × (b ≡ tool_versions w))
    ⊎ ((c : Copy) × Memᴰ c (sources d confirm2)
        × (c.target ≡ name)
        × (w.files c.source ≡ some (regular (some b))))

-- The first bytes of such a file.
abbrev pub IsPart : World → Dirs → Value → String × Bytes → Type 0
IsPart w d confirm2 (name, b) = (rest : Bytes) × IsPublic w d confirm2 (name, b ++ rest)

append_nil : (b : Bytes) → b ++ [] ≡ b
append_nil [] = refl
append_nil (x ∷ b) = ap (λ c. x ∷ c) (append_nil b)

append_snoc : (b : Bytes) (x : ℕ) (c : Bytes) → (b ++ (x ∷ [])) ++ c ≡ b ++ (x ∷ c)
append_snoc [] x c = refl
append_snoc (y ∷ b) x c = ap (λ u. y ∷ u) (append_snoc b x c)

All-put :
    (P : String × Bytes → Type 0) (name : String) (b : Bytes) (kit : Dict String Bytes)
    → P (name, b)
    → All P kit
    → All P (put name b kit)
unfolding put
All-put P name b [] h k = (h, tt)
All-put P name b ((n, c) ∷ kit) h (p, ps) = elim (Bool-cases (n == name)) [
  | inl e ↦ rw (e, put) (h, ps)
  | inr e ↦ rw (e, put) (p, All-put P name b kit h ps)
]

module _ (w : World) (d : Dirs) (confirm2 : Value) where
  -- A kit whose files are all whole.
  abbrev pub IsWhole : Place → Type 0
  IsWhole s = (kit : Dict String Bytes) × (s ≡ folder kit) × All (IsPublic w d confirm2) kit

  -- A kit while it is written.
  abbrev pub IsPartial : Place → Type 0
  IsPartial s = (kit : Dict String Bytes) × (s ≡ folder kit) × All (IsPart w d confirm2) kit

module _ (w : World) (d : Dirs) (confirm2 : Value) (s₀ : Place) where
  abbrev Whole : Place → Type 0
  Whole = IsWhole w d confirm2

  -- The directory that stood there before, without some of its files.
  abbrev pub IsRest : Place → Type 0
  IsRest s = (kit : Dict String Bytes) × (s ≡ folder kit) × All (λ f. Memᴰ f (kit_of s₀)) kit

  -- What a power loss can leave.
  abbrev pub Left : Place → Type 0
  Left s = (s ≡ s₀) ⊎ (s ≡ absent) ⊎ IsRest s ⊎ IsPartial w d confirm2 s

  abbrev pub Keeps : Io (Unit {0}) → Type 0
  Keeps m = Triple Whole Left (λ _. Whole) m

  -- One file has its first bytes, and the others are whole.
  abbrev IsFilling : String → Bytes → Place → Type 0
  IsFilling name have s =
      (kit : Dict String Bytes) × (s ≡ folder (put name have kit)) × All (IsPublic w d confirm2) kit

  IsPart-of_IsPublic : (f : String × Bytes) → IsPublic w d confirm2 f → IsPart w d confirm2 f
  IsPart-of_IsPublic (name, b) h =
      ([], subst (λ c. IsPublic w d confirm2 (name, c)) (sym (append_nil b)) h)

  pub IsWhole-Left : (s : Place) → Whole s → Left s
  IsWhole-Left s (kit, e, h) = inr (inr (inr (kit, e, All-map kit IsPart-of_IsPublic h)))

  IsFilling-Left :
      (name : String) (have rest : Bytes) (s : Place)
      → IsPublic w d confirm2 (name, have ++ rest)
      → IsFilling name have s
      → Left s
  IsFilling-Left name have rest s content (kit, e, h) = inr (
      inr (
        inr (
          put name have kit,
          e,
          All-put (IsPart w d confirm2) name have kit (rest, content)
              (All-map kit IsPart-of_IsPublic h),
        )))

  put-IsFilling :
      (name : String) (have more : Bytes) (s : Place)
      → IsFilling name have s
      → IsFilling name more (on_kit (put name more) s)
  unfolding on_kit
  put-IsFilling name have more s (kit, e, h) =
      (kit, ap (on_kit (put name more)) e ∙ ap folder (put-put name have more kit), h)

  start-IsFilling :
      (name : String) (s : Place) → Whole s → IsFilling name [] (on_kit (put name []) s)
  unfolding on_kit
  start-IsFilling name s (kit, e, h) = (kit, ap (on_kit (put name [])) e, h)

  fill_file-Triple :
      (name : String) (have bytes : Bytes)
      → IsPublic w d confirm2 (name, have ++ bytes)
      → Triple (IsFilling name have) Left (λ _. Whole) (fill_file w name have bytes)
  unfolding fill_file
  fill_file-Triple name have [] content = Triple-pure tt λ s (kit, e, h). (
    put name have kit,
    e,
    All-put (IsPublic w d confirm2) name have kit
        (subst (λ c. IsPublic w d confirm2 (name, c)) (append_nil have) content) h,
  )
  fill_file-Triple name have (b ∷ bytes) content =
      let more = have ++ (b ∷ []) in
      let content' : IsPublic w d confirm2 (name, more ++ bytes) =
        subst (λ c. IsPublic w d confirm2 (name, c)) (sym (append_snoc have b bytes)) content in
      Triple-bind _ _
        (Triple-check {R = λ _. IsFilling name have} (w.can_fill name have) _ (λ s h _. h)
          (λ s h. IsFilling-Left name have (b ∷ bytes) s content h))
        λ _.
          Triple-bind _ _
            (Triple-step {R = λ _. IsFilling name more} (on_kit (put name more)) λ s h.
              let f = put-IsFilling name have more s h in
              (IsFilling-Left name more bytes _ content' f, f))
            λ _. fill_file-Triple name more bytes content'

  pub write_file-Keeps :
      (name : String) (b : Bytes) → IsPublic w d confirm2 (name, b) → Keeps (write_file w name b)
  unfolding write_file
  write_file-Keeps name b content =
      Triple-bind _ _
        (Triple-check {R = λ _. Whole} (w.can_create name) _ (λ s h _. h) IsWhole-Left)
        λ _.
          Triple-bind _ _
            (Triple-step {R = λ _. IsFilling name []} (on_kit (put name []))
              λ s h. let f = start-IsFilling name s h in (IsFilling-Left name [] b _ content f, f))
            λ _. fill_file-Triple name [] b content
