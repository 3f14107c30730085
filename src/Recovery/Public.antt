-- ===== src/Recovery/Public.antt =====
-- What the recovery kit of box/lib/causb/recovery.py may hold.
use mathlib.Core.List.{Memᴰ}
use mathlib.Core.List.Memᴰ
use nebula_ca_harness.Prelude.{
  String, ◌≡◌, refl, sym, subst, inl, inr, Bool, Option, none, some, List, [], ◌∷◌, ◌++◌, All,
  All-map, Bool-cases, if◌then◌else◌,
}
use nebula_ca_harness.Prelude.Dict.{Dict}
use nebula_ca_harness.Json.{Value}
use nebula_ca_harness.Effect.{check, ◌>>◌}
use nebula_ca_harness.Effect.Triple.{
  Triple, Post, Triple-pure, Triple-raise, Triple-step, Triple-read, Triple-given, Triple-check,
  Triple-bind,
}
use nebula_ca_harness.Dispatch.{is_true}
use nebula_ca_harness.Recovery.{
  Reason, Bytes, File, regular, irregular, Place, absent, folder, link, no_folder, World, Dirs,
  Copy, Io, template_copies, tool_copies, module_copies, anchor_copies, ca_crt, ca_registry, kit_of,
  bytes_of, is_regular, is_staged, require_src, remove_files, clear_dest, prepare_dest, write_read,
  copy_nofollow, copy_all, copy_present, copy_all_present,
}
use nebula_ca_harness.Recovery.Kit.{copy_registry, write_metadata, assemble_kit, write}
use nebula_ca_harness.Recovery.Allowed.{
  sources, IsWhole, Left, Keeps, IsWhole-Left, write_file-Keeps,
}

bytes_of_inv : (f : Option File) {b : Bytes} → bytes_of f ≡ some b → f ≡ some (regular (some b))
bytes_of_inv (some (regular o)) h = cc
bytes_of_inv (some irregular) h = absurd cc
bytes_of_inv none h = absurd cc

module _ (w : World) (d : Dirs) (confirm2 : Value) (s₀ : Place) where
  abbrev KeepsKit : Io (Unit {0}) → Type 0
  KeepsKit = Keeps w d confirm2 s₀

  abbrev Whole : Place → Type 0
  Whole = IsWhole w d confirm2

  abbrev Crashed : Place → Type 0
  Crashed = Left w d confirm2 s₀

  crashed : (s : Place) → Whole s → Crashed s
  crashed = IsWhole-Left w d confirm2 s₀

  check-Keeps : (t : Bool) (e : Reason) → KeepsKit (check t e)
  check-Keeps t e = Triple-check t e (λ s g _. g) crashed

  then-Keeps : (m k : Io (Unit {0})) → KeepsKit m → KeepsKit k → KeepsKit (m >> k)
  then-Keeps m k h h' = Triple-bind m (λ _. k) h (λ _. h')

  copy_nofollow-Keeps : (c : Copy) → Memᴰ c (sources d confirm2) → KeepsKit (copy_nofollow w c)
  unfolding copy_nofollow
  copy_nofollow-Keeps c m = go (bytes_of (w.files c.source)) refl
    where
      go : (o : Option Bytes) → bytes_of (w.files c.source) ≡ o → KeepsKit (write_read w c.target o)
      go none h = Triple-raise _ crashed
      go (some b) h =
          write_file-Keeps w d confirm2 s₀ c.target b (inr (inr (c, m, refl, bytes_of_inv _ h)))

  copy_present-Keeps : (c : Copy) → Memᴰ c (sources d confirm2) → KeepsKit (copy_present w c)
  unfolding copy_present
  copy_present-Keeps c m = elim (Bool-cases (is_regular w c.source)) [
    | inl e ↦ rw (e, copy_present) (copy_nofollow-Keeps c m)
    | inr e ↦ rw (e, copy_present) (Triple-pure tt λ s g. g)
  ]

  copy_all-Keeps :
      (cs : List Copy)
      → ((c : Copy) → Memᴰ c cs → Memᴰ c (sources d confirm2))
      → KeepsKit (copy_all w cs)
  unfolding copy_all
  copy_all-Keeps [] h = Triple-pure tt λ s g. g
  copy_all-Keeps (c ∷ cs) h =
      then-Keeps _ _ (copy_nofollow-Keeps c (h c (Memᴰ.head refl)))
        (copy_all-Keeps cs λ x m. h x (Memᴰ.tail m))

  copy_all_present-Keeps :
      (cs : List Copy)
      → ((c : Copy) → Memᴰ c cs → Memᴰ c (sources d confirm2))
      → KeepsKit (copy_all_present w cs)
  unfolding copy_all_present
  copy_all_present-Keeps [] h = Triple-pure tt λ s g. g
  copy_all_present-Keeps (c ∷ cs) h =
      then-Keeps _ _ (copy_present-Keeps c (h c (Memᴰ.head refl)))
        (copy_all_present-Keeps cs λ x m. h x (Memᴰ.tail m))

  registry-Keeps :
      ((c : Copy)
        → Memᴰ c (if is_true confirm2 then ca_registry d ∷ [] else [])
        → Memᴰ c (sources d confirm2))
      → KeepsKit (copy_registry w d confirm2)
  unfolding copy_registry
  registry-Keeps h = elim (Bool-cases (is_true confirm2)) [
    | inl e ↦
        rw (e, copy_registry)
          (copy_present-Keeps (ca_registry d) (h (ca_registry d) (rw e (Memᴰ.head refl))))
    | inr e ↦ rw (e, copy_registry) (Triple-pure tt λ s g. g)
  ]

  metadata-Keeps : KeepsKit (write_metadata w d)
  unfolding write_metadata
  metadata-Keeps =
      then-Keeps _ _ (write_file-Keeps w d confirm2 s₀ "box-info.json" _ (inl (refl, refl)))
        (write_file-Keeps w d confirm2 s₀ "TOOL-VERSIONS.md" _ (inr (inl (refl, refl))))

  assemble_kit-Keeps : KeepsKit (assemble_kit w d confirm2)
  unfolding assemble_kit
  assemble_kit-Keeps =
      let ts = template_copies d in
      let os = tool_copies d in
      let ms = module_copies d in
      let as' = anchor_copies d in
      then-Keeps (copy_all w ts) _ (copy_all-Keeps ts λ c m. Memᴰ.append_left _ m) (
        then-Keeps (copy_all w os) _
          (copy_all-Keeps os λ c m. Memᴰ.append_right ts (Memᴰ.append_left _ m))
          (then-Keeps _ _ (check-Keeps (w.can_make "causb") _) (
            then-Keeps (copy_all w ms) _
              (copy_all-Keeps ms
                λ c m. Memᴰ.append_right ts (Memᴰ.append_right os (Memᴰ.append_left _ m)))
              (then-Keeps (copy_all_present w as') _
                (copy_all_present-Keeps as' λ c m. later (Memᴰ.append_left _ m))
                (then-Keeps (copy_present w (ca_crt d)) _
                  (copy_present-Keeps (ca_crt d) (later (Memᴰ.append_right as' (Memᴰ.head refl))))
                  (then-Keeps (copy_registry w d confirm2) _
                    (registry-Keeps λ c m. later (Memᴰ.append_right as' (Memᴰ.tail m)))
                    metadata-Keeps))))))
    where
      later :
          {c : Copy}
          → Memᴰ c (
              anchor_copies d ++ (ca_crt d ∷ (if is_true confirm2 then ca_registry d ∷ [] else [])))
          → Memᴰ c (sources d confirm2)
      later m =
          Memᴰ.append_right (template_copies d)
            (Memᴰ.append_right (tool_copies d) (Memᴰ.append_right (module_copies d) m))

  remove_files-Left :
      (kit : Dict String Bytes)
      → All (λ f. Memᴰ f (kit_of s₀)) kit
      → Triple (λ s. Crashed s) Crashed (λ _. Crashed) (remove_files w kit)
  unfolding remove_files
  remove_files-Left [] m =
      Triple-bind _ _ (Triple-check {R = λ _. Crashed} w.can_clear _ (λ s h _. h) (λ s h. h))
        λ _. Triple-step (λ p. absent) λ s h. (inr (inl refl), inr (inl refl))
  remove_files-Left ((name, b) ∷ kit) (_, m) =
      Triple-bind _ _
        (Triple-check {R = λ _. Crashed} (w.can_remove name) _ (λ s h _. h) (λ s h. h))
        λ _.
          Triple-bind _ _
            (Triple-step {R = λ _. Crashed} (λ p. folder kit)
              λ s h. let r = inr (inr (inl (kit, refl, m))) in (r, r))
            λ _. remove_files-Left kit m

  clear_dest-Left :
      (p : Place)
      → All (λ f. Memᴰ f (kit_of s₀)) (kit_of p)
      → Triple Crashed Crashed (λ _. Crashed) (clear_dest w p)
  unfolding clear_dest
  clear_dest-Left absent m = Triple-pure tt λ s h. h
  clear_dest-Left (folder kit) m = remove_files-Left kit m
  clear_dest-Left link m = Triple-raise _ λ s h. h
  clear_dest-Left no_folder m = Triple-raise _ λ s h. h

  All-Mem : (kit : Dict String Bytes) → All (λ f. Memᴰ f kit) kit
  All-Mem [] = tt
  All-Mem (f ∷ kit) = (Memᴰ.head refl, All-map kit (λ x m. Memᴰ.tail m) (All-Mem kit))

  abbrev Started : Place → Type 0
  Started s = s ≡ s₀

  prepare_dest-Whole : Triple Started Crashed (λ _. Whole) (prepare_dest w)
  unfolding prepare_dest
  prepare_dest-Whole =
      Triple-bind _ _ (Triple-read {R = λ p s. (p ≡ s₀) × Crashed s} (λ p. p) λ s h. (h, inl h))
        λ p.
          Triple-bind _ _
            (Triple-given (clear_dest w p) λ e.
              clear_dest-Left p (
                subst (λ q. All (λ f. Memᴰ f (kit_of s₀)) (kit_of q)) (sym e)
                  (All-Mem (kit_of s₀))))
            λ _.
              Triple-bind _ _
                (Triple-check {R = λ _. Crashed} (w.can_make "") _ (λ s h _. h) (λ s h. h))
                λ _.
                  Triple-step (λ p. folder [])
                    λ s h. (crashed (folder []) ([], refl, tt), ([], refl, tt))

  write-Triple : Triple Started Crashed (λ _. Whole) (write w d confirm2)
  unfolding write require_src
  write-Triple =
      Triple-bind _ _
        (Triple-check {R = λ _. Started}
          (is_staged w (tool_copies d ++ (module_copies d ++ template_copies d))) _ (λ s h _. h)
          (λ s h. inl h))
        λ _. Triple-bind _ _ prepare_dest-Whole λ _. assemble_kit-Keeps

-- At every moment of `write`, and at its end, there stands at CA-RECOVERY on the stick what stood there
-- before; or nothing; or a directory with some of the files that stood there before, as they were; or
-- a kit in which each file has some first bytes of an allowed one. Allowed are the generated metadata
-- and the regular files among the templates, tools and modules of the staged tree, the two anchor
-- files, ca.crt and, only when `confirm2` is the literal `True`, registry.json. When `write` returns,
-- there stands a kit in which each file is an allowed one with all its bytes.
pub write-IsPublic :
    (w : World) (d : Dirs) (confirm2 : Value) (s : Place)
    → All (Left w d confirm2 s) (write w d confirm2 s).trace
      × Post
          (Left w d confirm2 s)
          (λ _. IsWhole w d confirm2)
          (write w d confirm2 s).result
          (write w d confirm2 s).state
write-IsPublic w d confirm2 s = (write-Triple w d confirm2 s).at s refl
