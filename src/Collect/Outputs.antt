-- ===== src/Collect/Outputs.antt =====
-- What a collection by box/lib/causb/collect.py returns: every file of the tree, and only genuine ones.
use nebula_ca_harness.Prelude.{
  ℕ, ◌+◌, ◌≤◌, String, ◌≡◌, refl, sym, ap, ◌∙◌, subst, inl, inr, Bool, true, false, ◌||◌, none,
  some, List, [], ◌∷◌, ◌++◌, map, All, All-append, length, length-append, leb, leb→le, ◌==◌, nat_eq,
  Bool-cases, arith, Result, ok, bind_inv, require_inv, ok-injective,
}
use nebula_ca_harness.Extract.{max_files, max_depth}
use nebula_ca_harness.Collect.{
  Reason, path_traversal, cap_exceeded, Node, regular, symlink, special, subdir, closed_dir,
  Listing, finished, listed, Meta, Progress, Leaf, filenames, check_dirnames, sort_leaves,
  open_source, join_path, write_at, write_dest, collect_files, collect_dir, collect_subdirs, start,
  collect,
}

-- A file of the tree: the directory's path, its name and what it is.
pub record Found : Type 0 where
  pub rel : List String
  pub leaf : Leaf

abbrev pub here : List String → List Leaf → List Found
here rel [] = []
here rel (l ∷ ls) = record { rel = rel; leaf = l } ∷ here rel ls

-- The files of a directory and of those below it, in the order of the walk.
abbrev pub own_files : List String → Listing → List Found
own_files rel l = here rel (sort_leaves (filenames l))

abbrev pub files_below : List String → Listing → List Found
files_below rel finished = []
files_below rel (listed name (subdir l) rest) =
    (own_files (rel ++ (name ∷ [])) l ++ files_below (rel ++ (name ∷ [])) l) ++ files_below rel rest
files_below rel (listed name node rest) = files_below rel rest

abbrev pub all_files : Listing → List Found
all_files l = own_files [] l ++ files_below [] l

-- A regular file with one link, at most four components deep.
abbrev pub IsGenuine : Found → Type 0
IsGenuine f = ((b : List ℕ) × (f.leaf.1 ≡ regular 1 (some b))) × (length f.rel + 1 ≤ max_depth)

abbrev pub bytes_of : Node → List ℕ
bytes_of (regular links (some b)) = b
bytes_of node = []

-- A link to a directory is somewhere in the tree.
abbrev pub has_dir_link : Listing → Bool
has_dir_link finished = false
has_dir_link (listed name (symlink true) rest) = true
has_dir_link (listed name (subdir l) rest) = has_dir_link l || has_dir_link rest
has_dir_link (listed name node rest) = has_dir_link rest

open_source-eq-ok :
    (n : Node) (b : List ℕ) → open_source n ≡ ok b → (n ≡ regular 1 (some b)) × (b ≡ bytes_of n)
unfolding open_source
open_source-eq-ok (regular links none) b h = absurd cc
open_source-eq-ok (regular links (some c)) b h = elim (Bool-cases (links == 1)) [
  | inl e ↦
      let one : links ≡ 1 = (nat_eq.beq_iff links 1).0 e in
      let same : ◌≡◌ {A = Result Reason (List ℕ)} (ok c) (ok b) = rw e at h in
      (cc (one, ok-injective same), cc (ok-injective same))
  | inr e ↦ absurd (cc (rw e at h))
]
open_source-eq-ok (symlink x) b h = absurd cc
open_source-eq-ok special b h = absurd cc
open_source-eq-ok (subdir l) b h = absurd cc
open_source-eq-ok closed_dir b h = absurd cc

module _ (sha256 : List ℕ → String) where
  abbrev pub meta_of : Found → Meta
  meta_of f = record {
    path = join_path f.rel f.leaf.0;
    sha256 = sha256 (bytes_of f.leaf.1);
    bytes = length (bytes_of f.leaf.1);
  }

  abbrev pub metas_of : List Found → List Meta
  metas_of fs = map meta_of fs

  -- What a part of the walk has added.
  abbrev Walked : List Found → Progress → Progress → Type 0
  Walked fs p p' =
      (p'.outputs ≡ p.outputs ++ metas_of fs)
      × (p'.file_count ≡ p.file_count + length fs)
      × (p'.file_count ≤ max_files)
      × All IsGenuine fs

  append_nil : (xs : List Meta) → xs ≡ xs ++ []
  append_nil [] = refl
  append_nil (x ∷ xs) = ap (λ ys. x ∷ ys) (append_nil xs)

  append_assoc : (xs ys zs : List Meta) → (xs ++ ys) ++ zs ≡ xs ++ (ys ++ zs)
  append_assoc [] ys zs = refl
  append_assoc (x ∷ xs) ys zs = ap (λ ws. x ∷ ws) (append_assoc xs ys zs)

  metas-append : (fs gs : List Found) → metas_of (fs ++ gs) ≡ metas_of fs ++ metas_of gs
  metas-append [] gs = refl
  metas-append (f ∷ fs) gs = ap (λ ms. meta_of f ∷ ms) (metas-append fs gs)

  Walked-none : (p : Progress) → p.file_count ≤ max_files → Walked [] p p
  Walked-none p le = (append_nil p.outputs, omega arith, le, tt)

  Walked-append :
      (fs gs : List Found) (p p' p'' : Progress)
      → Walked fs p p'
      → Walked gs p' p''
      → Walked (fs ++ gs) p p''
  Walked-append fs gs p p' p'' (o, n, le, all) (o', n', le', all') = (
    o'
        ∙ ap (λ x. x ++ metas_of gs) o
        ∙ append_assoc p.outputs (metas_of fs) (metas_of gs)
        ∙ ap (λ x. p.outputs ++ x) (sym (metas-append fs gs)),
    omega (arith, n, n', length-append fs gs),
    le',
    All-append IsGenuine fs gs all all',
  )

  write_dest-eq-ok :
      (rel : List String) (name : String) (b : List ℕ) (p p' : Progress)
      → write_dest sha256 rel name b p ≡ ok p'
      → (p'.outputs
          ≡ p.outputs
            ++ (record { path = join_path rel name; sha256 = sha256 b; bytes = length b } ∷ []))
        × (p'.file_count ≡ p.file_count)
  unfolding write_dest
  write_dest-eq-ok rel name b p p' h = bind_inv (write_at rel name b p.dest) h λ dest e1 h1.
      require_inv (leb (length b) p.room) cap_exceeded h1 λ e2 h2.
        let same = ok-injective h2 in
        (
          sym (ap (λ (q : Progress). q.outputs) same),
          sym (ap (λ (q : Progress). q.file_count) same),
        )

  collect_files-Walked :
      (rel : List String) (ls : List Leaf) (p p' : Progress)
      → p.file_count ≤ max_files
      → collect_files sha256 rel ls p ≡ ok p'
      → Walked (here rel ls) p p'
  unfolding collect_files
  collect_files-Walked rel [] p p' le h =
      subst (λ q. Walked [] p q) (ok-injective h) (Walked-none p le)
  collect_files-Walked rel ((name, node) ∷ ls) p p' le h =
      require_inv (leb (p.file_count + 1) max_files) cap_exceeded h λ few h1.
        require_inv (leb (length rel + 1) max_depth) path_traversal h1 λ flat h2.
          bind_inv (open_source node) h2 λ b eb h3.
            bind_inv (write_dest sha256 rel name b (record p { file_count = p.file_count + 1 })) h3
              λ q eq h4.
                let (o, n) =
                  write_dest-eq-ok rel name b (record p { file_count = p.file_count + 1 }) q eq in
                let (is_regular, is_bytes) = open_source-eq-ok node b eb in
                let few' = leb→le (p.file_count + 1) max_files few in
                let flat' = leb→le (length rel + 1) max_depth flat in
                let rest = collect_files-Walked rel ls q p' (omega (arith, n, few')) h4 in
                let first : Walked (record { rel = rel; leaf = (name, node) } ∷ []) p q = (
                  subst
                      (λ x.
                        q.outputs
                        ≡ p.outputs
                          ++ (record {
                            path = join_path rel name;
                            sha256 = sha256 x;
                            bytes = length x;
                          }
                              ∷ []))
                      is_bytes o,
                  omega (arith, n),
                  omega (arith, n, few'),
                  (((b, is_regular), flat'), tt),
                ) in
                Walked-append (record { rel = rel; leaf = (name, node) } ∷ []) (here rel ls) p q p'
                  first rest

  collect_dir-Walked :
      (rel : List String) (l : Listing) (p p' : Progress)
      → p.file_count ≤ max_files
      → collect_dir sha256 rel l p ≡ ok p'
      → Walked (own_files rel l) p p' × (check_dirnames l ≡ ok tt)
  unfolding collect_dir
  collect_dir-Walked rel l p p' le h =
      require_inv (leb (length rel) max_depth) path_traversal h λ flat h1.
        bind_inv (check_dirnames l) h1
          λ u e h2. (collect_files-Walked rel (sort_leaves (filenames l)) p p' le h2, e)

  -- A directory whose own names are no links to directories, and the same below.
  collect_subdirs-Walked :
      (rel : List String) (l : Listing) (p p' : Progress)
      → p.file_count ≤ max_files
      → check_dirnames l ≡ ok tt
      → collect_subdirs sha256 rel l p ≡ ok p'
      → Walked (files_below rel l) p p' × (has_dir_link l ≡ false)
  unfolding collect_subdirs check_dirnames
  collect_subdirs-Walked rel finished p p' le c h =
      (subst (λ q. Walked [] p q) (ok-injective h) (Walked-none p le), refl)
  collect_subdirs-Walked rel (listed name (regular n b) rest) p p' le c h =
      collect_subdirs-Walked rel rest p p' le c h
  collect_subdirs-Walked rel (listed name (symlink true) rest) p p' le c h = absurd cc
  collect_subdirs-Walked rel (listed name (symlink false) rest) p p' le c h =
      collect_subdirs-Walked rel rest p p' le c h
  collect_subdirs-Walked rel (listed name special rest) p p' le c h =
      collect_subdirs-Walked rel rest p p' le c h
  collect_subdirs-Walked rel (listed name closed_dir rest) p p' le c h = absurd cc
  collect_subdirs-Walked rel (listed name (subdir l) rest) p p' le c h =
      bind_inv (collect_dir sha256 (rel ++ (name ∷ [])) l p) h λ q e1 h1.
        bind_inv (collect_subdirs sha256 (rel ++ (name ∷ [])) l q) h1 λ r e2 h2.
          let (own, flat) = collect_dir-Walked (rel ++ (name ∷ [])) l p q le e1 in
          let (deep, no_link) = collect_subdirs-Walked (rel ++ (name ∷ [])) l q r own.2 flat e2 in
          let (later, no_link') = collect_subdirs-Walked rel rest r p' deep.2 c h2 in
          (
            Walked-append (own_files (rel ++ (name ∷ [])) l ++ files_below (rel ++ (name ∷ [])) l)
                (files_below rel rest) p r p'
                (Walked-append (own_files (rel ++ (name ∷ [])) l)
                  (files_below (rel ++ (name ∷ [])) l) p q r own deep)
                later,
            rw (no_link, no_link') refl,
          )

  -- When `collect` returns, its list has one entry for each file of the tree, in the order of the walk,
  -- with the file's path, hash and size. Each of them is a regular file with one hard link, at most
  -- four components deep; there are 64 at most; and no link to a directory is in the tree.
  pub collect-all_files :
      (out_dir : Listing) (room : ℕ) (p : Progress)
      → collect sha256 out_dir room ≡ ok p
      → (p.outputs ≡ metas_of (all_files out_dir))
        × All IsGenuine (all_files out_dir)
        × (length (all_files out_dir) ≤ max_files)
        × (has_dir_link out_dir ≡ false)
  unfolding collect
  collect-all_files out_dir room p h =
      bind_inv (collect_dir sha256 [] out_dir (start room)) h λ q e1 h1.
        let (own, flat) = collect_dir-Walked [] out_dir (start room) q (omega arith) e1 in
        let (deep, no_link) = collect_subdirs-Walked [] out_dir q p own.2 flat h1 in
        let (o, n, le, all) =
          Walked-append (own_files [] out_dir) (files_below [] out_dir) (start room) q p own deep in
        (o, all, omega (arith, n, le), no_link)
