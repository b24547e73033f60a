-- ===== src/Archive/Packed.antt =====
-- helpers/tar.go: the files of a walk, as a relation.
use epinio.Base.{
  true, false, List, [], some, ◌≡◌, ◌≢◌, ◌↔◌, ◌⊎◌, refl, sym, ◌∙◌, subst, inl, inr, Bool-cases,
}
use epinio.Text.{Text, ◌==◌, ==_iff, ==_refl}
use epinio.Text.Maps.{Map, lookup, insert, lookup-insert}
use epinio.Paths.{join_entry}
use epinio.Ignore.Pattern.{IgnorePattern}
use epinio.Archive.{
  Node, file, unreadable, folder, Entries, end, entry, Visit, pass, skip_dir, add, visit,
  after_file, after_folder, walk, walk_entries, sources_of,
}

after_folder_new :
    (v : Visit) (inside sources : Map Text) (p r : Text)
    → lookup p (after_folder v inside sources) ≡ some r
    → ((v ≢ skip_dir) × (lookup p inside ≡ some r)) ⊎ (lookup p sources ≡ some r)
after_folder_new pass inside sources p r h = inl (λ e. cc, h)
after_folder_new skip_dir inside sources p r h = inr h
after_folder_new (add q) inside sources p r h = inl (λ e. cc, h)

after_folder_keeps :
    (v : Visit) (inside sources : Map Text) (p r : Text)
    → lookup p sources ≡ some r
    → lookup p inside ≡ some r
    → lookup p (after_folder v inside sources) ≡ some r
after_folder_keeps pass inside sources p r h k = k
after_folder_keeps skip_dir inside sources p r h k = h
after_folder_keeps (add q) inside sources p r h k = k

after_folder_inside :
    (v : Visit) (inside sources : Map Text) (p r : Text)
    → v ≢ skip_dir
    → lookup p inside ≡ some r
    → lookup p (after_folder v inside sources) ≡ some r
after_folder_inside pass inside sources p r e k = k
after_folder_inside skip_dir inside sources p r e k = absurd (e refl)
after_folder_inside (add q) inside sources p r e k = k

module _ (patterns : List IgnorePattern) (dir : Text) where
  mutual
    -- The file at the path `p`, found from `path` on, is packed as `r`: it is to be added itself, and
    -- no directory on the way to it is skipped.
    pub data Packed : Text → Node → Text → Text → Type 0 where
      packed_file :
          {path r : Text} → visit patterns dir path false ≡ add r → Packed path file path r
      packed_in :
          {path p r : Text} {entries : Entries}
          → visit patterns dir path true ≢ skip_dir
          → PackedEntry path entries p r
          → Packed path (folder entries) p r

    pub data PackedEntry : Text → Entries → Text → Text → Type 0 where
      at_first :
          {path p r name : Text} {child : Node} {rest : Entries}
          → Packed (join_entry path name) child p r
          → PackedEntry path (entry name child rest) p r
      at_rest :
          {path p r name : Text} {child : Node} {rest : Entries}
          → PackedEntry path rest p r
          → PackedEntry path (entry name child rest) p r

  -- Adding a file, as a read of the sources sees it.
  after_file_new :
      (v : Visit) (path p r : Text) (sources : Map Text)
      → lookup p (after_file v path sources) ≡ some r
      → ((path ≡ p) × (v ≡ add r)) ⊎ (lookup p sources ≡ some r)
  after_file_new pass path p r sources h = inr h
  after_file_new skip_dir path p r sources h = inr h
  after_file_new (add q) path p r sources h = elim (Bool-cases (path == p)) [
    | inl e ↦
        let found : lookup p (insert path q sources) ≡ some q = rw (lookup-insert, e) refl in
        inl ((==_iff path p).0 e, cc (h, found))
    | inr e ↦
        let found : lookup p (insert path q sources) ≡ lookup p sources =
          rw (lookup-insert, e) refl in
        inr (sym found ∙ h)
  ]

  after_file_keeps :
      (path p r : Text) (sources : Map Text)
      → visit patterns dir p false ≡ add r
      → lookup p sources ≡ some r
      → lookup p (after_file (visit patterns dir path false) path sources) ≡ some r
  after_file_keeps path p r sources a h = elim (Bool-cases (path == p)) [
    | inl e ↦ let same : path ≡ p = (==_iff path p).0 e in rw (same, a, lookup-insert, ==_refl) refl
    | inr e ↦ other (visit patterns dir path false) e
  ]
    where
      other : (v : Visit) → (path == p) ≡ false → lookup p (after_file v path sources) ≡ some r
      other pass e = h
      other skip_dir e = h
      other (add q) e = rw (lookup-insert, e) h

  mutual
    unfolding walk walk_entries

    walk_new :
        (path : Text) (n : Node) (sources : Map Text) (p r : Text)
        → lookup p (walk patterns dir path n sources) ≡ some r
        → Packed path n p r ⊎ (lookup p sources ≡ some r)
    walk_new path unreadable sources p r h = inr h
    walk_new path file sources p r h =
        elim (after_file_new (visit patterns dir path false) path p r sources h) [
          | inl (e, a) ↦ inl (subst (λ (q : Text). Packed path file q r) e (packed_file a))
          | inr k ↦ inr k
        ]
    walk_new path (folder entries) sources p r h =
        elim (after_folder_new (visit patterns dir path true) _ sources p r h) [
          | inl (e, k) ↦ elim (walk_entries_new path entries sources p r k) [
            | inl d ↦ inl (packed_in e d)
            | inr k ↦ inr k
          ]
          | inr k ↦ inr k
        ]

    walk_entries_new :
        (path : Text) (entries : Entries) (sources : Map Text) (p r : Text)
        → lookup p (walk_entries patterns dir path entries sources) ≡ some r
        → PackedEntry path entries p r ⊎ (lookup p sources ≡ some r)
    walk_entries_new path end sources p r h = inr h
    walk_entries_new path (entry name child rest) sources p r h =
        elim (walk_entries_new path rest _ p r h) [
          | inl d ↦ inl (at_rest d)
          | inr k ↦ elim (walk_new (join_entry path name) child sources p r k) [
            | inl d ↦ inl (at_first d)
            | inr k ↦ inr k
          ]
        ]

  mutual
    unfolding walk walk_entries

    -- What was found stays, since a file is added under one name only.
    walk_keeps :
        (path : Text) (n : Node) (sources : Map Text) (p r : Text)
        → visit patterns dir p false ≡ add r
        → lookup p sources ≡ some r
        → lookup p (walk patterns dir path n sources) ≡ some r
    walk_keeps path unreadable sources p r a h = h
    walk_keeps path file sources p r a h = after_file_keeps path p r sources a h
    walk_keeps path (folder entries) sources p r a h =
        after_folder_keeps (visit patterns dir path true) _ sources p r h
          (walk_entries_keeps path entries sources p r a h)

    walk_entries_keeps :
        (path : Text) (entries : Entries) (sources : Map Text) (p r : Text)
        → visit patterns dir p false ≡ add r
        → lookup p sources ≡ some r
        → lookup p (walk_entries patterns dir path entries sources) ≡ some r
    walk_entries_keeps path end sources p r a h = h
    walk_entries_keeps path (entry name child rest) sources p r a h =
        walk_entries_keeps path rest _ p r a
          (walk_keeps (join_entry path name) child sources p r a h)

  mutual
    Packed-visit :
        {path p r : Text} {n : Node} → Packed path n p r → visit patterns dir p false ≡ add r
    Packed-visit (packed_file a) = a
    Packed-visit (packed_in e d) = PackedEntry-visit d

    PackedEntry-visit :
        {path p r : Text} {entries : Entries}
        → PackedEntry path entries p r
        → visit patterns dir p false ≡ add r
    PackedEntry-visit (at_first d) = Packed-visit d
    PackedEntry-visit (at_rest d) = PackedEntry-visit d

  mutual
    unfolding walk walk_entries

    Packed-walk :
        (path : Text) (n : Node) (sources : Map Text) (p r : Text)
        → Packed path n p r
        → lookup p (walk patterns dir path n sources) ≡ some r
    Packed-walk path file sources p r (packed_file a) = rw (a, lookup-insert, ==_refl) refl
    Packed-walk path (folder entries) sources p r (packed_in e d) =
        after_folder_inside (visit patterns dir path true) _ sources p r e
          (PackedEntry-walk path entries sources p r d)
    Packed-walk path unreadable sources p r d = elim d [ ]

    PackedEntry-walk :
        (path : Text) (entries : Entries) (sources : Map Text) (p r : Text)
        → PackedEntry path entries p r
        → lookup p (walk_entries patterns dir path entries sources) ≡ some r
    PackedEntry-walk path (entry name child rest) sources p r (at_first d) =
        walk_entries_keeps path rest _ p r (Packed-visit d)
          (Packed-walk (join_entry path name) child sources p r d)
    PackedEntry-walk path (entry name child rest) sources p r (at_rest d) =
        PackedEntry-walk path rest _ p r d
    PackedEntry-walk path end sources p r d = elim d [ ]

  -- A file is in the archive under a name exactly if the walk adds it under that name and skips none
  -- of the directories above it: the order of the walk has no part in it, and no file that was added
  -- is lost.
  pub sources_of_iff :
      (root : Node) (p r : Text)
      → (lookup p (sources_of patterns dir root) ≡ some r) ↔ Packed dir root p r
  unfolding sources_of lookup
  sources_of_iff root p r = (
    λ h. elim (walk_new dir root [] p r h) [ inl d ↦ d | inr k ↦ absurd (nothing k) ],
    Packed-walk dir root [] p r,
  )
    where
      nothing : lookup p [] ≡ some r → ⊥
      nothing k = cc
