-- ===== src/Manifest/Shown.antt =====
-- internal/manifest/manifest.go: the variables of a map as assignments of --env.
use epinio.Base.{
  ℕ, false, [], ◌∷◌, ◌++◌, none, some, ◌≡◌, refl, sym, ◌∙◌, ap, ok, Bool-cases, inl, inr, eqb,
  arith, map, append_assoc, append-nil,
}
use epinio.Text.{Text, codes, ◌==◌, ==_iff}
use epinio.Text.Split.{cut, Lacks}
use epinio.Text.Maps.{Map, lookup, insert}
use epinio.Manifest.{ApplicationManifest, Flags, ManifestError, bad_env}
use epinio.Manifest.Options.{assigned, update_environment}

cut_at :
    (name value : Text) → Lacks b'=' name → cut (name ++ b'=' ∷ value) b'=' ≡ some (name, value)
unfolding cut
cut_at [] value h = refl
cut_at (c ∷ name) value h =
    let other : eqb c b'=' ≡ false = not_sep c h.0 in rw (other, cut_at name value h.1) refl
  where
    not_sep : (c : ℕ) → ((c ≡ b'=') → ⊥) → eqb c b'=' ≡ false
    not_sep c k = ground arith

insert-absent :
    (name value : Text) (m : Map Text)
    → lookup name m ≡ none
    → insert name value m ≡ m ++ (name, value) ∷ []
unfolding insert lookup
insert-absent name value [] h = refl
insert-absent name value ((first, old) ∷ m) h = elim (Bool-cases (first == name)) [
  | inl e ↦ absurd (cc (rw e at h))
  | inr e ↦ rw e (ap (λ r. (first, old) ∷ r) (insert-absent name value m (rw e at h)))
]

lookup-append_one :
    (name first value : Text) (m : Map Text)
    → lookup name m ≡ none
    → (first == name) ≡ false
    → lookup name (m ++ (first, value) ∷ []) ≡ none
unfolding lookup
lookup-append_one name first value [] h e = rw e refl
lookup-append_one name first value ((other, old) ∷ m) h e = elim (Bool-cases (other == name)) [
  | inl s ↦ absurd (cc (rw s at h))
  | inr s ↦ rw s (lookup-append_one name first value m (rw s at h) e)
]

-- A variable as the option --env has it.
abbrev shown_assignment : Text × Text → Text
shown_assignment (name, value) = name ++ b'=' ∷ value

-- Variables with different names, none of which has an equals sign.
abbrev Assignable : Map Text → Type 0
Assignable [] = Unit
Assignable ((name, value) ∷ m) = Lacks b'=' name × (lookup name m ≡ none) × Assignable m

-- None of the names of the second map is one of the first.
abbrev Fresh : Map Text → Map Text → Type 0
Fresh old [] = Unit
Fresh old ((name, value) ∷ m) = (lookup name old ≡ none) × Fresh old m

Fresh-append_one :
    (name value : Text) (old m : Map Text)
    → lookup name m ≡ none
    → Fresh old m
    → Fresh (old ++ (name, value) ∷ []) m
unfolding lookup
Fresh-append_one name value old [] h f = tt
Fresh-append_one name value old ((first, other) ∷ m) h f = elim (Bool-cases (first == name)) [
  | inl e ↦ absurd (cc (rw e at h))
  | inr e ↦
      let apart : (name == first) ≡ false = ground (arith, ==_iff first name, ==_iff name first) in
      (
        lookup-append_one first name value old f.0 apart,
        Fresh-append_one name value old m (rw e at h) f.1,
      )
]

Fresh-nil : (m : Map Text) → Fresh [] m
unfolding lookup
Fresh-nil [] = tt
Fresh-nil ((name, value) ∷ m) = (refl, Fresh-nil m)

module _ {E : Type 0} (bad : Text → ManifestError E) where
  assigned-shown :
      (old m : Map Text)
      → Assignable m
      → Fresh old m
      → assigned bad (map shown_assignment m) old ≡ ok (old ++ m)
  unfolding assigned
  assigned-shown old [] a f = ap (λ r. ok r) (sym (append-nil old))
  assigned-shown old ((name, value) ∷ m) (lacks, absent, rest) f =
      rw (cut_at name value lacks, assigned, insert-absent name value old f.0)
        (assigned-shown (old ++ (name, value) ∷ []) m rest
            (Fresh-append_one name value old m absent f.1)
          ∙ ap (λ r. ok r) (append_assoc old ((name, value) ∷ []) m))

module _ {E : Type 0} (flags : Flags E) (m : ApplicationManifest) where
  -- Giving variables with different names, none of which is empty of them or has an equals sign, one
  -- by one with --env makes them the environment of the manifest.
  update_environment-shown :
      (first : Text × Text) (rest : Map Text)
      → Assignable (first ∷ rest)
      → flags.get_string_slice (codes "env") ≡ ok (map shown_assignment (first ∷ rest))
      → update_environment flags m
        ≡ ok (record m { configuration = record m.configuration { environment = first ∷ rest } })
  unfolding update_environment
  update_environment-shown first rest a h =
      rw (h, assigned-shown {E = E} bad_env [] (first ∷ rest) a (Fresh-nil (first ∷ rest))) refl
