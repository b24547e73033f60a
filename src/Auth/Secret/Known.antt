-- ===== src/Auth/Secret/Known.antt =====
-- internal/auth/user.go: the ids of roles in the annotation of a secret, and the roles that they load.
use mathlib.Core.List.{Memᴰ}
use epinio.Base.{
  ◌⊎◌, false, List, [], ◌∷◌, none, some, ◌≡◌, ◌≢◌, refl, ap, ap₂, ◌∙◌, arith, subst, if◌then◌else◌,
  true, ◌↔◌, Bool-cases, All, is_some, sym, inl, inr, Option-cases,
}
use epinio.Text.{Text, ◌==◌, ==_iff, ==_refl, elem}
use epinio.Text.Affix.{is_empty, trim_space, trim_left, trim_right, trim_space_id}
use epinio.Text.Split.{split, join, split-join, Lacks}
use epinio.Text.Members.{All-unique_sorted}
use epinio.Text.Sets.{unique_sorted, elem-unique_sorted}
use epinio.Auth.Role.{Role, Roles, full_id, role_ids, find_by_id, parse_role_id}
use epinio.Auth.Role.Ids.{IsPlain, parse_role_id-full_id, find_by_id_and_namespace_sound}
use epinio.Auth.Secret.{comma, load_roles}
use epinio.Auth.Secret.Lines.{IsWord, join-ne-nil, join-IsTrimmed}

-- The text of the id of a role that is known, which a comma does not cut.
abbrev pub IsRoleText : Roles → Text → Type 0
IsRoleText known text =
    ((r : Role) × (full_id r ≡ text) × IsPlain r × (is_some (find_by_id known r.id) ≡ true))
    × (IsWord text × Lacks comma text)

find_by_id_sound : (known : Roles) (id : Text) (r : Role) → find_by_id known id ≡ some r → r.id ≡ id
unfolding find_by_id
find_by_id_sound known id r e = (find_by_id_and_namespace_sound known id [] r e).0

full_id_of_fields :
    (q r : Role) → q.id ≡ r.id → full_id (record q { namespace = r.namespace }) ≡ full_id r
unfolding full_id
full_id_of_fields q r e = rw e

load_known :
    (known : Roles) (texts : List Text) (text : Text) (r q : Role)
    → parse_role_id text ≡ (r.id, r.namespace)
    → find_by_id known r.id ≡ some q
    → role_ids (load_roles known (text ∷ texts))
      ≡ full_id (record q { namespace = r.namespace }) ∷ role_ids (load_roles known texts)
unfolding load_roles role_ids
load_known known texts text r q parsed is = ground arith

pub role_ids-load_roles :
    (known : Roles) (texts : List Text)
    → All (IsRoleText known) texts
    → role_ids (load_roles known texts) ≡ texts
role_ids-load_roles known [] h = unfold role_ids load_roles in refl
role_ids-load_roles known (text ∷ texts) h =
    let ((r, e, plain, found), _) = h.0 in
    first r e plain (Option-cases (find_by_id known r.id)) found
      (role_ids-load_roles known texts h.1)
  where
    first :
        (r : Role)
        → full_id r ≡ text
        → IsPlain r
        → (find_by_id known r.id ≡ none) ⊎ ((q : Role) × (find_by_id known r.id ≡ some q))
        → is_some (find_by_id known r.id) ≡ true
        → role_ids (load_roles known texts) ≡ texts
        → role_ids (load_roles known (text ∷ texts)) ≡ text ∷ texts
    first r e plain (inl missing) found rest = absurd (ground arith)
    first r e plain (inr (q, is)) found rest =
        let parsed : parse_role_id text ≡ (r.id, r.namespace) =
          subst (λ (t : Text). parse_role_id t ≡ (r.id, r.namespace)) e
            (parse_role_id-full_id r plain) in
        load_known known texts text r q parsed is
        ∙ ap₂ (λ (t : Text) (ts : List Text). t ∷ ts)
            (full_id_of_fields q r (find_by_id_sound known r.id q is) ∙ e) rest

texts_words : (known : Roles) (texts : List Text) → All (IsRoleText known) texts → All IsWord texts
texts_words known [] h = tt
texts_words known (t ∷ texts) h = (h.0.1.0, texts_words known texts h.1)

texts_lack_commas :
    (known : Roles) (texts : List Text) → All (IsRoleText known) texts → All (Lacks comma) texts
texts_lack_commas known [] h = tt
texts_lack_commas known (t ∷ texts) h = (h.0.1.1, texts_lack_commas known texts h.1)

-- The ids that `newUserFromSecret` takes from the annotation.
abbrev pub ids_of : Text → List Text
ids_of annotation =
    if is_empty (trim_space annotation) then [] else split (trim_space annotation) comma

pub ids_of-join :
    (known : Roles) (texts : List Text)
    → All (IsRoleText known) texts
    → ids_of (join texts (comma ∷ [])) ≡ texts
ids_of-join known [] h = unfold join trim_space trim_left trim_right in refl
ids_of-join known (t ∷ texts) h =
    rw (trim_space_id _ (join-IsTrimmed (t ∷ texts) comma (texts_words known (t ∷ texts) h))) (
      ground (
        arith,
        split-join (t ∷ texts) comma (λ e. cc) (texts_lack_commas known (t ∷ texts) h),
        not-is_empty (join (t ∷ texts) (comma ∷ [])) (join-ne-nil t texts comma h.0.1.0.1),
      ))
  where
    not-is_empty : (s : Text) → s ≢ [] → is_empty s ≡ false
    not-is_empty [] ne = absurd (ne refl)
    not-is_empty (c ∷ s) ne = refl

-- A role that the installation knows, put into the role's namespace, and whose id no comma cuts and
-- no trimming shortens.
abbrev pub IsKnown : Roles → Role → Type 0
IsKnown known r =
    IsPlain r
    × ((q : Role) × (find_by_id known r.id ≡ some q) × (r ≡ record q { namespace = r.namespace }))
    × (IsWord (full_id r) × Lacks comma (full_id r))

pub role_texts :
    (known : Roles) (rs : Roles) → All (IsKnown known) rs → All (IsRoleText known) (role_ids rs)
unfolding role_ids
role_texts known [] h = tt
role_texts known (r ∷ rs) h =
    let (q, is, _) = h.0.1 in (((r, refl, h.0.0, rw is refl), h.0.2), role_texts known rs h.1)

load_own :
    (known : Roles) (r : Role) (texts : List Text)
    → IsKnown known r
    → load_roles known (full_id r ∷ texts) ≡ r ∷ load_roles known texts
unfolding load_roles
load_own known r texts h =
    let (q, is, same) = h.1 in
    put (parse_role_id (full_id r)) (parse_role_id-full_id r h.0) q is same
  where
    put :
        (parsed : Text × Text)
        → parsed ≡ (r.id, r.namespace)
        → (q : Role) → find_by_id known r.id ≡ some q
        → r ≡ record q { namespace = r.namespace }
        → elim (find_by_id known parsed.0) [
          | none ↦ load_roles known texts
          | some role ↦ record role { namespace = parsed.1 } ∷ load_roles known texts
        ]
          ≡ r ∷ load_roles known texts
    put parsed e q is same =
        subst
          (λ (p : Text × Text).
            elim (find_by_id known p.0) [
              | none ↦ load_roles known texts
              | some role ↦ record role { namespace = p.1 } ∷ load_roles known texts
            ]
            ≡ r ∷ load_roles known texts)
          (sym e) (rw is (ap (λ (x : Role). x ∷ load_roles known texts) (sym same)))

module _ (known : Roles) (rs : Roles) where
  -- The id of one of the roles.
  abbrev IdOf : Text → Type 0
  IdOf text = (r : Role) × Memᴰ r rs × IsKnown known r × (full_id r ≡ text)

  load_IdOf :
      (r : Role) (text : Text) (texts : List Text)
      → IsKnown known r
      → full_id r ≡ text
      → load_roles known (text ∷ texts) ≡ r ∷ load_roles known texts
  load_IdOf r text texts k e =
      subst (λ (t : Text). load_roles known (t ∷ texts) ≡ r ∷ load_roles known texts) e
        (load_own known r texts k)

  only_own :
      (texts : List Text) (r : Role) → All IdOf texts → Memᴰ r (load_roles known texts) → Memᴰ r rs
  unfolding load_roles
  only_own [] r h m = none_there m
    where
      none_there : Memᴰ r [] → Memᴰ r rs
      none_there k = elim k [ ]
  only_own (text ∷ texts) r h m =
      let (q, n, k, e) = h.0 in
      at_head q n (only_own texts r h.1) (subst (Memᴰ r) (load_IdOf q text texts k e) m)
    where
      at_head :
          (q : Role)
          → Memᴰ q rs
          → (Memᴰ r (load_roles known texts) → Memᴰ r rs)
          → Memᴰ r (q ∷ load_roles known texts)
          → Memᴰ r rs
      at_head q n ih (Memᴰ.head same) = subst (λ (x : Role). Memᴰ x rs) (sym same) n
      at_head q n ih (Memᴰ.tail l) = ih l

  each_own :
      (texts : List Text) (r : Role)
      → All IdOf texts
      → IsKnown known r
      → elem (full_id r) texts ≡ true
      → Memᴰ r (load_roles known texts)
  each_own [] r h known_r m = absurd (cc)
  each_own (text ∷ texts) r h known_r m = elim (Bool-cases (text == full_id r)) [
    | inl e ↦
        subst (Memᴰ r) (sym (load_IdOf r text texts known_r (sym ((==_iff text (full_id r)).0 e))))
          (Memᴰ.head refl)
    | inr e ↦
        let (q, n, k, is) = h.0 in
        subst (Memᴰ r) (sym (load_IdOf q text texts k is))
          (Memᴰ.tail (each_own texts r h.1 known_r (ground arith)))
  ]

own_ids :
    (known : Roles) (rs qs : Roles)
    → All (IsKnown known) qs
    → ((r : Role) → Memᴰ r qs → Memᴰ r rs)
    → All (IdOf known rs) (role_ids qs)
unfolding role_ids
own_ids known rs [] h sub = tt
own_ids known rs (q ∷ qs) h sub =
    ((q, sub q (Memᴰ.head refl), h.0, refl), own_ids known rs qs h.1 (λ r m. sub r (Memᴰ.tail m)))

known_of_mem :
    (known : Roles) (rs : Roles) (r : Role)
    → All (IsKnown known) rs
    → Memᴰ r rs
    → IsKnown known r × (elem (full_id r) (role_ids rs) ≡ true)
unfolding role_ids
known_of_mem known [] r h m = elim m [ ]
known_of_mem known (q ∷ rs) r h (Memᴰ.head e) =
    (subst (IsKnown known) (sym e) h.0, rw (e, ==_refl) refl)
known_of_mem known (q ∷ rs) r h (Memᴰ.tail m) =
    let (k, e) = known_of_mem known rs r h.1 m in (k, ground arith)

-- The sorted ids of known roles load these roles.
pub load_unique_sorted :
    (known : Roles) (rs : Roles) (r : Role)
    → All (IsKnown known) rs
    → Memᴰ r (load_roles known (unique_sorted (role_ids rs))) ↔ Memᴰ r rs
load_unique_sorted known rs r h =
    let ids = All-unique_sorted (IdOf known rs) (role_ids rs) (own_ids known rs rs h (λ q m. m)) in
    (
      only_own known rs (unique_sorted (role_ids rs)) r ids,
      λ m.
          let (k, e) = known_of_mem known rs r h m in
          each_own known rs (unique_sorted (role_ids rs)) r ids k (rw elem-unique_sorted e),
    )
