-- ===== src/Auth/User/Update.antt =====
-- internal/auth/user.go: IsUpdateUserNeeded.
use epinio.Base.{
  Bool, true, false, ◌||◌, List, [], ◌∷◌, ◌≡◌, ◌↔◌, ◌⊎◌, refl, ap, sym, ◌∙◌, inl, inr, length,
  arith, Bool-cases, eqb,
}
use epinio.Text.{Text, ==_iff, ==_refl, elem}
use epinio.Text.Order.{
  IsUnique, sort_strings, set_of, set_of-IsUnique, elem-set_of, elem-sort_strings,
}
use epinio.Text.Sorting.{
  sort_strings_idem, length-sort_strings, set_of_known, set_of_unique, set_of_same_length,
  sort_strings-IsUnique,
}
use epinio.Auth.Role.{Role, Roles, role_ids}
use epinio.Auth.User.{
  User, differ, is_update_user_role_needed, role_namespaces, is_update_user_namespaces_needed,
  is_update_user_needed,
}

differ_refl : (xs : List Text) → differ xs xs ≡ false
differ_refl [] = refl
differ_refl (x ∷ xs) = rw ==_refl (differ_refl xs)

equal_of_same : (xs ys : List Text) → length xs ≡ length ys → differ xs ys ≡ false → xs ≡ ys
equal_of_same [] [] h k = refl
equal_of_same [] (y ∷ ys) h k = absurd (omega arith)
equal_of_same (x ∷ xs) [] h k = absurd (omega arith)
equal_of_same (x ∷ xs) (y ∷ ys) h k = ground (arith, ==_iff x y, equal_of_same xs ys)

-- Which ids a user of these roles is stored under is decided up to their order: an update is
-- needed exactly if the sorted ids differ.
pub is_update_user_role_needed_iff :
    (previous actual : List Text)
    → ((is_update_user_role_needed previous actual).1 ≡ false)
      ↔ (sort_strings previous ≡ sort_strings actual)
unfolding is_update_user_role_needed
is_update_user_role_needed_iff previous actual = (to, from)
  where
    to :
        (is_update_user_role_needed previous actual).1 ≡ false
        → sort_strings previous ≡ sort_strings actual
    to h = ground (
      arith,
      equal_of_same (sort_strings previous) (sort_strings actual),
      length-sort_strings previous,
      length-sort_strings actual,
    )

    from :
        sort_strings previous ≡ sort_strings actual
        → (is_update_user_role_needed previous actual).1 ≡ false
    from h = ground (
      arith,
      differ_refl (sort_strings actual),
      length-sort_strings previous,
      length-sort_strings actual,
      ap length h,
      ap (λ (xs : List Text). differ xs (sort_strings actual)) h,
    )

-- The ids that are kept are those of the roles, up to their order.
is_update_user_role_needed_ids :
    (previous actual : List Text)
    → sort_strings (is_update_user_role_needed previous actual).0 ≡ sort_strings actual
unfolding is_update_user_role_needed
is_update_user_role_needed_ids previous actual = ground (
  arith,
  equal_of_same (sort_strings previous) (sort_strings actual),
  length-sort_strings previous,
  length-sort_strings actual,
  sort_strings_idem previous,
  sort_strings_idem actual,
)

-- A slice that holds the namespaces of all the roles already, without duplicates, needs no update.
namespaces_settled :
    (namespaces : List Text) (roles : Roles)
    → IsUnique namespaces
    → ((a : Text) → elem a (role_namespaces roles) ≡ true → elem a namespaces ≡ true)
    → is_update_user_namespaces_needed namespaces roles ≡ (namespaces, false)
unfolding is_update_user_namespaces_needed
namespaces_settled namespaces roles u h =
    let keys : set_of [] namespaces ≡ namespaces = set_of_unique [] namespaces u in
    let merged : set_of (set_of [] namespaces) (role_namespaces roles) ≡ namespaces =
      ap (λ (m : List Text). set_of m (role_namespaces roles)) keys
      ∙ set_of_known namespaces (role_namespaces roles) h in
    rw merged (ground arith)

module _ (namespaces : List Text) (roles : Roles) where
  abbrev merged_keys : List Text
  merged_keys = set_of (set_of [] namespaces) (role_namespaces roles)

  elem-merged_keys :
      (a : Text) → elem a merged_keys ≡ (elem a namespaces || elem a (role_namespaces roles))
  elem-merged_keys a =
      elem-set_of a (set_of [] namespaces) (role_namespaces roles)
      ∙ ap (λ (b : Bool). b || elem a (role_namespaces roles)) (elem-set_of a [] namespaces)

  merged_keys-IsUnique : IsUnique merged_keys
  merged_keys-IsUnique =
      set_of-IsUnique (set_of [] namespaces) (role_namespaces roles)
        (set_of-IsUnique [] namespaces tt)

  merged_keys_same :
      IsUnique namespaces
      → eqb (length namespaces) (length merged_keys) ≡ true
      → merged_keys ≡ namespaces
  merged_keys_same u e =
      let keys : set_of [] namespaces ≡ namespaces = set_of_unique [] namespaces u in
      set_of_same_length (set_of [] namespaces) (role_namespaces roles)
        (ground (arith, ap length keys))
      ∙ keys

-- From namespaces without duplicates the update gives those and the ones that the roles name,
-- again without duplicates; it reports a change, or leaves the namespaces as they are.
pub is_update_user_namespaces_needed_members :
    (namespaces : List Text) (roles : Roles)
    → IsUnique namespaces
    → let (result, changed) = is_update_user_namespaces_needed namespaces roles in
      ((a : Text) → elem a result ≡ (elem a namespaces || elem a (role_namespaces roles)))
      × IsUnique result
      × ((changed ≡ true) ⊎ (result ≡ namespaces))
unfolding is_update_user_namespaces_needed
is_update_user_namespaces_needed_members namespaces roles u =
    elim (Bool-cases (eqb (length namespaces) (length (merged_keys namespaces roles)))) [
      | inl e ↦
          let same = merged_keys_same namespaces roles u e in
          rw (e, is_update_user_namespaces_needed)
            (
              λ a.
                  ap (λ (m : List Text). elem a m) (sym same) ∙ elem-merged_keys namespaces roles a,
              u,
              inr refl,
            )
      | inr e ↦
          rw (e, is_update_user_namespaces_needed)
            (
              λ a.
                  elem-sort_strings a (merged_keys namespaces roles)
                  ∙ elem-merged_keys namespaces roles a,
              sort_strings-IsUnique _ (merged_keys-IsUnique namespaces roles),
              inl refl,
            )
    ]

-- `IsUpdateUserNeeded` is done in one step: of the user that it returns, whose namespaces had no
-- duplicates, it finds no update needed.
pub is_update_user_needed_settled :
    (u : User)
    → IsUnique u.namespaces
    → (is_update_user_needed (is_update_user_needed u).0).1 ≡ false
unfolding is_update_user_needed
is_update_user_needed_settled u uq =
    let ids = is_update_user_role_needed u.role_ids (role_ids u.roles) in
    let spaces = is_update_user_namespaces_needed_members u.namespaces u.roles uq in
    let ids_settled =
      (is_update_user_role_needed_iff ids.0 (role_ids u.roles)).1
        (is_update_user_role_needed_ids u.role_ids (role_ids u.roles)) in
    let spaces_settled =
      namespaces_settled _ u.roles spaces.1 (λ a h. ground (arith, spaces.0 a)) in
    rw ids_settled (ap (λ (p : List Text × Bool). p.1) spaces_settled)
