-- ===== src/Auth/Filter.antt =====
-- internal/auth/auth.go: which resources a user sees, and which gitconfigs it may use or delete.
use epinio.Base.{
  mem-filter_iff, ◌⊎◌, Bool, true, ◌||◌, List, [], ◌∷◌, ◌≡◌, ◌↔◌, refl, any, filter, if◌then◌else◌,
  arith, Bool-cases, inl, inr, ◌⊎◌,
}
use mathlib.Core.List.{Memᴰ}
use epinio.Text.{Text, ◌==◌, elem}
use epinio.Auth.User.{User, is_admin, has_global_role}

-- `FilterResources`, for resources of any type with a namespace.
unfoldable pub filter_resources {ℓ} : {T : Type ℓ} → (T → Text) → User → List T → List T
filter_resources namespace_of u resources =
    if is_admin u || has_global_role u
    then resources
    else filter (λ r. elem (namespace_of r) u.namespaces) resources

-- The interface `GitconfigResource`.
pub record GitconfigResource {ℓ} (T : Type ℓ) : Type ℓ where
  pub gitconfig : T → Text
  pub is_global : T → Bool

module _ {ℓ} {T : Type ℓ} (i : GitconfigResource T) where
  pub can_delete_gitconfig : User → T → Bool
  can_delete_gitconfig u gc =
      if is_admin u then true else any (λ id. id == i.gitconfig gc) u.gitconfigs

  pub can_use_gitconfig : User → T → Bool
  can_use_gitconfig u gc =
      if is_admin u || i.is_global gc then true else any (λ id. id == i.gitconfig gc) u.gitconfigs

  pub filter_gitconfig_resources : User → List T → List T
  filter_gitconfig_resources u resources =
      if is_admin u
      then resources
      else filter (λ r. elem (i.gitconfig r) u.gitconfigs || i.is_global r) resources

  filter_ext : (p q : T → Bool) (xs : List T) → ((x : T) → p x ≡ q x) → filter p xs ≡ filter q xs
  filter_ext p q [] h = refl
  filter_ext p q (x ∷ xs) h = ground (arith, h x, filter_ext p q xs h)

  filter_everything : (p : T → Bool) (xs : List T) → ((x : T) → p x ≡ true) → filter p xs ≡ xs
  filter_everything p [] h = refl
  filter_everything p (x ∷ xs) h = ground (arith, h x, filter_everything p xs h)

  -- A user sees exactly the gitconfigs that it may use, in their order.
  pub filter_gitconfig_resources-can_use :
      (u : User) (resources : List T)
      → filter_gitconfig_resources u resources ≡ filter (can_use_gitconfig u) resources
  unfolding filter_gitconfig_resources can_use_gitconfig
  filter_gitconfig_resources-can_use u resources = elim (Bool-cases (is_admin u)) [
    | inl e ↦ ground (arith, filter_everything (can_use_gitconfig u) resources (λ gc. ground arith))
    | inr e ↦ ground (
      arith,
      filter_ext (λ r. elem (i.gitconfig r) u.gitconfigs || i.is_global r) (can_use_gitconfig u)
          resources (λ gc. ground arith),
    )
  ]

-- Whether the user may see resources of the namespace.
abbrev pub Sees : User → Text → Type 0
Sees u namespace =
    (is_admin u ≡ true) ⊎ ((has_global_role u ≡ true) ⊎ (elem namespace u.namespaces ≡ true))

-- A resource is shown exactly if it is there and the user is a global admin, has a global role
-- other than the default one, or has the resource's namespace.
pub mem-filter_resources_iff {ℓ} :
    {T : Type ℓ} (namespace_of : T → Text) (u : User) (r : T) (resources : List T)
    → Memᴰ r (filter_resources namespace_of u resources)
      ↔ (Memᴰ r resources × Sees u (namespace_of r))
unfolding filter_resources
mem-filter_resources_iff namespace_of u r resources =
    elim (Bool-cases (is_admin u || has_global_role u)) [
      | inl e ↦ rw (e, filter_resources) (λ m. (m, ground arith), λ (m, h). m)
      | inr e ↦
          let (to, from) = mem-filter_iff (λ x. elem (namespace_of x) u.namespaces) r resources in
          rw (e, filter_resources)
            (λ m. let (k, h) = to m in (k, inr (inr h)), λ (m, h). from (m, ground arith))
    ]
