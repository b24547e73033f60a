-- ===== src/Auth/Secret/RoundTrip.antt =====
-- internal/auth/user.go: a user's secret as the API server stores it, and the user read from it.
use mathlib.Core.List.{Memᴰ}
use epinio.Base.{
  [], ◌∷◌, none, some, ◌≡◌, refl, ap, ◌∙◌, subst, ◌↔◌, All, get_or, sym, inl, inr, Option-cases,
  append-nil,
}
use epinio.Text.{Text, codes, ◌==◌, ==_refl}
use epinio.Text.Split.{join}
use epinio.Text.Members.{All-unique_sorted}
use epinio.Text.Sets.{unique_sorted}
use epinio.Text.Maps.{Map, lookup, lookup-insert, lookup-delete}
use epinio.Auth.Role.{Role, Roles, role_ids}
use epinio.Auth.User.{User}
use epinio.Auth.Secret.{
  Secret, comma, newline, roles_annotation, role_label, field, new_user_from_secret, with_user,
  update_user_secret_data,
}
use epinio.Auth.Secret.Lines.{IsName, names_at_joined}
use epinio.Auth.Secret.Known.{
  IsRoleText, role_ids-load_roles, ids_of, ids_of-join, IsKnown, role_texts, load_unique_sorted,
}

-- What the API server stores of a secret that is written: the labels, the annotations and the
-- name as they are, and each entry of `stringData` as an entry of `data`.
pub record IsStored (written stored : Secret) : Type 0 where
  pub name : stored.name ≡ written.name
  pub labels : stored.labels ≡ written.labels
  pub annotations : stored.annotations ≡ written.annotations
  pub contents :
      (key : Text) (value : Text)
      → lookup key written.string_data ≡ some value
      → lookup key stored.contents ≡ some value

-- A user whose namespaces and gitconfigs are ASCII names on lines of their own, and whose roles are
-- known ones with plain ids.
pub record IsStorable (known : Roles) (u : User) : Type 0 where
  pub namespaces : All IsName u.namespaces
  pub gitconfigs : All IsName u.gitconfigs
  pub roles : All (IsKnown known) u.roles

module _ (known : Roles) (u : User) (secret stored : Secret) (m : Map Text)
    (st : IsStored (with_user u m secret) stored) where
  stored_username : lookup (codes "username") stored.contents ≡ some u.username
  unfolding with_user lookup ◌==◌
  stored_username = st.contents (codes "username") u.username refl

  stored_namespaces :
      lookup (codes "namespaces") stored.contents ≡ some (join u.namespaces (newline ∷ []))
  unfolding with_user lookup ◌==◌
  stored_namespaces = st.contents (codes "namespaces") (join u.namespaces (newline ∷ [])) refl

  stored_gitconfigs :
      lookup (codes "gitconfigs") stored.contents ≡ some (join u.gitconfigs (newline ∷ []))
  unfolding with_user lookup ◌==◌
  stored_gitconfigs = st.contents (codes "gitconfigs") (join u.gitconfigs (newline ∷ [])) refl

  stored_annotation :
      field roles_annotation (get_or stored.annotations [])
      ≡ join (unique_sorted (role_ids u.roles)) (comma ∷ [])
  unfolding with_user
  stored_annotation = rw (st.annotations, lookup-insert, ==_refl)

  no_legacy_label : lookup role_label stored.labels ≡ none
  unfolding with_user
  no_legacy_label = rw (st.labels, lookup-delete, ==_refl)

  module _ (h : IsStorable known u) where
    loaded_ids :
        ids_of (field roles_annotation (get_or stored.annotations []))
        ≡ unique_sorted (role_ids u.roles)
    loaded_ids =
        ap ids_of stored_annotation
        ∙ ids_of-join known (unique_sorted (role_ids u.roles)) (
            All-unique_sorted (IsRoleText known) (role_ids u.roles)
              (role_texts known u.roles h.roles))

    loaded_roles :
        role_ids (new_user_from_secret known stored).roles ≡ unique_sorted (role_ids u.roles)
    unfolding new_user_from_secret
    loaded_roles =
        rw (no_legacy_label, append-nil, loaded_ids)
          (role_ids-load_roles known (unique_sorted (role_ids u.roles)) (
            All-unique_sorted (IsRoleText known) (role_ids u.roles)
              (role_texts known u.roles h.roles)))

    loaded_same : (r : Role) → Memᴰ r (new_user_from_secret known stored).roles ↔ Memᴰ r u.roles
    unfolding new_user_from_secret
    loaded_same r =
        rw (no_legacy_label, append-nil, loaded_ids) (load_unique_sorted known u.roles r h.roles)

    loaded_user :
        let u' = new_user_from_secret known stored in
        (u'.username ≡ u.username)
        × (u'.namespaces ≡ u.namespaces)
        × (u'.gitconfigs ≡ u.gitconfigs)
        × (u'.role_ids ≡ unique_sorted (role_ids u.roles))
        × (role_ids u'.roles ≡ unique_sorted (role_ids u.roles))
        × ((r : Role) → Memᴰ r u'.roles ↔ Memᴰ r u.roles)
    unfolding new_user_from_secret
    loaded_user = (
      rw stored_username,
      names_at_joined (codes "namespaces") stored.contents u.namespaces stored_namespaces
          h.namespaces,
      names_at_joined (codes "gitconfigs") stored.contents u.gitconfigs stored_gitconfigs
          h.gitconfigs,
      loaded_ids,
      loaded_roles,
      loaded_same,
    )

written_with_user :
    (u : User) (secret written : Secret)
    → update_user_secret_data u secret ≡ some written
    → (m : Map Text) × (with_user u m secret ≡ written)
unfolding update_user_secret_data
written_with_user u secret written e = elim (Option-cases secret.annotations) [
  | inl is ↦ absurd (cc)
  | inr (m, is) ↦ (m, cc)
]

-- A storable user that is written into a secret, and read from what the API server stores of it,
-- has its name, its namespaces and its gitconfigs again. Its roles are again the same roles, with
-- their actions and all their other fields; their ids are the sorted set of the ids of before, which
-- are also the ids that are noted.
pub new_user_from_secret-update_user_secret_data :
    (known : Roles) (u : User) (secret written stored : Secret)
    → update_user_secret_data u secret ≡ some written
    → IsStored written stored
    → IsStorable known u
    → let u' = new_user_from_secret known stored in
      (u'.username ≡ u.username)
      × (u'.namespaces ≡ u.namespaces)
      × (u'.gitconfigs ≡ u.gitconfigs)
      × (u'.role_ids ≡ unique_sorted (role_ids u.roles))
      × (role_ids u'.roles ≡ unique_sorted (role_ids u.roles))
      × ((r : Role) → Memᴰ r u'.roles ↔ Memᴰ r u.roles)
new_user_from_secret-update_user_secret_data known u secret written stored e st h =
    let (m, same) = written_with_user u secret written e in
    loaded_user known u secret stored m (subst (λ s. IsStored s stored) (sym same) st) h
