-- ===== src/Auth/Service/Writes.antt =====
-- internal/auth/auth.go: `UpdateUser` under a retry, and the two cleanups of all users.
use mathlib.Core.List.{Memᴰ}
use epinio.Base.{
  subst, Bool, List, [], ◌∷◌, ◌++◌, ◌≡◌, refl, sym, ◌∙◌, Option, none, some, Option-cases,
  if◌then◌else◌, Result, ok, err, ◌↔◌, arith, Bool-cases, Result-cases, inl, inr, append-nil,
  append_assoc,
}
use epinio.Text.{Text}
use epinio.Text.Sets.{unique_sorted}
use epinio.Auth.Role.{Role, Roles, role_ids}
use epinio.Auth.User.{User, remove_namespace, remove_gitconfig}
use epinio.Auth.Secret.{Secret, new_user_from_secret, update_user_secret_data}
use epinio.Auth.Secret.RoundTrip.{
  IsStored, IsStorable, new_user_from_secret-update_user_secret_data,
}
use epinio.Auth.Service.{
  Error, CleanupError, some_failed, write_conflict, SecretApi, Run, read_back, attempt, update_user,
  clean_users, summary, clean_all, get_users, remove_namespace_from_users,
  remove_gitconfig_from_users,
}

-- Runs of a call up to the one whose outcome counts: each earlier one ended in a conflict.
pub data Tries {W : Type 0} (call : W → Run W Secret) : W → Run W Secret → Type 0 where
  last : {w : W} {out : Run W Secret} → out ≡ call w → Tries call w out
  again :
      {w w' : W} {out : Run W Secret}
      → call w ≡ some (err write_conflict, w')
      → Tries call w' out
      → Tries call w out

-- What every run ensures, the retried call ensures.
Tries_ensures :
    {W : Type 0} (P : Run W Secret → Type 0) (call : W → Run W Secret)
    → ((w : W) → P (call w))
    → {w : W} {out : Run W Secret} → Tries call w out
    → P out
Tries_ensures P call h (last {w} e) = subst P (sym e) (h w)
Tries_ensures P call h (again e t) = Tries_ensures P call h t

-- What the service relies on: an update that succeeds returns what is stored of the secret, and a
-- retry runs the call until it does not end in a conflict, or it gives up.
pub record IsFaithful {W : Type 0} (api : SecretApi W) : Type 0 where
  pub stores :
      (written stored : Secret) (w w' : W)
      → api.update written w ≡ (ok stored, w')
      → IsStored written stored
  pub retries : (call : W → Run W Secret) (w : W) → Tries call w (api.retry call w)

-- A secret that comes out of an update holds the user.
abbrev Holds : {W : Type 0} → User → Run W Secret → Type 0
Holds u none = Unit
Holds u (some (ok stored, w)) =
    (secret : Secret) × ((written : Secret) × (update_user_secret_data u secret ≡ some written)
      × IsStored written stored)
Holds u (some (err e, w)) = Unit

module _ {W : Type 0} (api : SecretApi W) (known : Roles) (faithful : IsFaithful api)
    (u : User) where
  update-Holds :
      (secret written : Secret) (out : Result Error Secret × W) (w : W)
      → update_user_secret_data u secret ≡ some written
      → api.update written w ≡ out
      → Holds u (some out)
  update-Holds secret written (ok stored, w') w made e =
      (secret, (written, made, faithful.stores written stored w w' e))
  update-Holds secret written (err e, w') w made _ = tt

  attempt-Holds : (w : W) → Holds u (attempt api known u w)
  unfolding attempt
  attempt-Holds w = elim (Result-cases (api.get u.secret_name w)) [
    | inl (secret, e) ↦ elim (Option-cases (update_user_secret_data u secret)) [
      | inl none_made ↦ rw (e, none_made, attempt) tt
      | inr (written, made) ↦ rw (e, made, attempt) (update-Holds secret written _ w made refl)
    ]
    | inr (e, is) ↦ rw (is, attempt) tt
  ]

  -- If `UpdateUser` succeeds for a storable user, after however many conflicts, the user that it
  -- returns has the name, the namespaces and the gitconfigs that were to be written; its roles are
  -- the roles that were to be written, with all their fields, and their ids are a sorted set.
  pub update_user-ok :
      IsStorable known u
      → (w w' : W) (u' : User) → update_user api known u w ≡ some (ok u', w')
      → (u'.username ≡ u.username)
        × (u'.namespaces ≡ u.namespaces)
        × (u'.gitconfigs ≡ u.gitconfigs)
        × (role_ids u'.roles ≡ unique_sorted (role_ids u.roles))
        × ((r : Role) → Memᴰ r u'.roles ↔ Memᴰ r u.roles)
  unfolding update_user
  update_user-ok h w w' u' e =
      from_out (api.retry (attempt api known u) w)
        (Tries_ensures (Holds u) (attempt api known u) attempt-Holds
          (faithful.retries (attempt api known u) w))
        e
    where
      from_out :
          (out : Run W Secret)
          → Holds u out
          → read_back api known out ≡ some (ok u', w')
          → (u'.username ≡ u.username)
            × (u'.namespaces ≡ u.namespaces)
            × (u'.gitconfigs ≡ u.gitconfigs)
            × (role_ids u'.roles ≡ unique_sorted (role_ids u.roles))
            × ((r : Role) → Memᴰ r u'.roles ↔ Memᴰ r u.roles)
      from_out none t k = absurd (cc)
      from_out (some (ok stored, w'')) (secret, (written, made, st)) k =
          let same : new_user_from_secret known stored ≡ u' = cc in
          let back =
            new_user_from_secret-update_user_secret_data known u secret written stored made st h in
          rw (← same) (back.0, back.1, back.2, back.4, back.5)
      from_out (some (err f, w'')) t k = absurd (cc)

  attempt-panics :
      (secret : Secret) (w : W)
      → api.get u.secret_name w ≡ ok secret
      → secret.annotations ≡ none
      → attempt api known u w ≡ none
  unfolding attempt update_user_secret_data
  attempt-panics secret w e nil = rw (e, nil, attempt) refl

  panics-Tries :
      (w : W) (out : Run W Secret)
      → attempt api known u w ≡ none
      → Tries (attempt api known u) w out
      → out ≡ none
  panics-Tries w out e (last is) = is ∙ e
  panics-Tries w out e (again k t) = absurd (cc)

  -- `UpdateUser` panics if the secret that it reads has no annotations.
  pub update_user_panics :
      (secret : Secret) (w : W)
      → api.get u.secret_name w ≡ ok secret
      → secret.annotations ≡ none
      → update_user api known u w ≡ none
  unfolding update_user
  update_user_panics secret w e nil =
      let gone =
        panics-Tries w _ (attempt-panics secret w e nil)
          (faithful.retries (attempt api known u) w) in
      rw (gone, read_back) refl

module _ {W : Type 0} (api : SecretApi W) (known : Roles) where
  -- The users that a change reports as changed, after it.
  abbrev pub changed : (User → User × Bool) → List User → List User
  changed remove [] = []
  changed remove (u ∷ us) =
      if (remove u).1 then (remove u).0 ∷ changed remove us else changed remove us

  abbrev more_errors : List Error → Option (List Error × W) → Option (List Error × W)
  more_errors messages none = none
  more_errors messages (some (errors, w)) = some (messages ++ errors, w)

  -- Writing users one after the other, with the errors in order.
  pub write_all : List User → W → Option (List Error × W)
  write_all [] w = some ([], w)
  write_all (u ∷ us) w = elim (update_user api known u w) [
    | none ↦ none
    | some (ok _, w') ↦ write_all us w'
    | some (err e, w') ↦ more_errors (e ∷ []) (write_all us w')
  ]

  more_errors-append :
      (messages : List Error) (e : Error) (r : Option (List Error × W))
      → more_errors (messages ++ e ∷ []) r ≡ more_errors messages (more_errors (e ∷ []) r)
  more_errors-append messages e none = refl
  more_errors-append messages e (some (errors, w)) = rw append_assoc

  clean_users-write_all :
      (remove : User → User × Bool) (us : List User) (messages : List Error) (w : W)
      → clean_users api known remove us messages w
        ≡ more_errors messages (write_all (changed remove us) w)
  unfolding clean_users write_all
  clean_users-write_all remove [] messages w = rw append-nil
  clean_users-write_all remove (u ∷ us) messages w = elim (Bool-cases (remove u).1) [
    | inr skipped ↦ ground (arith, clean_users-write_all remove us messages w)
    | inl written ↦ elim (Option-cases (update_user api known (remove u).0 w)) [
      | inl gone ↦ ground arith
      | inr ((ok u', w'), done) ↦ ground (arith, clean_users-write_all remove us messages w')
      | inr ((err e, w'), done) ↦ ground (
        arith,
        clean_users-write_all remove us (messages ++ e ∷ []) w',
        more_errors-append messages e (write_all (changed remove us) w'),
      )
    ]
  ]

  no_more_errors : (r : Option (List Error × W)) → more_errors [] r ≡ r
  no_more_errors none = refl
  no_more_errors (some (errors, w)) = refl

  clean_all-write_all :
      (remove : User → User × Bool) (w : W) (secrets : List Secret)
      → api.list w ≡ ok secrets
      → clean_all api known remove w
        ≡ summary (write_all (changed remove (get_users known secrets).0) w)
  unfolding clean_all
  clean_all-write_all remove w secrets e =
      rw
        (
          e,
          clean_all,
          clean_users-write_all remove (get_users known secrets).0 [] w,
          no_more_errors,
        )
        refl

  -- The outcome of a cleanup whose writes ended in these errors.
  abbrev pub Reports :
      Option (List Error × W) → Option (Result CleanupError (Unit {0}) × W) → Type 0
  Reports none outcome = outcome ≡ none
  Reports (some ([], w)) outcome = outcome ≡ some (ok tt, w)
  Reports (some (e ∷ es, w)) outcome = outcome ≡ some (err (some_failed (e ∷ es)), w)

  summary-Reports :
      (r : Option (List Error × W)) (outcome : Option (Result CleanupError (Unit {0}) × W))
      → outcome ≡ summary r
      → Reports r outcome
  summary-Reports none outcome e = e
  summary-Reports (some ([], w)) outcome e = e
  summary-Reports (some (x ∷ xs, w)) outcome e = e

  clean_all-Reports :
      (remove : User → User × Bool) (w : W) (secrets : List Secret)
      → api.list w ≡ ok secrets
      → Reports
          (write_all (changed remove (get_users known secrets).0) w)
          (clean_all api known remove w)
  clean_all-Reports remove w secrets e =
      summary-Reports _ _ (clean_all-write_all remove w secrets e)

  -- If the secrets can be listed, both cleanups write exactly the listed users that the removal
  -- changes, in their order and each as changed, and go on after an error. They succeed if no write
  -- failed, fail with the errors of all the writes that did, in their order, if there are any, and
  -- panic if a write panics.
  pub cleanups-write_all :
      (w : W) (secrets : List Secret) (name : Text)
      → api.list w ≡ ok secrets
      → let users = (get_users known secrets).0 in
        Reports
          (write_all (changed (λ u. remove_namespace u name) users) w)
          (remove_namespace_from_users api known name w)
        × Reports
            (write_all (changed (λ u. remove_gitconfig u name) users) w)
            (remove_gitconfig_from_users api known name w)
  unfolding remove_namespace_from_users remove_gitconfig_from_users
  cleanups-write_all w secrets name e = (
    clean_all-Reports (λ u. remove_namespace u name) w secrets e,
    clean_all-Reports (λ u. remove_gitconfig u name) w secrets e,
  )
