-- ===== src/Auth/Service.antt =====
-- internal/auth/auth.go: the service that reads and writes the users of the cluster.
pub mod Lookup
pub mod Writes
mod Tests
use epinio.Base.{
  ℕ, ◌+◌, Bool, true, false, ◌&&◌, ◌||◌, not, List, [], ◌∷◌, ◌++◌, Option, none, some, ◌≡◌, map,
  filter, find, ltb, if◌then◌else◌, get_or, Result, ok, err,
}
use epinio.Text.{Text, ◌==◌}
use epinio.Text.Maps.{Map, lookup, insert}
use epinio.Auth.Role.{Roles}
use epinio.Auth.User.{User, remove_namespace, remove_gitconfig}
use epinio.Auth.Secret.{Secret, new_user_from_secret, update_user_secret_data, new_secret_from_user}

-- `ErrUserNotFound`, `ErrUsernameConflict`, and the errors of the API, which a retry tells apart by
-- whether they are a conflict.
pub data Error : Type 0 where
  user_not_found username_conflict write_conflict : Error
  api_error : Text → Error

-- The errors of a cleanup: no users could be listed, or some could not be written.
pub data CleanupError : Type 0 where
  not_listed : Error → CleanupError
  some_failed : List Error → CleanupError

-- The loop that counts the definitions of each user name.
count_users : Map ℕ → List User → Map ℕ
count_users m [] = m
count_users m (u ∷ us) = count_users (insert u.username (get_or (lookup u.username m) 0 + 1) m) us

-- `GetUsers` from the secrets that the API lists: the users defined once, and the counts.
pub get_users : Roles → List Secret → List User × Map ℕ
unfolding count_users
get_users known secrets =
    let all_users = map (new_user_from_secret known) secrets in
    let user_count = count_users [] all_users in
    (
      filter (λ (u : User). not (ltb 1 (get_or (lookup u.username user_count) 0))) all_users,
      user_count,
    )

-- What `GetUserByUsername` returns, from the user that its loop found and the entry of the counts.
pub answer : Option User → Option ℕ → Result Error User
answer (some u) count = ok u
answer none none = err user_not_found
answer none (some count) = if ltb 1 count then err username_conflict else err user_not_found

-- `GetUserByUsername`.
pub get_user_by_username : Roles → List Secret → Text → Result Error User
get_user_by_username known secrets username =
    let (users, counts) = get_users known secrets in
    answer (find (λ (u : User). u.username == username) users) (lookup username counts)

-- A call that may fail, and may panic, `none`, on a cluster state `W`.
abbrev pub Run : Type 0 → Type 0 → Type 0
Run W A = Option (Result Error A × W)

-- The calls of `SecretInterface` that the service makes.
pub record SecretApi (W : Type 0) : Type 0 where
  pub list : W → Result Error (List Secret)
  pub get : Text → W → Result Error Secret
  pub create : Secret → W → Result Error Secret × W
  pub update : Secret → W → Result Error Secret × W
  -- `retry.RetryOnConflict(retry.DefaultRetry, …)`
  pub retry : (W → Run W Secret) → W → Run W Secret

-- The summary that a cleanup returns: the errors that were collected, if there are any.
abbrev pub summary {ℓ} :
    {W : Type ℓ} → Option (List Error × W) → Option (Result CleanupError (Unit {0}) × W)
summary none = none
summary (some ([], w)) = some (ok tt, w)
summary (some (e ∷ es, w)) = some (err (some_failed (e ∷ es)), w)

module _ {W : Type 0} (api : SecretApi W) (known : Roles) where
  read_back : Run W Secret → Run W User
  read_back none = none
  read_back (some (ok secret, w)) = some (ok (new_user_from_secret known secret), w)
  read_back (some (err e, w)) = some (err e, w)

  -- `SaveUser`, with the checksum of the secret's name.
  pub save_user : (Text → Text) → User → W → Run W User
  unfolding read_back
  save_user sha1_hex u w = elim (new_secret_from_user sha1_hex u) [
    | none ↦ none
    | some secret ↦ read_back (some (api.create secret w))
  ]

  -- One round of the read, modify and write of `UpdateUser`.
  pub attempt : User → W → Run W Secret
  attempt u w = elim (api.get u.secret_name w) [
    | err e ↦ some (err e, w)
    | ok secret ↦ elim (update_user_secret_data u secret) [
      | none ↦ none
      | some written ↦ some (api.update written w)
    ]
  ]

  pub update_user : User → W → Run W User
  unfolding read_back attempt
  update_user u w = read_back (api.retry (attempt u) w)

  -- The loop of `RemoveNamespaceFromUsers` and of `RemoveGitconfigFromUsers`: `remove` is the
  -- change, with a flag, and only a user that it changes is written.
  pub clean_users : (User → User × Bool) → List User → List Error → W → Option (List Error × W)
  clean_users remove [] messages w = some (messages, w)
  clean_users remove (u ∷ us) messages w =
      let (u', removed) = remove u in
      elim removed [
        | false ↦ clean_users remove us messages w
        | true ↦ elim (update_user u' w) [
          | none ↦ none
          | some (ok _, w') ↦ clean_users remove us messages w'
          | some (err e, w') ↦ clean_users remove us (messages ++ e ∷ []) w'
        ]
      ]

  pub clean_all : (User → User × Bool) → W → Option (Result CleanupError (Unit {0}) × W)
  unfolding clean_users
  clean_all remove w = elim (api.list w) [
    | err e ↦ some (err (not_listed e), w)
    | ok secrets ↦ summary (clean_users remove (get_users known secrets).0 [] w)
  ]

  pub remove_namespace_from_users : Text → W → Option (Result CleanupError (Unit {0}) × W)
  unfolding clean_all
  remove_namespace_from_users namespace = clean_all (λ u. remove_namespace u namespace)

  pub remove_gitconfig_from_users : Text → W → Option (Result CleanupError (Unit {0}) × W)
  unfolding clean_all
  remove_gitconfig_from_users gitconfig = clean_all (λ u. remove_gitconfig u gitconfig)
