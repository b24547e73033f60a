-- ===== src/Auth/Service/Lookup.antt =====
-- internal/auth/auth.go: looking up a user by name.
use epinio.Base.{
  ℕ, ◌+◌, not, List, [], ◌∷◌, Option, none, some, ◌≡◌, refl, map, length, filter, find, ltb,
  if◌then◌else◌, get_or, Result, ok, err, arith,
}
use epinio.Text.{Text, ◌==◌, ==_iff}
use epinio.Text.Maps.{Map, lookup, insert, lookup-insert}
use epinio.Auth.Role.{Roles}
use epinio.Auth.User.{User}
use epinio.Auth.Secret.{Secret, new_user_from_secret}
use epinio.Auth.Service.{
  answer, Error, user_not_found, username_conflict, count_users, get_users, get_user_by_username,
}

-- The users of a name.
abbrev pub named : Text → List User → List User
named name users = filter (λ (u : User). u.username == name) users

abbrev count_at : Map ℕ → Text → ℕ
count_at m k = get_or (lookup k m) 0

count_at-count_users :
    (k : Text) (m : Map ℕ) (us : List User)
    → count_at (count_users m us) k ≡ count_at m k + length (named k us)
unfolding count_users
count_at-count_users k m [] = ground arith
count_at-count_users k m (u ∷ us) = ground (
  arith,
  count_at-count_users k (insert u.username (get_or (lookup u.username m) 0 + 1) m) us,
  lookup-insert u.username k (get_or (lookup u.username m) 0 + 1) m,
  ==_iff u.username k,
)

-- The answer that the number of definitions calls for.
abbrev pub verdict : List User → Result Error User
verdict [] = err user_not_found
verdict (u ∷ []) = ok u
verdict (u ∷ v ∷ us) = err username_conflict

abbrev first : List User → Option User
first [] = none
first (u ∷ us) = some u

find_once :
    (count : Text → ℕ) (name : Text) (us : List User)
    → find
        (λ (u : User). u.username == name)
        (filter (λ (u : User). not (ltb 1 (count u.username))) us)
      ≡ (if ltb 1 (count name) then none else first (named name us))
find_once count name [] = ground arith
find_once count name (u ∷ us) = ground (arith, find_once count name us, ==_iff u.username name)

answer-verdict :
    (matches : List User) (found : Option User) (count : Option ℕ)
    → get_or count 0 ≡ length matches
    → found ≡ (if ltb 1 (get_or count 0) then none else first matches)
    → answer found count ≡ verdict matches
unfolding answer
answer-verdict [] found count e f = ground arith
answer-verdict (u ∷ []) found count e f = ground arith
answer-verdict (u ∷ v ∷ us) found none e f = absurd (omega arith)
answer-verdict (u ∷ v ∷ us) found (some count) e f = ground arith

no_count : (k : Text) → count_at [] k ≡ 0
unfolding lookup
no_count k = refl

-- `GetUserByUsername` returns the user of a secret exactly if one secret alone defines the name,
-- reports a conflict if several do, and that the user was not found if none does.
pub get_user_by_username-verdict :
    (known : Roles) (secrets : List Secret) (name : Text)
    → get_user_by_username known secrets name
      ≡ verdict (named name (map (new_user_from_secret known) secrets))
unfolding get_user_by_username get_users
get_user_by_username-verdict known secrets name =
    let users = map (new_user_from_secret known) secrets in
    answer-verdict (named name users) _ (lookup name (count_users [] users))
      (ground (arith, count_at-count_users name [] users, no_count name))
      (find_once (count_at (count_users [] users)) name users)
