-- ===== src/Auth/Service/Tests.antt =====
-- Runs of the service on a cluster that is a list of secrets, where the first write meets a
-- conflict.
use mathlib.Core.List.{Memᴰ}
use epinio.Base.{◌↔◌, get_or, none, some, [], ◌∷◌, ◌≡◌, refl, Result, ok, err, sym, subst}
use epinio.Text.{codes, ◌==◌}
use epinio.Text.Sets.{unique_sorted}
use epinio.Text.Affix.{is_space}
use epinio.Text.Split.{lacking}
use epinio.Auth.Role.{Role, find_by_id, Roles, role_ids}
use epinio.Auth.User.{User, remove_namespace, remove_gitconfig}
use epinio.Auth.Tests.{developer, alice}
use epinio.Auth.Secret.{with_user, Secret, new_user_from_secret, update_user_secret_data}
use epinio.Auth.Secret.RoundTrip.{
  IsStored, IsStorable, new_user_from_secret-update_user_secret_data,
}
use epinio.Auth.Service.{
  Run, Error, write_conflict, user_not_found, username_conflict, api_error, SecretApi, update_user,
  get_users, remove_namespace_from_users, remove_gitconfig_from_users,
}
use epinio.Auth.Service.Writes.{
  Tries, last, again, IsFaithful, update_user-ok, update_user_panics, changed, Reports, write_all,
  cleanups-write_all,
}

-- The role that the installation knows under the id of the developer's.
abbrev roles : Roles
roles = record developer { namespace = [] } ∷ []

abbrev blank : Secret
blank = record {
  name = codes "ralice";
  created_at = 7;
  labels = [];
  annotations = some [];
  contents = [];
  string_data = [];
}

-- What the server keeps of a secret that is written.
abbrev kept : Secret → Secret
kept s = record s { contents = s.string_data }

abbrev stored : Secret
stored = kept (with_user alice [] blank)

kept-IsStored : (s : Secret) → IsStored s (kept s)
kept-IsStored s = record {
  name = refl;
  labels = refl;
  annotations = refl;
  contents = λ key value h. h;
}

alice-IsStorable : IsStorable roles alice
unfolding find_by_id ◌==◌ is_space role_ids
alice-IsStorable = record {
  namespaces = ((((refl, refl), (λ e. cc), refl), lacking 10 (codes "lab") refl), tt);
  gitconfigs = ((((refl, refl), (λ e. cc), refl), lacking 10 (codes "main") refl), tt);
  roles = (
    (
      (lacking b':' (codes "dev") refl, lacking b':' (codes "team") refl),
      (record developer { namespace = [] }, refl, refl),
      (((refl, refl), (λ e. cc), refl), lacking b',' (codes "dev:team") refl),
    ),
    tt,
  );
}

-- A cluster that still has a conflict to report, and one that has not.
data Cluster : Type 0 where
  contended settled : Cluster

abbrev write : Secret → Cluster → Result Error Secret × Cluster
write s contended = (err write_conflict, settled)
write s settled = (ok (kept s), settled)

-- One more run after a conflict.
abbrev rerun : (Cluster → Run Cluster Secret) → Run Cluster Secret → Run Cluster Secret
rerun call none = none
rerun call (some (ok s, w)) = some (ok s, w)
rerun call (some (err user_not_found, w)) = some (err user_not_found, w)
rerun call (some (err username_conflict, w)) = some (err username_conflict, w)
rerun call (some (err write_conflict, w)) = call w
rerun call (some (err (api_error e), w)) = some (err (api_error e), w)

rerun-Tries :
    (call : Cluster → Run Cluster Secret) (w : Cluster) (out : Run Cluster Secret)
    → call w ≡ out
    → Tries call w (rerun call out)
rerun-Tries call w none e = last (sym e)
rerun-Tries call w (some (ok s, w')) e = last (sym e)
rerun-Tries call w (some (err user_not_found, w')) e = last (sym e)
rerun-Tries call w (some (err username_conflict, w')) e = last (sym e)
rerun-Tries call w (some (err write_conflict, w')) e = again e (last refl)
rerun-Tries call w (some (err (api_error m), w')) e = last (sym e)

-- A cluster where every read gives the secret.
abbrev cluster_of : Secret → SecretApi Cluster
cluster_of s = record {
  list = λ w. ok (s ∷ []);
  get = λ name w. ok s;
  create = write;
  update = write;
  retry = λ call w. rerun call (call w);
}

abbrev cluster : SecretApi Cluster
cluster = cluster_of stored

write-IsStored :
    (written got : Secret) (w w' : Cluster) → write written w ≡ (ok got, w') → IsStored written got
write-IsStored written got contended w' e = absurd (cc)
write-IsStored written got settled w' e =
    let same : kept written ≡ got = cc in subst (IsStored written) same (kept-IsStored written)

cluster-IsFaithful : (s : Secret) → IsFaithful (cluster_of s)
cluster-IsFaithful s = record {
  stores = write-IsStored;
  retries = λ call w. rerun-Tries call w (call w) refl;
}

-- What the write of the user returns after the conflict.
abbrev written_back : User
written_back =
    new_user_from_secret roles (kept (with_user alice (get_or stored.annotations []) stored))

update_user-ok_example :
    (written_back.username ≡ alice.username)
    × (written_back.namespaces ≡ alice.namespaces)
    × (written_back.gitconfigs ≡ alice.gitconfigs)
    × (role_ids written_back.roles ≡ unique_sorted (role_ids alice.roles))
    × ((r : Role) → Memᴰ r written_back.roles ↔ Memᴰ r alice.roles)
unfolding update_user update_user_secret_data
update_user-ok_example =
    update_user-ok cluster roles (cluster-IsFaithful stored) alice alice-IsStorable contended
      settled written_back refl

cleanups-write_all_example :
    let users = (get_users roles (stored ∷ [])).0 in
    Reports cluster roles
      (write_all cluster roles
        (changed cluster roles (λ u. remove_namespace u (codes "lab")) users)
        contended)
      (remove_namespace_from_users cluster roles (codes "lab") contended)
    × Reports cluster roles
        (write_all cluster roles
          (changed cluster roles (λ u. remove_gitconfig u (codes "lab")) users)
          contended)
        (remove_gitconfig_from_users cluster roles (codes "lab") contended)
cleanups-write_all_example =
    cleanups-write_all cluster roles contended (stored ∷ []) (codes "lab") refl

new_user_from_secret-update_user_secret_data_example :
    let u' = new_user_from_secret roles stored in
    (u'.username ≡ alice.username)
    × (u'.namespaces ≡ alice.namespaces)
    × (u'.gitconfigs ≡ alice.gitconfigs)
    × (u'.role_ids ≡ unique_sorted (role_ids alice.roles))
    × (role_ids u'.roles ≡ unique_sorted (role_ids alice.roles))
    × ((r : Role) → Memᴰ r u'.roles ↔ Memᴰ r alice.roles)
unfolding update_user_secret_data
new_user_from_secret-update_user_secret_data_example =
    new_user_from_secret-update_user_secret_data roles alice blank (with_user alice [] blank) stored
      refl (kept-IsStored (with_user alice [] blank)) alice-IsStorable

update_user_panics_example :
    update_user (cluster_of (record blank { annotations = none })) roles alice settled ≡ none
update_user_panics_example =
    update_user_panics (cluster_of (record blank { annotations = none })) roles
      (cluster-IsFaithful (record blank { annotations = none })) alice
      (record blank { annotations = none }) settled refl refl
