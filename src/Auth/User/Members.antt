-- ===== src/Auth/User/Members.antt =====
-- The names of a user's namespaces and gitconfigs under the four calls that change them.
use epinio.Base.{
  true, false, ◌&&◌, ◌||◌, not, List, [], ◌∷◌, ◌++◌, ◌≡◌, ◌≢◌, refl, inl, inr, any, filter, arith,
  Bool-cases,
}
use epinio.Text.{Text, ◌==◌, ==_iff, ==_refl, elem}
use epinio.Text.Affix.{is_empty}
use epinio.Text.Order.{IsUnique, append_one-IsUnique, elem-append_one}
use epinio.Auth.Role.{Role, Roles}
use epinio.Auth.User.{
  User, add_name, remove_name, add_namespace, remove_namespace, add_gitconfig, remove_gitconfig,
}

elem-add_name :
    (x a : Text) (xs : List Text)
    → elem a (add_name x xs) ≡ (elem a xs || (not (is_empty x) && x == a))
unfolding add_name
elem-add_name x a xs = ground (arith, elem-append_one a x xs, ==_iff x a)

add_name-IsUnique : (x : Text) (xs : List Text) → IsUnique xs → IsUnique (add_name x xs)
unfolding add_name
add_name-IsUnique x xs u = elim (Bool-cases (is_empty x)) [
  | inl e ↦ rw e u
  | inr e ↦ elim (Bool-cases (elem x xs)) [
    | inl k ↦ rw (e, k) u
    | inr k ↦ rw (e, k) (append_one-IsUnique x xs k u)
  ]
]

elem-remove_name :
    (x a : Text) (xs : List Text) → elem a (remove_name x xs).0 ≡ (elem a xs && not (x == a))
unfolding remove_name
elem-remove_name x a [] = refl
elem-remove_name x a (y ∷ ys) =
    ground (arith, elem-remove_name x a ys, ==_iff y x, ==_iff y a, ==_iff x a)

remove_name-IsUnique : (x : Text) (xs : List Text) → IsUnique xs → IsUnique (remove_name x xs).0
unfolding remove_name
remove_name-IsUnique x [] u = tt
remove_name-IsUnique x (y ∷ ys) u = elim (Bool-cases (y == x)) [
  | inl e ↦ rw e (remove_name-IsUnique x ys u.1)
  | inr e ↦ rw e (ground (arith, elem-remove_name x y ys), remove_name-IsUnique x ys u.1)
]

remove_name_absent : (x : Text) (xs : List Text) → elem x xs ≡ false → (remove_name x xs).0 ≡ xs
unfolding remove_name
remove_name_absent x [] h = refl
remove_name_absent x (y ∷ ys) h = ground (arith, remove_name_absent x ys)

remove_name_last :
    (x : Text) (xs : List Text) → elem x xs ≡ false → (remove_name x (xs ++ x ∷ [])).0 ≡ xs
unfolding remove_name
remove_name_last x [] h = ground (arith, ==_refl x)
remove_name_last x (y ∷ ys) h = ground (arith, remove_name_last x ys)

-- After `AddNamespace` the user has the namespaces of before and the new one, unless its name is
-- empty; as none was listed twice, none is, and nothing else about the user has changed.
pub add_namespace_members :
    (u : User) (ns : Text)
    → IsUnique u.namespaces
    → ((a : Text)
        → elem a (add_namespace u ns).namespaces
          ≡ (elem a u.namespaces || (not (is_empty ns) && ns == a)))
      × IsUnique (add_namespace u ns).namespaces
      × (record (add_namespace u ns) { namespaces = u.namespaces } ≡ u)
unfolding add_namespace
add_namespace_members u ns h =
    (λ a. elem-add_name ns a u.namespaces, add_name-IsUnique ns u.namespaces h, refl)

-- After `RemoveNamespace` the user, no namespace of which was listed twice, has the other
-- namespaces, each once, and the roles that are not scoped to the one removed; the flag says
-- whether a namespace or a role has gone, and nothing else about the user has changed.
pub remove_namespace_members :
    (u : User) (ns : Text)
    → IsUnique u.namespaces
    → let (u', removed) = remove_namespace u ns in
      ((a : Text) → elem a u'.namespaces ≡ (elem a u.namespaces && not (ns == a)))
      × (u'.roles ≡ filter (λ (r : Role). not (r.namespace == ns)) u.roles)
      × (removed ≡ (elem ns u.namespaces || any (λ (r : Role). r.namespace == ns) u.roles))
      × IsUnique u'.namespaces
      × (record u' { namespaces = u.namespaces; roles = u.roles } ≡ u)
unfolding remove_namespace
remove_namespace_members u ns h = (
  λ a. elem-remove_name ns a u.namespaces,
  refl,
  refl,
  remove_name-IsUnique ns u.namespaces h,
  refl,
)

keep_unscoped :
    (ns : Text) (roles : Roles)
    → any (λ (r : Role). r.namespace == ns) roles ≡ false
    → filter (λ (r : Role). not (r.namespace == ns)) roles ≡ roles
keep_unscoped ns [] h = refl
keep_unscoped ns (r ∷ rs) h = ground (arith, keep_unscoped ns rs)

-- If `RemoveNamespace` reports that nothing was removed, the user is as before.
pub remove_namespace_unchanged :
    (u : User) (ns : Text) → (remove_namespace u ns).1 ≡ false → (remove_namespace u ns).0 ≡ u
unfolding remove_namespace
remove_namespace_unchanged u ns h = λ i. record u {
  namespaces = remove_name_absent ns u.namespaces (ground arith) i;
  roles = keep_unscoped ns u.roles (ground arith) i;
}

add_name_new :
    (x : Text) (xs : List Text) → x ≢ [] → elem x xs ≡ false → add_name x xs ≡ xs ++ x ∷ []
unfolding add_name
add_name_new [] xs h k = absurd (h refl)
add_name_new (c ∷ x) xs h k = rw k

restored :
    (x : Text) (xs : List Text)
    → x ≢ []
    → elem x xs ≡ false
    → (remove_name x (add_name x xs)).0 ≡ xs
restored x xs h k = rw (add_name_new x xs h k) (remove_name_last x xs k)

found_again :
    (x : Text) (xs : List Text)
    → x ≢ []
    → elem x xs ≡ false
    → (remove_name x (add_name x xs)).1 ≡ true
unfolding remove_name
found_again x xs h k =
    rw (add_name_new x xs h k) (ground (arith, elem-append_one x x xs, ==_refl x))

-- Adding a namespace and removing it again gives back a user that had neither the namespace nor a
-- role scoped to it.
pub remove_namespace-add_namespace :
    (u : User) (ns : Text)
    → ns ≢ []
    → elem ns u.namespaces ≡ false
    → any (λ (r : Role). r.namespace == ns) u.roles ≡ false
    → remove_namespace (add_namespace u ns) ns ≡ (u, true)
unfolding remove_namespace add_namespace
remove_namespace-add_namespace u ns h k l = λ i. (
  record u { namespaces = restored ns u.namespaces h k i; roles = keep_unscoped ns u.roles l i },
  found_again ns u.namespaces h k i || any (λ (r : Role). r.namespace == ns) u.roles,
)

-- `AddGitconfig` and `RemoveGitconfig` do to the gitconfigs what the calls above do to the
-- namespaces, and leave everything else alone, the roles too.
pub gitconfig_members :
    (u : User) (gc : Text)
    → ((a : Text)
        → elem a (add_gitconfig u gc).gitconfigs
          ≡ (elem a u.gitconfigs || (not (is_empty gc) && gc == a)))
      × ((a : Text)
          → elem a (remove_gitconfig u gc).0.gitconfigs ≡ (elem a u.gitconfigs && not (gc == a)))
      × ((remove_gitconfig u gc).1 ≡ elem gc u.gitconfigs)
      × (record (add_gitconfig u gc) { gitconfigs = u.gitconfigs } ≡ u)
      × (record ((remove_gitconfig u gc).0) { gitconfigs = u.gitconfigs } ≡ u)
unfolding add_gitconfig remove_gitconfig
gitconfig_members u gc = (
  λ a. elem-add_name gc a u.gitconfigs,
  λ a. elem-remove_name gc a u.gitconfigs,
  refl,
  refl,
  refl,
)
