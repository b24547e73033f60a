-- ===== src/Auth/Action/Loading.antt =====
-- internal/auth/action.go: `InitActions`, the dependencies and the routes of the actions.
use epinio.Base.{
  subst, Bool, true, false, ◌||◌, List, [], ◌∷◌, ◌++◌, Option, none, some, ◌≡◌, refl, inl, inr, any,
  all, any-append, All, is_some, Result, ok, err, arith, Option-cases, Result-cases, append_assoc,
  append-nil,
}
use epinio.Text.{Text, ◌==◌, ==_iff, ==_refl, elem}
use epinio.Text.Order.{IsAscending}
use epinio.Text.Sets.{
  elem-unique_sorted, unique_sorted-IsAscending, unique_sorted, unique_sorted-ext,
}
use epinio.Text.Maps.{lookup, insert, lookup-insert}
use epinio.Auth.Action.{Action, Actions, merge, load_map, merge_all, resolve, init_actions}

swapped : (xs ys : List Text) → unique_sorted (xs ++ ys) ≡ unique_sorted (ys ++ xs)
swapped xs ys =
    unique_sorted-ext (xs ++ ys) (ys ++ xs)
      (λ a. ground (arith, any-append (λ y. y == a) xs ys, any-append (λ y. y == a) ys xs))

-- Merging unites the routes of two actions, in ascending order, and so do the routes of web
-- sockets; merging them the other way round gives the same routes.
pub merge_routes :
    (a d : Action) (r : Text)
    → (elem r (merge a d).routes ≡ (elem r a.routes || elem r d.routes))
      × (elem r (merge a d).ws_routes ≡ (elem r a.ws_routes || elem r d.ws_routes))
      × IsAscending (merge a d).routes
      × IsAscending (merge a d).ws_routes
      × ((merge a d).routes ≡ (merge d a).routes)
      × ((merge a d).ws_routes ≡ (merge d a).ws_routes)
unfolding merge
merge_routes a d r = (
  rw elem-unique_sorted (any-append (λ y. y == r) a.routes d.routes),
  rw elem-unique_sorted (any-append (λ y. y == r) a.ws_routes d.ws_routes),
  unique_sorted-IsAscending _,
  unique_sorted-IsAscending _,
  swapped a.routes d.routes,
  swapped a.ws_routes d.ws_routes,
)

merge_id : (a d : Action) → (merge a d).id ≡ a.id
unfolding merge
merge_id a d = refl

-- The ids of a slice of actions.
abbrev pub ids : List Action → List Text
ids [] = []
ids (a ∷ rest) = a.id ∷ ids rest

-- Every dependency named in the slice is a key of the map.
abbrev Known : Actions → Action → Type 0
Known m a = All (λ dep. is_some (lookup dep m) ≡ true) a.depends_on

has-insert :
    (k j : Text) (a : Action) (m : Actions)
    → is_some (lookup j (insert k a m)) ≡ (k == j || is_some (lookup j m))
has-insert k j a m = rw lookup-insert (ground arith)

has-load_map :
    (j : Text) (m : Actions) (actions : List Action)
    → is_some (lookup j (load_map m actions)) ≡ (is_some (lookup j m) || elem j (ids actions))
unfolding load_map
has-load_map j m [] = ground arith
has-load_map j m (a ∷ rest) =
    ground (arith, has-load_map j (insert a.id a m) rest, has-insert a.id j a m)

-- The first dependency that is not in the map.
abbrev pub first_missing : (Text → Bool) → List Text → Option Text
first_missing known [] = none
first_missing known (dep ∷ deps) = elim (known dep) [
  | true ↦ first_missing known deps
  | false ↦ some dep
]

abbrev error_of : Result Text Action → Option Text
error_of (ok a) = none
error_of (err dep) = some dep

merge_all-error :
    (m : Actions) (a : Action) (deps : List Text)
    → error_of (merge_all m a deps) ≡ first_missing (λ dep. is_some (lookup dep m)) deps
unfolding merge_all
merge_all-error m a [] = refl
merge_all-error m a (dep ∷ deps) = elim (Option-cases (lookup dep m)) [
  | inl e ↦ ground arith
  | inr (d, e) ↦ ground (arith, merge_all-error m (merge a d) deps)
]

-- The routes that a key of the map stands for.
abbrev pub routes_at : Actions → Text → List Text
routes_at m dep = elim (lookup dep m) [ none ↦ [] | some d ↦ d.routes ]

-- What the dependency loop returns: the action with its own routes and those of its dependencies.
pub merge_all_routes :
    (m : Actions) (a a' : Action) (deps : List Text) (r : Text)
    → merge_all m a deps ≡ ok a'
    → (a'.id ≡ a.id)
      × (elem r a'.routes ≡ (elem r a.routes || any (λ dep. elem r (routes_at m dep)) deps))
unfolding merge_all
merge_all_routes m a a' [] r h = ground arith
merge_all_routes m a a' (dep ∷ deps) r h = elim (Option-cases (lookup dep m)) [
  | inl e ↦ ground arith
  | inr (d, e) ↦
      ground (arith, merge_all_routes m (merge a d) a' deps r, merge_routes a d r, merge_id a d)
]

-- The error of the second loop: the first dependency, in order, that is no known id.
abbrev pub first_error : (Text → Bool) → List Action → Option Text
first_error known [] = none
first_error known (a ∷ rest) = elim (first_missing known a.depends_on) [
  | none ↦ first_error known rest
  | some dep ↦ some dep
]

first_missing_ext :
    (p q : Text → Bool) (deps : List Text)
    → ((j : Text) → p j ≡ q j)
    → first_missing p deps ≡ first_missing q deps
first_missing_ext p q [] h = refl
first_missing_ext p q (dep ∷ deps) h = ground (arith, h dep, first_missing_ext p q deps h)

resolve-error :
    (known : Text → Bool) (m : Actions) (done todo : List Action)
    → ((j : Text) → is_some (lookup j m) ≡ known j)
    → all known (ids todo) ≡ true
    → (resolve m done todo).1 ≡ first_error known todo
unfolding resolve
resolve-error known m done [] h k = refl
resolve-error known m done (a ∷ rest) h k =
    let same = merge_all-error m a a.depends_on in
    let eqs = first_missing_ext (λ dep. is_some (lookup dep m)) known a.depends_on h in
    elim (Result-cases (merge_all m a a.depends_on)) [
      | inl (a', e) ↦ ground (
        arith,
        resolve-error known (insert a.id a' m) (done ++ a' ∷ []) rest
            (λ j. ground (arith, has-insert a.id j a' m, h j, ==_iff a.id j)),
      )
      | inr (dep, e) ↦ ground arith
    ]

all_known :
    (p : Text → Bool) (xs ys : List Text)
    → ((j : Text) → elem j xs ≡ true → elem j ys ≡ true)
    → all (λ j. p j || elem j ys) xs ≡ true
all_known p [] ys h = refl
all_known p (x ∷ xs) ys h =
    ground (arith, h x, ==_refl x, all_known p xs ys (λ j k. h j (ground arith)))

-- Loading fails exactly if an action depends on an id that is neither in the map nor in the file,
-- and then names the first such id.
pub init_actions-error :
    (m : Actions) (actions : List Action)
    → (init_actions m actions).1
      ≡ first_error (λ j. is_some (lookup j m) || elem j (ids actions)) actions
unfolding init_actions
init_actions-error m actions =
    let known = λ (j : Text). is_some (lookup j m) || elem j (ids actions) in
    resolve-error known (load_map m actions) [] actions (λ j. has-load_map j m actions)
      (all_known (λ j. is_some (lookup j m)) (ids actions) (ids actions) (λ j h. h))

-- The second slice has the actions of the first, in order, each with at least its routes.
abbrev pub Extends : List Action → List Action → Type 0
Extends [] [] = Unit
Extends [] (b ∷ ys) = ⊥
Extends (a ∷ xs) [] = ⊥
Extends (a ∷ xs) (b ∷ ys) =
    (b.id ≡ a.id) × ((r : Text) → elem r a.routes ≡ true → elem r b.routes ≡ true) × Extends xs ys

Extends-refl : (xs : List Action) → Extends xs xs
Extends-refl [] = tt
Extends-refl (a ∷ xs) = (refl, λ r h. h, Extends-refl xs)

Extends-append :
    (xs ys cs ds : List Action) → Extends xs ys → Extends cs ds → Extends (xs ++ cs) (ys ++ ds)
Extends-append [] [] cs ds h k = k
Extends-append [] (b ∷ ys) cs ds h k = absurd h
Extends-append (a ∷ xs) [] cs ds h k = absurd h
Extends-append (a ∷ xs) (b ∷ ys) cs ds h k = (h.0, h.1, Extends-append xs ys cs ds h.2 k)

resolve-Extends :
    (m : Actions) (seen done todo : List Action)
    → Extends seen done
    → Extends (seen ++ todo) (resolve m done todo).0
unfolding resolve
resolve-Extends m seen done [] h = rw append-nil h
resolve-Extends m seen done (a ∷ rest) h = elim (Result-cases (merge_all m a a.depends_on)) [
  | inl (a', e) ↦
      let kept = λ (r : Text). merge_all_routes m a a' a.depends_on r e in
      let next : Extends (seen ++ a ∷ []) (done ++ a' ∷ []) =
        Extends-append seen done (a ∷ []) (a' ∷ []) h
          ((kept []).0, λ r k. ground (arith, kept r), tt) in
      rw (e, resolve)
        (subst
          (λ (l : List Action). Extends l (resolve (insert a.id a' m) (done ++ a' ∷ []) rest).0)
          (append_assoc seen (a ∷ []) rest)
          (resolve-Extends (insert a.id a' m) (seen ++ a ∷ []) _ rest next))
  | inr (dep, e) ↦ rw (e, resolve) (Extends-append seen done _ _ h (Extends-refl (a ∷ rest)))
]

-- Loading returns the actions of the file in their order, and no route of an action is lost.
pub init_actions-Extends :
    (m : Actions) (actions : List Action) → Extends actions (init_actions m actions).0
unfolding init_actions
init_actions-Extends m actions = resolve-Extends (load_map m actions) [] [] actions tt
