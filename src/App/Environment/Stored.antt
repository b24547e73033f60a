-- ===== src/App/Environment/Stored.antt =====
-- What the environment of an application is after it was set or unset.
use epinio.Base.{
  Bool, true, false, [], ◌∷◌, Option, none, some, ◌≡◌, refl, if◌then◌else◌, ok, get_or, arith,
}
use epinio.Text.{Text, ◌==◌, ==_iff}
use epinio.Text.Order.{IsUnique}
use epinio.Text.Maps.{Map, lookup, insert, delete, keys, lookup-insert, lookup-delete, elem-keys}
use epinio.App.Store.{AppRef, Kube, environment}
use epinio.App.Store.Written.{IsStore, Reads, update-contents_of}
use epinio.App.Environment.{insert_all, assign, environment_of, environment_set, environment_unset}

-- The first of two answers that there is.
abbrev pub or_else {ℓ} : {V : Type ℓ} → Option V → Option V → Option V
or_else none b = b
or_else (some a) b = some a

lookup-insert_all {ℓ} :
    {V : Type ℓ} (key : Text) (assignments m : Map V)
    → IsUnique (keys assignments)
    → lookup key (insert_all assignments m) ≡ or_else (lookup key assignments) (lookup key m)
unfolding insert_all lookup
lookup-insert_all key [] m u = refl
lookup-insert_all key ((k, v) ∷ rest) m u = ground (
  arith,
  lookup-insert_all key rest (insert k v m) u.1,
  lookup-insert k key v m,
  elem-keys k rest,
  ==_iff k key,
)

lookup-assign :
    (key : Text) (replace : Bool) (assignments m : Map Text)
    → IsUnique (keys assignments)
    → lookup key (assign replace assignments m)
      ≡ or_else (lookup key assignments) (if replace then none else lookup key m)
unfolding assign lookup
lookup-assign key true assignments m u = lookup-insert_all key assignments [] u
lookup-assign key false assignments m u = lookup-insert_all key assignments m u

module _ {W : Type 0} (api : Kube W) (sha1_hex : Text → Text) (store : IsStore api) (ref : AppRef)
    (w w' : W) where
  -- If `EnvironmentSet` succeeds, the environment that is read afterwards has the variables that
  -- were assigned, with their values; of the other variables it has none if the environment was to
  -- be replaced, and otherwise those that the last round, after conflicts only, has read.
  pub environment_set-lookup :
      (assignments : Map Text) (replace : Bool)
      → IsUnique (keys assignments)
      → environment_set api sha1_hex ref assignments replace w ≡ (ok tt, w')
      → (old : Option (Map Text)) × ((after : Map Text) × Reads api sha1_hex environment ref
            (assign replace assignments)
            w
            old
          × (environment_of api sha1_hex ref w' ≡ (ok after, w'))
          × ((key : Text)
              → lookup key after
                ≡ or_else
                    (lookup key assignments)
                    (if replace then none else lookup key (get_or old []))))
  unfolding environment_set environment_of
  environment_set-lookup assignments replace u e =
      let (old, reads, is) =
        update-contents_of api sha1_hex environment ref store (assign replace assignments) w w' e in
      (
        old,
        (
          assign replace assignments (get_or old []),
          reads,
          is,
          λ key. lookup-assign key replace assignments (get_or old []) u,
        ),
      )

  -- If `EnvironmentUnset` succeeds, the environment that is read afterwards lacks the variable and
  -- has the others that the last round, after conflicts only, has read.
  pub environment_unset-lookup :
      (name : Text)
      → environment_unset api sha1_hex ref name w ≡ (ok tt, w')
      → (old : Option (Map Text)) × ((after : Map Text) × Reads api sha1_hex environment ref
            (delete name)
            w
            old
          × (environment_of api sha1_hex ref w' ≡ (ok after, w'))
          × ((key : Text)
              → lookup key after ≡ (if name == key then none else lookup key (get_or old []))))
  unfolding environment_unset environment_of
  environment_unset-lookup name e =
      let (old, reads, is) =
        update-contents_of api sha1_hex environment ref store (delete name) w w' e in
      (old, (delete name (get_or old []), reads, is, λ key. lookup-delete name key (get_or old [])))
