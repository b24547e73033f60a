-- ===== src/App/Bindings/Stored.antt =====
-- Which configurations and services are bound after names were bound or unbound.
use epinio.Base.{
  Bool, true, false, ◌&&◌, ◌||◌, not, List, [], ◌∷◌, Option, ◌≡◌, ◌⊎◌, refl, ok, get_or, arith, inl,
  inr,
}
use epinio.Text.{Text, ◌==◌, elem}
use epinio.Text.Order.{elem-sort_strings}
use epinio.Text.Maps.{Map, insert, delete, keys, lookup-insert, lookup-delete, elem-keys}
use epinio.App.Store.{AppRef, Area, Kube, configuration, service, fresh, contents_of}
use epinio.App.Store.Written.{IsStore, Reads, update-contents_of}
use epinio.App.Bindings.{bind_all, unbind_all, bind, bound_names, names_of, names_set, names_unset}

elem-insert :
    (x key : Text) (m : Map Text) → elem x (keys (insert key [] m)) ≡ (key == x || elem x (keys m))
elem-insert x key m =
    ground (arith, elem-keys x (insert key [] m), elem-keys x m, lookup-insert key x [] m)

elem-delete :
    (x key : Text) (m : Map Text)
    → elem x (keys (delete key m)) ≡ (not (key == x) && elem x (keys m))
elem-delete x key m =
    ground (arith, elem-keys x (delete key m), elem-keys x m, lookup-delete key x m)

elem-bind_all :
    (x : Text) (names : List Text) (m : Map Text)
    → elem x (keys (bind_all names m)) ≡ (elem x names || elem x (keys m))
unfolding bind_all
elem-bind_all x [] m = refl
elem-bind_all x (n ∷ names) m =
    ground (arith, elem-bind_all x names (insert n [] m), elem-insert x n m)

elem-unbind_all :
    (x : Text) (names : List Text) (m : Map Text)
    → elem x (keys (unbind_all names m)) ≡ (not (elem x names) && elem x (keys m))
unfolding unbind_all
elem-unbind_all x [] m = refl
elem-unbind_all x (n ∷ names) m =
    ground (arith, elem-unbind_all x names (delete n m), elem-delete x n m)

elem-bind :
    (x : Text) (replace : Bool) (names : List Text) (m : Map Text)
    → elem x (bound_names (bind replace names m))
      ≡ (elem x names || (not replace && elem x (bound_names m)))
unfolding bound_names bind
elem-bind x true names m =
    ground (arith, elem-sort_strings x (keys (bind_all names [])), elem-bind_all x names [])
elem-bind x false names m = ground (
  arith,
  elem-sort_strings x (keys (bind_all names m)),
  elem-sort_strings x (keys m),
  elem-bind_all x names m,
)

elem-unbind :
    (x : Text) (names : List Text) (m : Map Text)
    → elem x (bound_names (unbind_all names m)) ≡ (not (elem x names) && elem x (bound_names m))
unfolding bound_names
elem-unbind x names m = ground (
  arith,
  elem-sort_strings x (keys (unbind_all names m)),
  elem-sort_strings x (keys m),
  elem-unbind_all x names m,
)

module _ {W : Type 0} (api : Kube W) (sha1_hex : Text → Text) (store : IsStore api) (area : Area)
    (ref : AppRef) (w w' : W) where
  names_of_contents :
      (m : Map Text)
      → contents_of api sha1_hex area ref w' ≡ (ok m, w')
      → names_of api sha1_hex area ref w' ≡ (ok (bound_names m), w')
  unfolding names_of
  names_of_contents m e = ground arith

  -- A nil map of either area is filled with nothing.
  fresh_names :
      (old : Option (Map Text))
      → (area ≡ configuration) ⊎ (area ≡ service)
      → get_or old (fresh area) ≡ get_or old []
  fresh_names old (inl e) = rw e refl
  fresh_names old (inr e) = rw e refl

  -- If configurations or services are bound to an application with success, those bound afterwards
  -- are the given ones, and, unless they were to be replaced, those that the last round, after
  -- conflicts only, has read.
  pub names_set-members :
      (area ≡ configuration) ⊎ (area ≡ service)
      → (names : List Text) (replace : Bool)
      → names_set api sha1_hex area ref names replace w ≡ (ok tt, w')
      → (old : Option (Map Text)) × ((bound : List Text) × Reads api sha1_hex area ref
            (bind replace names)
            w
            old
          × (names_of api sha1_hex area ref w' ≡ (ok bound, w'))
          × ((x : Text)
              → elem x bound
                ≡ (elem x names || (not replace && elem x (bound_names (get_or old []))))))
  unfolding names_set
  names_set-members which names replace e =
      let (old, reads, is) =
        update-contents_of api sha1_hex area ref store (bind replace names) w w' e in
      (
        old,
        (
          bound_names (bind replace names (get_or old [])),
          reads,
          names_of_contents (bind replace names (get_or old [])) (rw (← fresh_names old which) is),
          λ x. elem-bind x replace names (get_or old []),
        ),
      )

  -- If configurations or services are unbound from an application with success, those bound
  -- afterwards are the ones that the last round, after conflicts only, has read, without the given
  -- ones.
  pub names_unset-members :
      (area ≡ configuration) ⊎ (area ≡ service)
      → (names : List Text) → names_unset api sha1_hex area ref names w ≡ (ok tt, w')
      → (old : Option (Map Text)) × ((bound : List Text) × Reads api sha1_hex area ref
            (unbind_all names)
            w
            old
          × (names_of api sha1_hex area ref w' ≡ (ok bound, w'))
          × ((x : Text)
              → elem x bound ≡ (not (elem x names) && elem x (bound_names (get_or old [])))))
  unfolding names_unset
  names_unset-members which names e =
      let (old, reads, is) =
        update-contents_of api sha1_hex area ref store (unbind_all names) w w' e in
      (
        old,
        (
          bound_names (unbind_all names (get_or old [])),
          reads,
          names_of_contents (unbind_all names (get_or old [])) (rw (← fresh_names old which) is),
          λ x. elem-unbind x names (get_or old []),
        ),
      )
