-- ===== src/App/Bound/Collected.antt =====
-- Which applications are collected for a key, and what a failure to fetch one costs.
use epinio.Base.{
  Result, ok, ap₂, All, append-nil, Bool-cases, List, [], ◌∷◌, ◌++◌, Option, none, some, ◌≡◌, ◌⊎◌,
  refl, ap, sym, ◌∙◌, if◌then◌else◌, get_or, arith, Option-cases, inl, inr,
}
use epinio.Text.{Text, ◌==◌, ==_iff}
use epinio.Text.Maps.{Map, lookup, insert, lookup-insert, keys, elem-keys}
use epinio.Text.Order.{IsUnique}
use epinio.App.Store.{AppRef, AppSecret, ApiError}
use epinio.App.Bindings.{nul, service_key, decode_service_key, services_bound_apps_names}
use epinio.App.Bindings.Keys.{decode_key-encode_key}
use epinio.Text.Split.{Lacks}
use epinio.App.Bound.{services_bound_apps, fetch_apps, append_apps, collect_apps}

abbrev pub ref_of : Text → Text → AppRef
ref_of namespace name = record { name = name; namespace = namespace }

-- The entries of the map of bindings, under the keys of the names.
abbrev pub keyed : (Text → Text) → Map (List Text) → Map (List Text)
keyed key_of [] = []
keyed key_of ((name, names) ∷ rest) = (key_of name, names) ∷ keyed key_of rest

module _ {A : Type 0} (fetch : AppRef → Option A) (namespace : Text) where
  -- What was fetched before was fetched in this namespace.
  abbrev pub IsCache : Map A → Type 0
  IsCache fetched =
      (name : Text)
      → (lookup name fetched ≡ none) ⊎ (lookup name fetched ≡ fetch (ref_of namespace name))

  -- The applications up to the first one that cannot be fetched.
  abbrev pub fetched_prefix : List Text → List A
  fetched_prefix [] = []
  fetched_prefix (name ∷ names) = elim (fetch (ref_of namespace name)) [
    | none ↦ []
    | some app ↦ app ∷ fetched_prefix names
  ]

  insert-IsCache :
      (name : Text) (app : A) (fetched : Map A)
      → fetch (ref_of namespace name) ≡ some app
      → IsCache fetched
      → IsCache (insert name app fetched)
  insert-IsCache name app fetched e c other = elim (Bool-cases (name == other)) [
    | inl same ↦
        let eq : name ≡ other = (==_iff name other).0 same in
        inr (rw (lookup-insert, same) (sym e ∙ ap (λ n. fetch (ref_of namespace n)) eq))
    | inr different ↦
        let kept : lookup other (insert name app fetched) ≡ lookup other fetched =
          rw (lookup-insert, different) refl in
        elim (c other) [ inl h ↦ inl (kept ∙ h) | inr h ↦ inr (kept ∙ h) ]
  ]

  hit :
      (name : Text) (app : A) (fetched : Map A)
      → IsCache fetched
      → lookup name fetched ≡ some app
      → fetch (ref_of namespace name) ≡ some app
  hit name app fetched c e = elim (c name) [ inl h ↦ absurd (cc) | inr h ↦ sym h ∙ e ]

  -- Fetching the applications of a key, with a cache of the same namespace, gives those up to the
  -- first that cannot be fetched, and a cache again.
  fetch_apps-prefix :
      (names : List Text) (fetched : Map A)
      → IsCache fetched
      → ((fetch_apps fetch namespace names fetched).0 ≡ fetched_prefix names)
        × IsCache (fetch_apps fetch namespace names fetched).1
  unfolding fetch_apps
  fetch_apps-prefix [] fetched c = (refl, c)
  fetch_apps-prefix (name ∷ names) fetched c = elim (Option-cases (lookup name fetched)) [
    | inr (app, known) ↦
        let ih = fetch_apps-prefix names fetched c in
        let found = hit name app fetched c known in
        rw (known, fetch_apps) (rw (found, fetched_prefix) (ap (λ apps. app ∷ apps) ih.0), ih.1)
    | inl fresh ↦ elim (Option-cases (fetch (ref_of namespace name))) [
      | inl gone ↦ rw (fresh, gone, fetch_apps) (rw (gone, fetched_prefix) refl, c)
      | inr (app, found) ↦
          let ih =
            fetch_apps-prefix names (insert name app fetched)
              (insert-IsCache name app fetched found c) in
          rw (fresh, found, fetch_apps)
            (rw (found, fetched_prefix) (ap (λ apps. app ∷ apps) ih.0), ih.1)
    ]
  ]

  abbrev at : Text → Map (List A) → List A
  at name result = get_or (lookup name result) []

  abbrev names_at : Text → Map (List Text) → List Text
  names_at name entries = get_or (lookup name entries) []

  at-append_apps :
      (name other : Text) (apps : List A) (result : Map (List A))
      → at other (append_apps fetch name apps result)
        ≡ (if name == other then at other result ++ apps else at other result)
  unfolding append_apps
  at-append_apps name other [] result = ground (arith, append-nil (at other result))
  at-append_apps name other (app ∷ apps) result =
      ground
        (arith, lookup-insert name other (at name result ++ app ∷ apps) result, ==_iff name other)

  module _ (decode : Text → Option (Text × Text)) (key_of : Text → Text) where
    -- The key of the name decodes to it and to the namespace.
    abbrev Decodes : Text → Type 0
    Decodes name = decode (key_of name) ≡ some (name, namespace)

    collect_apps-at :
        (entries : Map (List Text)) (fetched : Map A) (result : Map (List A))
        → IsCache fetched
        → IsUnique (keys entries)
        → All Decodes (keys entries)
        → (r : Map (List A)) × (collect_apps fetch decode (keyed key_of entries) fetched result
            ≡ some r)
          × ((name : Text) → at name r ≡ at name result ++ fetched_prefix (names_at name entries))
    unfolding collect_apps lookup
    collect_apps-at [] fetched result c u d =
        (result, refl, λ name. sym (append-nil (at name result)))
    collect_apps-at ((name, names) ∷ rest) fetched result c u d =
        let (apps, fetched') = fetch_apps fetch namespace names fetched in
        let (same, c') = fetch_apps-prefix names fetched c in
        let (r, collected, held) =
          collect_apps-at rest fetched' (append_apps fetch name apps result) c' u.1 d.1 in
        (
          r,
          rw (d.0, collect_apps) collected,
          λ other. elim (Bool-cases (name == other)) [
            | inl eq ↦
                let gone : names_at other rest ≡ [] =
                  ground (arith, elem-keys name rest, ==_iff name other) in
                let first : at other (append_apps fetch name apps result)
                    ≡ at other result ++ apps =
                  ground (arith, at-append_apps name other apps result) in
                rw eq (
                  held other
                  ∙ ap₂ (λ (xs ys : List A). xs ++ ys)
                      (first ∙ ap (λ (xs : List A). at other result ++ xs) same)
                      (ap fetched_prefix gone)
                  ∙ append-nil (at other result ++ fetched_prefix names))
            | inr ne ↦ ground (arith, held other, at-append_apps name other apps result)
          ],
        )

  all_decode :
      (decode : Text → Option (Text × Text)) (key_of : Text → Text) (names : List Text)
      → ((name : Text) → Lacks nul name → Decodes decode key_of name)
      → All (Lacks nul) names
      → All (Decodes decode key_of) names
  all_decode decode key_of [] h l = tt
  all_decode decode key_of (n ∷ names) h l = (h n l.0, all_decode decode key_of names h l.1)

  module _ {W : Type 0} (list : Text → Text → W → Result ApiError (List AppSecret)) (w : W)
      (entries : Map (List Text)) (u : IsUnique (keys entries)) (l : All (Lacks nul) (keys entries))
      (k : Lacks nul namespace) where
    -- The same holds of the services and `ServicesBoundApps`.
    pub services_bound_apps-prefix :
        services_bound_apps_names list namespace w
          ≡ ok (keyed (λ name. service_key name namespace) entries)
        → (r : Map (List A)) × (services_bound_apps fetch list namespace w ≡ some (ok r))
          × ((name : Text)
              → get_or (lookup name r) [] ≡ fetched_prefix (get_or (lookup name entries) []))
    unfolding services_bound_apps lookup
    services_bound_apps-prefix e =
        let key_of = λ (name : Text). service_key name namespace in
        let (r, collected, held) =
          collect_apps-at decode_service_key key_of entries [] [] (λ name. inl refl) u
            (all_decode decode_service_key key_of (keys entries)
              (λ name h. (decode_key-encode_key name namespace h k).1) l) in
        (r, ground arith, held)
