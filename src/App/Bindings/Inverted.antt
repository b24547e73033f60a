-- ===== src/App/Bindings/Inverted.antt =====
-- internal/application/configurations.go, services.go: the map from configurations or services to
-- applications, and the search for the applications of one of them.
use epinio.Base.{
  Result, ok, Bool_ext, List, [], ◌∷◌, ◌++◌, ◌≡◌, refl, ap, sym, subst, ◌∙◌, if◌then◌else◌, get_or,
  All, arith, append-nil, append_assoc,
}
use epinio.Text.{Text, ◌==◌, ==_iff, elem}
use epinio.Text.Order.{IsUnique}
use epinio.Text.Maps.{Map, lookup, lookup-insert}
use mathlib.Core.List.{append_cancel_right}
use epinio.App.Store.{AppSecret, ApiError, configuration, service}
use epinio.App.Bindings.{
  nul, encode_configuration_key, service_key, app_of, part_of, bound_in, apps_for, append_at,
  add_binding, apps_names, listed, selector, bound_apps_names, bound_apps_names_for,
  services_bound_apps_names, services_bound_apps_names_for,
}

abbrev at : Text → Map (List Text) → List Text
at key m = get_or (lookup key m) []

at-append_at :
    (key other app : Text) (m : Map (List Text))
    → at other (append_at key app m) ≡ (if key == other then at other m ++ app ∷ [] else at other m)
unfolding append_at
at-append_at key other app m =
    ground (arith, lookup-insert key other (at key m ++ app ∷ []) m, ==_iff key other)

-- Two names give one key in one namespace only if they are equal.
abbrev pub IsKeyOf : (Text → Text) → Type 0
IsKeyOf key_of = (a b : Text) → (key_of a == key_of b) ≡ (a == b)

at-add_binding :
    (key_of : Text → Text) (app name : Text) (names : List Text) (m : Map (List Text))
    → IsKeyOf key_of
    → IsUnique names
    → at (key_of name) (add_binding key_of app names m)
      ≡ (if elem name names then at (key_of name) m ++ app ∷ [] else at (key_of name) m)
unfolding add_binding
at-add_binding key_of app name [] m k u = refl
at-add_binding key_of app name (x ∷ xs) m k u = ground (
  arith,
  at-add_binding key_of app name xs (append_at (key_of x) app m) k u.1,
  at-append_at (key_of x) (key_of name) app m,
  k x name,
  ==_iff x name,
)

-- A binding of the namespace, whose data has each name once.
abbrev pub IsBindingOf : Text → AppSecret → Type 0
IsBindingOf namespace s = (part_of s ≡ namespace) × IsUnique (bound_in s)

at-apps_names :
    (key_for : Text → Text → Text) (name namespace : Text) (bindings : List AppSecret)
    (m : Map (List Text))
    → IsKeyOf (λ x. key_for x namespace)
    → All (IsBindingOf namespace) bindings
    → at (key_for name namespace) (apps_names key_for bindings m)
      ≡ at (key_for name namespace) m ++ apps_for name bindings
unfolding apps_names apps_for
at-apps_names key_for name namespace [] m k h = rw append-nil
at-apps_names key_for name namespace (s ∷ rest) m k h =
    subst
      (λ (ns : Text).
        at (key_for name namespace)
          (apps_names key_for rest (add_binding (λ x. key_for x ns) (app_of s) (bound_in s) m))
        ≡ at (key_for name namespace) m ++ apps_for name (s ∷ rest))
      (sym h.0.0)
      (ground (
        arith,
        at-apps_names key_for name namespace rest
            (add_binding (λ x. key_for x namespace) (app_of s) (bound_in s) m) k h.1,
        at-add_binding (λ x. key_for x namespace) (app_of s) name (bound_in s) m k h.0.1,
        append_assoc (at (key_for name namespace) m) (app_of s ∷ []) (apps_for name rest),
      ))

joined_IsKeyOf : (namespace : Text) → IsKeyOf (λ name. name ++ nul ∷ namespace)
joined_IsKeyOf namespace a b =
    Bool_ext _ _
      (λ h. (==_iff a b).1 (append_cancel_right a b (nul ∷ namespace) ((==_iff _ _).0 h)))
      (λ h. (==_iff _ _).1 (ap (λ (s : Text). s ++ nul ∷ namespace) ((==_iff a b).0 h)))

module _ {W : Type 0} (list : Text → Text → W → Result ApiError (List AppSecret)) (w : W)
    (name namespace : Text) (bindings : List AppSecret)
    (h : All (IsBindingOf namespace) bindings) where
  listed_ok :
      {A : Type 0} (by : Text) (f : List AppSecret → A)
      → list namespace by w ≡ ok bindings
      → listed list namespace by f w ≡ ok (f bindings)
  listed_ok by f e = ground arith

  -- If the API lists the bindings of a namespace, and each of them is labelled with it and names
  -- nothing twice, the map from configurations to applications has at a configuration's key the
  -- applications that the search for this configuration finds, in the same order.
  pub bound_apps_names-for :
      list namespace (selector configuration) w ≡ ok bindings
      → (m : Map (List Text)) × (bound_apps_names list namespace w ≡ ok m)
        × (bound_apps_names_for list namespace name w
            ≡ ok (get_or (lookup (encode_configuration_key name namespace) m) []))
  unfolding bound_apps_names bound_apps_names_for encode_configuration_key apps_for lookup
  bound_apps_names-for e = (
    apps_names encode_configuration_key bindings [],
    listed_ok (selector configuration) (λ found. apps_names encode_configuration_key found []) e,
    listed_ok (selector configuration) (apps_for name) e
        ∙ ap ok (
            sym (
              at-apps_names encode_configuration_key name namespace bindings []
                (joined_IsKeyOf namespace) h)),
  )

  -- The same holds of the map from services to applications and the search for one service.
  pub services_bound_apps_names-for :
      list namespace (selector service) w ≡ ok bindings
      → (m : Map (List Text)) × (services_bound_apps_names list namespace w ≡ ok m)
        × (services_bound_apps_names_for list namespace name w
            ≡ ok (get_or (lookup (service_key name namespace) m) []))
  unfolding services_bound_apps_names services_bound_apps_names_for service_key apps_for lookup
  services_bound_apps_names-for e = (
    apps_names service_key bindings [],
    listed_ok (selector service) (λ found. apps_names service_key found []) e,
    listed_ok (selector service) (apps_for name) e
        ∙ ap ok (
            sym
              (at-apps_names service_key name namespace bindings [] (joined_IsKeyOf namespace) h)),
  )
