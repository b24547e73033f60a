-- ===== src/Auth/Role/Access.antt =====
-- Which requests a role permits, as a statement about its actions and their endpoints.
use epinio.Base.{true, ◌≡◌, ◌⊎◌, ◌↔◌, inl, inr, any, any_iff, arith, Bool-cases}
use mathlib.Core.List.{Memᴰ}
use epinio.Text.{Text, ◌==◌, ==_iff, ==_refl}
use epinio.Auth.Action.{Action, Endpoint, full_path, serves, action_is_allowed}
use epinio.Auth.Role.{Role, admin, role_is_allowed}

-- The endpoint is the one that the request asks for.
abbrev pub Serves : Endpoint → Text → Text → Type 0
Serves e method path = (e.method ≡ method) × (full_path e ≡ path)

-- The admin role permits everything, any other role what one of its actions offers.
abbrev pub Permits : Role → Text → Text → Type 0
Permits r method path =
    (r.id ≡ admin)
    ⊎ ((a : Action) × Memᴰ a r.actions
        × ((e : Endpoint) × Memᴰ e a.endpoints × Serves e method path))

serves_iff :
    (method path : Text) (e : Endpoint) → (serves method path e ≡ true) ↔ Serves e method path
unfolding serves
serves_iff method path e = ground (arith, ==_iff e.method method, ==_iff (full_path e) path)

action_is_allowed_iff :
    (a : Action) (method path : Text)
    → (action_is_allowed a method path ≡ true)
      ↔ ((e : Endpoint) × Memᴰ e a.endpoints × Serves e method path)
unfolding action_is_allowed
action_is_allowed_iff a method path =
    let (to, from) = any_iff (serves method path) a.endpoints in
    (
      λ h. let (e, m, s) = to h in (e, m, (serves_iff method path e).0 s),
      λ (e, m, s). from (e, m, (serves_iff method path e).1 s),
    )

pub role_is_allowed_iff :
    (r : Role) (method path : Text) → (role_is_allowed r method path ≡ true) ↔ Permits r method path
unfolding role_is_allowed
role_is_allowed_iff r method path = (to, from)
  where
    open_any :
        (any (λ a. action_is_allowed a method path) r.actions ≡ true)
        ↔ ((a : Action) × Memᴰ a r.actions × (action_is_allowed a method path ≡ true))
    open_any = any_iff (λ a. action_is_allowed a method path) r.actions

    to : role_is_allowed r method path ≡ true → Permits r method path
    to h = elim (Bool-cases (r.id == admin)) [
      | inl e ↦ inl ((==_iff r.id admin).0 e)
      | inr e ↦
          let (a, m, k) = open_any.0 (rw e at h) in
          inr (a, m, (action_is_allowed_iff a method path).0 k)
    ]

    from : Permits r method path → role_is_allowed r method path ≡ true
    from (inl e) = rw (e, ==_refl admin)
    from (inr (a, m, s)) =
        let k = open_any.1 (a, m, (action_is_allowed_iff a method path).1 s) in ground arith
