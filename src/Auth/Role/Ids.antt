-- ===== src/Auth/Role/Ids.antt =====
-- internal/auth/role.go: the text of a role's id, and the search for a role.
use epinio.Base.{[], ◌∷◌, ◌++◌, some, ◌≡◌, arith, if◌then◌else◌}
use epinio.Text.{Text, ==_iff}
use epinio.Text.Affix.{is_empty}
use epinio.Text.Split.{split_lacking, split_at_sep, Lacks}
use epinio.Auth.Role.{Role, Roles, colon, full_id, parse_role_id, find_by_id_and_namespace}

-- Neither part of the id holds the colon that joins them.
abbrev pub IsPlain : Role → Type 0
IsPlain r = Lacks colon r.id × Lacks colon r.namespace

parse_one : (id : Text) → Lacks colon id → parse_role_id id ≡ (id, [])
unfolding parse_role_id
parse_one id h = rw (split_lacking id colon h, parse_role_id)

parse_two :
    (id ns : Text) → Lacks colon id → Lacks colon ns → parse_role_id (id ++ (colon ∷ ns)) ≡ (id, ns)
unfolding parse_role_id
parse_two id ns h k = rw (split_at_sep id ns colon h, split_lacking ns colon k, parse_role_id)

-- Reading the id that a role is written under gives its id and its namespace, if neither holds a
-- colon.
pub parse_role_id-full_id : (r : Role) → IsPlain r → parse_role_id (full_id r) ≡ (r.id, r.namespace)
unfolding full_id
parse_role_id-full_id r h = by_namespace r.id r.namespace h.0 h.1
  where
    by_namespace :
        (id ns : Text)
        → Lacks colon id
        → Lacks colon ns
        → parse_role_id (if is_empty ns then id else id ++ (colon ∷ ns)) ≡ (id, ns)
    by_namespace id [] k l = parse_one id k
    by_namespace id (c ∷ ns) k l = parse_two id (c ∷ ns) k l

-- A role that is found has the id and the namespace that were asked for.
pub find_by_id_and_namespace_sound :
    (roles : Roles) (id ns : Text) (r : Role)
    → find_by_id_and_namespace roles id ns ≡ some r
    → (r.id ≡ id) × (r.namespace ≡ ns)
unfolding find_by_id_and_namespace
find_by_id_and_namespace_sound [] id ns r h = cc
find_by_id_and_namespace_sound (q ∷ roles) id ns r h =
    ground
      (arith, find_by_id_and_namespace_sound roles id ns r, ==_iff q.id id, ==_iff q.namespace ns)
