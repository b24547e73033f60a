-- ===== src/Tests.antt =====
-- Runs of the filters of internal/auth, of internal/names and of the middlewares.
use epinio.Base.{◌++◌, true, false, [], ◌∷◌, some, ◌≡◌, ◌≢◌, ◌↔◌, ◌⊎◌, refl, all, arith}
use mathlib.Core.List.{Memᴰ}
use epinio.Text.{Text, codes, ◌==◌}
use epinio.Text.Maps.{Map, lookup, insert}
use epinio.Auth.Role.{admin_role, find_by_id, roles_is_allowed, role_is_allowed}
use epinio.Auth.User.{User, is_admin, user_is_allowed}
use epinio.Auth.Tests.{alice, show_path}
use epinio.Auth.Filter.{filter_resources, GitconfigResource, Sees, mem-filter_resources_iff}
use epinio.Names.{
  md5_string, generate_resource_name_truncated, dns_label_safe, lower, lower_kelvin, lower_dotted,
  lower_byte, dash_for_underscore,
}
use epinio.Names.Label.{IsLabel}
use epinio.Names.Valid.{IsChecksum, generate_resource_name_truncated-IsLabel}
use epinio.Text.Affix.{trim_suffix, trim_left, trim_right}
use epinio.Routing.{to_string, from_string, to_ingress, from_ingress}
use epinio.Routing.RoundTrip.{to_string-from_string}
use epinio.Glob.{match, parts}
use epinio.Domain.{match_do}
use epinio.Domain.Best.{NoneLonger, IsBest, match_do-IsBest}
use epinio.Middleware.{
  Request, passed, param, restricted_path, requested, role_authorization, namespace_authorization,
  authorize,
}
use epinio.Middleware.Access.{
  may_access, namespace_authorization_iff, authorize_guards_namespace,
  namespace_authorization_skips_path,
}

abbrev record_of_name : GitconfigResource Text
record_of_name = record { gitconfig = λ name. name; is_global = λ name. name == codes "shared" }

mem-filter_resources_iff_example :
    Memᴰ (codes "lab") (filter_resources (λ ns. ns) alice (codes "lab" ∷ codes "prod" ∷ []))
    ↔ (Memᴰ (codes "lab") (codes "lab" ∷ codes "prod" ∷ []) × Sees alice (codes "lab"))
mem-filter_resources_iff_example =
    mem-filter_resources_iff (λ ns. ns) alice (codes "lab") (codes "lab" ∷ codes "prod" ∷ [])

-- A checksum of forty digits.
abbrev zeros : Text → Text
zeros s = codes "0000000000000000000000000000000000000000"

zeros-IsChecksum : IsChecksum zeros
zeros-IsChecksum = record { length_eq = λ s. refl; hex = λ s. ground arith }

generate_resource_name_truncated-IsLabel_example :
    IsLabel (codes "x00000000") × (codes "x00000000" ≢ [])
unfolding generate_resource_name_truncated md5_string
generate_resource_name_truncated-IsLabel_example =
    generate_resource_name_truncated-IsLabel zeros zeros-IsChecksum (codes "My_App") 10
      (codes "x00000000") refl

-- A request for the applications of the developer's own namespace, and one that names another
-- namespace in the path and the own one in the query.
abbrev own : Request
own = record {
  method = codes "GET";
  full_path = show_path;
  url_path = codes "/api/v1/namespaces/lab/applications";
  params = (codes "namespace", codes "lab") ∷ [];
  query = [];
}

abbrev crossing : Request
crossing = record own {
  params = (codes "namespace", codes "prod") ∷ [];
  query = (codes "namespaces[]", codes "lab" ∷ []) ∷ [];
}

abbrev operator : User
operator = record alice { roles = admin_role ∷ [] }

namespace_authorization_iff_example : (namespace_authorization alice own ≡ passed) ↔ (
    (is_admin alice ≡ true)
    ⊎ ((restricted_path own.url_path ≡ false)
        × (all (may_access alice.namespaces) (requested own (codes "namespace")) ≡ true)))
namespace_authorization_iff_example = namespace_authorization_iff alice own

authorize_guards_namespace_example :
    (is_admin operator ≡ true)
    ⊎ (may_access operator.namespaces (param own (codes "namespace")) ≡ true)
unfolding authorize lookup ◌==◌ role_authorization user_is_allowed insert roles_is_allowed
    role_is_allowed namespace_authorization is_admin find_by_id
authorize_guards_namespace_example = authorize_guards_namespace operator own refl refl

namespace_authorization_skips_path_example : namespace_authorization alice crossing ≡ passed
unfolding restricted_path lookup ◌==◌
namespace_authorization_skips_path_example =
    namespace_authorization_skips_path alice crossing (codes "lab" ∷ []) refl refl refl
      (codes "prod")

to_string-from_string_example :
    (to_string (from_string (codes "shop.example.org/api/"))
      ≡ trim_suffix (codes "shop.example.org/api/") (codes "/"))
    × (from_ingress (to_ingress (from_string (codes "shop.example.org/api/")) (codes "shop"))
        ≡ some (from_string (codes "shop.example.org/api/") ∷ []))
to_string-from_string_example = to_string-from_string (codes "shop.example.org/api/") (codes "shop")

abbrev certificates : Map Text
certificates = (codes "*.org", codes "wide") ∷ (codes "*.example.org", codes "narrow") ∷ []

match_do_test : match_do (codes "shop.example.org") (some certificates) ≡ some (codes "narrow")
unfolding match_do lookup match parts ◌==◌
match_do_test = refl

match_do-IsBest_example :
    (secret : Text) × (match_do (codes "shop.example.org") (some certificates) ≡ some secret)
    × (((secret ≡ []) × NoneLonger (codes "shop.example.org") 0 certificates)
        ⊎ IsBest (codes "shop.example.org") 0 certificates secret)
unfolding lookup match parts ◌==◌
match_do-IsBest_example = match_do-IsBest (codes "shop.example.org") certificates refl refl

-- The kelvin sign and the dotted capital i have ASCII letters for their lower case; other characters
-- beyond ASCII are stripped.
dns_label_safe_test :
    dns_label_safe (codes "1A" ++ 226 ∷ 132 ∷ 170 ∷ 196 ∷ 176 ∷ 195 ∷ 132 ∷ codes "_X-")
    ≡ codes "aki-x"
unfolding dns_label_safe trim_left trim_right lower lower_kelvin lower_dotted lower_byte
    dash_for_underscore
dns_label_safe_test = refl
