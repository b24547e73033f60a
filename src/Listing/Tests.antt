-- ===== src/Listing/Tests.antt =====
-- Runs of PaginateSlice, of the slicing of ListPaginated, and of the handlers that list applications.
use epinio.Auth.Role.{find_by_id}
use epinio.Text.Prefix.{contains}
use epinio.Integers.{parse_int64}
use epinio.Base.{
  ℕ, zero, suc, arith, List, [], ◌∷◌, none, some, ◌≡◌, ◌⊎◌, refl, ok, length, filter, ltb,
  if◌then◌else◌,
}
use epinio.Text.{Text, codes, ◌==◌}
use epinio.Text.Maps.{Map, lookup, insert}
use epinio.Auth.User.{User, is_admin, has_global_role}
use epinio.Auth.Filter.{Sees, filter_resources}
use epinio.Paging.{
  out_of_range, page_items, beyond, slice_page, get_pagination_params, paginate_slice,
  PaginatedResponse,
}
use epinio.Paging.Slices.{first_pages, first_pages-take}
use epinio.Paging.Clamped.{IsPage, paginate_slice-IsPage}
use epinio.Listing.{Resource, Source, searched, aggregate_all}
use epinio.Listing.ByNamespace.{list_paginated_by_namespace}
use epinio.Listing.ByNamespace.Pages.{
  NamespacePage, resources_of, list_paginated_by_namespace-NamespacePage,
}
use epinio.Listing.Handlers.{Query, paged, whole, index, full_index, grouped_index}
use epinio.Listing.Visible.{grouped_index-Sees}
use epinio.Listing.Truncated.{index-truncates}

abbrev three : List ℕ
three = 7 ∷ 8 ∷ 9 ∷ []

second_page_test : slice_page 2 2 three ≡ page_items (9 ∷ [])
unfolding slice_page
second_page_test = refl

behind_test : slice_page 3 2 three ≡ beyond
unfolding slice_page
behind_test = refl

-- The start of the third page of a size of 2 ^ 62 is -2 ^ 63, which is a panic.
panic_test : slice_page 3 4611686018427387904 three ≡ out_of_range
unfolding slice_page
panic_test = refl

-- The start of the fifth wraps around to the first item.
wrapped_test : slice_page 5 4611686018427387904 three ≡ page_items three
unfolding slice_page
wrapped_test = refl

parameters_test :
    (get_pagination_params (codes "2") [] 1 25 ≡ some (2, 25))
    × (get_pagination_params (codes "0") (codes "x") 1 25 ≡ some (1, 25))
    × (get_pagination_params [] [] 1 25 ≡ none)
unfolding get_pagination_params parse_int64
parameters_test = (refl, refl, refl)

last_page_test :
    paginate_slice three 9 2
    ≡ record { items = 9 ∷ []; page = 2; page_size = 2; total_items = 3; total_pages = 2 }
unfolding paginate_slice
last_page_test = refl

first_pages-take_example : first_pages 2 2 three ≡ three
first_pages-take_example = first_pages-take 2 2 three (omega arith)

paginate_slice-IsPage_example : IsPage three (paginate_slice three 9 2)
paginate_slice-IsPage_example = paginate_slice-IsPage three 9 2

abbrev at_site : Text → Text → Resource ℕ
at_site name namespace = record { name = name; namespace = namespace; content = length name }

abbrev resources : List (Resource ℕ)
resources =
    at_site (codes "Shop") (codes "web")
    ∷ at_site (codes "batch") (codes "jobs")
    ∷ at_site (codes "shop2") (codes "web")
    ∷ at_site (codes "blog") (codes "web")
    ∷ []

-- A cluster where an application is its resource, and where those without content are being deleted.
abbrev cluster : List (Resource ℕ) → Source ℕ (Resource ℕ) ℕ Text
cluster crs = record {
  list_resources = λ ns.
      ok (elim ns [ [] ↦ crs | c ∷ cs ↦ filter (λ (cr : Resource ℕ). cr.namespace == c ∷ cs) crs ]);
  list_namespaces = ok (codes "web" ∷ codes "jobs" ∷ []);
  load_enrichment_data = λ ns names. ok 0;
  aggregate = λ d cr. ok (if ltb 0 cr.content then some cr else none);
}

abbrev by_name : Query
by_name = record { page = codes "1"; page_size = codes "1"; search_for = codes "shop" }

abbrev grouped_result : Map (List (Resource ℕ) × ℕ)
grouped_result = (codes "web", (at_site (codes "Shop") (codes "web") ∷ [], 2)) ∷ []

list_paginated_by_namespace-NamespacePage_example :
    NamespacePage
      (cluster resources)
      0
      1
      1
      (resources_of (cluster resources) (codes "web") (codes "shop") resources)
      (lookup (codes "web") grouped_result)
unfolding list_paginated_by_namespace contains insert ◌==◌ slice_page lookup
list_paginated_by_namespace-NamespacePage_example =
    list_paginated_by_namespace-NamespacePage (cluster resources) 1 1 (codes "shop") (codes "web")
      (codes "jobs" ∷ []) resources 0 grouped_result (codes "web") refl refl refl refl

abbrev worker : User
worker = record {
  username = codes "ann";
  password = [];
  created_at = 0;
  roles = [];
  namespaces = codes "jobs" ∷ [];
  gitconfigs = [];
  role_ids = [];
  secret_name = [];
}

abbrev any_page : Query
any_page = record { page = []; page_size = []; search_for = codes "b" }

abbrev jobs_only : Map (PaginatedResponse (Resource ℕ))
jobs_only =
    (
      codes "jobs",
      record {
        items = at_site (codes "batch") (codes "jobs") ∷ [];
        page = 0;
        page_size = 0;
        total_items = 1;
        total_pages = 1;
      },
    )
    ∷ []

grouped_index-Sees_example : (lookup (codes "jobs") jobs_only ≡ none) ⊎ Sees worker (codes "jobs")
unfolding grouped_index contains insert ◌==◌ slice_page get_pagination_params lookup is_admin
    find_by_id has_global_role filter_resources
grouped_index-Sees_example =
    grouped_index-Sees (cluster resources) (λ (cr : Resource ℕ). cr.name)
      (λ (cr : Resource ℕ). cr.namespace) worker any_page jobs_only (codes "jobs") refl

full_index_test :
    full_index
      (cluster resources)
      (λ (cr : Resource ℕ). cr.name)
      (λ (cr : Resource ℕ). cr.namespace)
      worker
      any_page
    ≡ ok (whole (at_site (codes "batch") (codes "jobs") ∷ []))
unfolding full_index get_pagination_params filter_resources is_admin find_by_id has_global_role ◌==◌
    contains
full_index_test = refl

-- As many resources of one name.
abbrev copies : ℕ → List (Resource ℕ)
copies zero = []
copies (suc n) = at_site (codes "bot") (codes "jobs") ∷ copies n

index-truncates_example :
    index (cluster (copies 26)) (codes "jobs") any_page
    ≡ some (
        ok (
          paged (record {
            items = copies 25;
            page = 0;
            page_size = 0;
            total_items = 26;
            total_pages = 1;
          })))
unfolding ◌==◌ contains aggregate_all
index-truncates_example =
    let matched : length (searched any_page.search_for (copies 26)) ≡ 26 = refl in
    index-truncates (cluster (copies 26)) (codes "jobs") any_page (copies 26) 0 (copies 25) refl
      refl refl refl (omega (arith, matched)) refl refl
