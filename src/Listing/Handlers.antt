-- ===== src/Listing/Handlers.antt =====
-- internal/api/v1/application: Index, FullIndex and GroupedIndex. The cluster is there, and a failure
-- of a list is an internal error of the response.
use epinio.Base.{
  ℕ, ◌&&◌, ◌||◌, not, List, [], ◌∷◌, Option, none, some, if◌then◌else◌, Result, ok, err, is_some,
  filter,
}
use epinio.Text.{Text, elem}
use epinio.Text.Affix.{is_empty}
use epinio.Text.Maps.{Map, insert}
use epinio.Auth.User.{User, is_admin, has_global_role}
use epinio.Auth.Filter.{filter_resources}
use epinio.Paging.{
  get_pagination_params, PaginatedResponse, build_paginated_response, paginate_slice,
}
use epinio.Listing.{Source, found_in, list_all, list_paginated}
use epinio.Listing.ByNamespace.{list_paginated_by_namespace}

-- The query of a request for a list.
pub record Query : Type 0 where
  pub page : Text
  pub page_size : Text
  pub search_for : Text

-- What a handler answers with: all applications, or a page of them.
pub data Answer (App : Type 0) : Type 0 where
  whole : List App → Answer App
  paged : PaginatedResponse App → Answer App

-- The page and the size, which are zero where the parameters are not enabled.
abbrev pub page_and_size : Option (ℕ × ℕ) → ℕ × ℕ
page_and_size none = (0, 0)
page_and_size (some p) = p

module _ {C App D E : Type 0} (source : Source C App D E) where
  abbrev pub answer_page : ℕ → ℕ → Option (Result E (List App × ℕ)) → Option (Result E (Answer App))
  answer_page page size none = none
  answer_page page size (some (err e)) = some (err e)
  answer_page page size (some (ok (apps, total))) =
      some (ok (paged (build_paginated_response apps page size total)))

  abbrev pub answer_whole : Result E (List App) → Result E (Answer App)
  answer_whole (err e) = err e
  answer_whole (ok apps) = ok (whole apps)

  -- `Index`; `none` is a panic.
  unfoldable pub index : Text → Query → Option (Result E (Answer App))
  unfolding list_paginated list_all build_paginated_response
  index namespace q =
      let params = get_pagination_params q.page q.page_size 1 25 in
      let (page, size) = page_and_size params in
      if is_some params || not (is_empty q.search_for)
      then answer_page page size (list_paginated source namespace page size q.search_for)
      else some (answer_whole (list_all source namespace))

  module _ (app_name : App → Text) (app_namespace : App → Text) (user : User) where
    abbrev pub searched_apps : Text → List App → List App
    searched_apps wanted apps =
        if is_empty wanted then apps else filter (λ a. found_in wanted (app_name a)) apps

    abbrev pub answer_all : Option (ℕ × ℕ) → List App → Answer App
    answer_all none apps = whole apps
    answer_all (some (page, size)) apps = paged (paginate_slice apps page size)

    -- `FullIndex`
    unfoldable pub full_index : Query → Result E (Answer App)
    unfolding list_all
    full_index q = elim (list_all source []) [
      | err e ↦ err e
      | ok apps ↦ ok (
          answer_all (get_pagination_params q.page q.page_size 1 25)
            (searched_apps q.search_for (filter_resources app_namespace user apps)))
    ]

    -- The loop of `GroupedIndex` over the namespaces.
    unfoldable pub visible_pages :
        ℕ → ℕ → Map (List App × ℕ) → Map (PaginatedResponse App) → Map (PaginatedResponse App)
    unfolding build_paginated_response
    visible_pages page size [] result = result
    visible_pages page size ((ns, (items, total)) ∷ grouped) result =
        let shown =
          build_paginated_response (filter_resources app_namespace user items) page size total in
        let hidden = visible_pages page size grouped result in
        let seen = visible_pages page size grouped (insert ns shown result) in
        if not (is_admin user || has_global_role user) && not (elem ns user.namespaces)
        then hidden
        else seen

    abbrev pub answer_grouped :
        ℕ
        → ℕ
        → Option (Result E (Map (List App × ℕ)))
        → Option (Result E (Map (PaginatedResponse App)))
    answer_grouped page size none = none
    answer_grouped page size (some (err e)) = some (err e)
    answer_grouped page size (some (ok grouped)) = some (ok (visible_pages page size grouped []))

    -- `GroupedIndex`
    unfoldable pub grouped_index : Query → Option (Result E (Map (PaginatedResponse App)))
    unfolding visible_pages list_paginated_by_namespace
    grouped_index q =
        let (page, size) = page_and_size (get_pagination_params q.page q.page_size 1 10) in
        answer_grouped page size (list_paginated_by_namespace source page size q.search_for)
