-- ===== src/Listing/Truncated.antt =====
-- internal/api/v1/application/index.go: a search without the parameters of a page.
use epinio.Base.{
  ◌<◌, true, false, List, [], none, some, ◌≡◌, refl, ◌∙◌, ok, arith, length, take, map, leb,
  is_some, not, ◌||◌,
}
use epinio.Text.{Text}
use epinio.Text.Affix.{is_empty}
use epinio.Paging.{
  get_pagination_params, total_pages_of, build_paginated_response, slice_page, page_items,
}
use epinio.Paging.Slices.{slice_page-page_of}
use epinio.Listing.{Resource, Source, searched, aggregate_all, list_paginated, enriched}
use epinio.Listing.Handlers.{Query, paged, index}

module _ {C App D E : Type 0} (source : Source C App D E) where
  -- More than a page of resources gives a first page of 25.
  first_page :
      (xs : List (Resource C)) → 25 < length xs → slice_page 1 25 xs ≡ page_items (take 25 xs)
  first_page xs h =
      let some_left : leb (length xs) 0 ≡ false = ground arith in
      slice_page-page_of 1 25 xs (omega arith) ∙ (rw some_left refl)

  -- A request for the applications of a namespace that has a search and no parameters of a page is
  -- answered, if more than 25 resources match, with the applications of the first 25 only, and with
  -- the number of all; the answer says that there is one page, and that its number and size are 0.
  pub index-truncates :
      (namespace : Text) (q : Query) (crs : List (Resource C)) (d : D) (apps : List App)
      → q.page ≡ []
      → q.page_size ≡ []
      → is_empty q.search_for ≡ false
      → source.list_resources namespace ≡ ok crs
      → 25 < length (searched q.search_for crs)
      → source.load_enrichment_data namespace
          (map (λ (cr : Resource C). cr.name) (take 25 (searched q.search_for crs)))
        ≡ ok d
      → aggregate_all source d (take 25 (searched q.search_for crs)) ≡ ok apps
      → index source namespace q
        ≡ some (
            ok (
              paged (record {
                items = apps;
                page = 0;
                page_size = 0;
                total_items = length (searched q.search_for crs);
                total_pages = 1;
              })))
  unfolding index list_paginated build_paginated_response get_pagination_params total_pages_of
  index-truncates namespace q crs d apps no_page no_size some_search listed many loaded
        put_together =
      let disabled : get_pagination_params q.page q.page_size 1 25 ≡ none =
        rw (no_page, no_size) refl in
      let page : enriched source namespace (length (searched q.search_for crs))
            (slice_page 1 25 (searched q.search_for crs))
          ≡ some (ok (apps, length (searched q.search_for crs))) =
        rw (first_page (searched q.search_for crs) many, loaded, enriched, put_together) refl in
      let answered : list_paginated source namespace 0 0 q.search_for
          ≡ some (ok (apps, length (searched q.search_for crs))) =
        rw (listed, list_paginated) page in
      let asked : (is_some (get_pagination_params q.page q.page_size 1 25)
            || not (is_empty q.search_for))
          ≡ true =
        rw (disabled, some_search) refl in
      rw (asked, disabled, answered, index) refl
