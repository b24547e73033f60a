-- ===== src/Listing/ByNamespace/Pages.antt =====
-- internal/application/application.go: ListPaginatedByNamespace, by the page of each namespace.
use epinio.Base.{
  ℕ, Bool, true, false, ◌&&◌, ◌||◌, not, List, [], ◌∷◌, ◌++◌, Option, none, some, ◌≡◌, refl, subst,
  ◌∙◌, ap, inl, inr, Result, ok, err, length, get_or, filter, arith, Bool-cases, append_assoc,
}
use epinio.Text.{Text, ◌==◌, ==_iff}
use epinio.Text.Affix.{is_empty}
use epinio.Text.Maps.{Map, lookup, insert, lookup-insert}
use epinio.Paging.{Slice, beyond, out_of_range, page_items, slice_page, at_least_one}
use epinio.Paging.Slices.{items_of}
use epinio.Listing.{Resource, Source, found_in, searched, aggregate_all}
use epinio.Listing.ByNamespace.{
  group, put_slice, slice_all, put_apps, assemble, loaded, list_paginated_by_namespace,
}

module _ {C : Type 0} (ns query : Text) where
  abbrev in_namespace : Resource C → Bool
  in_namespace cr = cr.namespace == ns

  -- What was grouped before, with what is grouped now.
  abbrev joined : Option (List (Resource C)) → List (Resource C) → Option (List (Resource C))
  joined o [] = o
  joined o (x ∷ xs) = some (get_or o [] ++ x ∷ xs)

  joined-one :
      (o : Option (List (Resource C))) (cr : Resource C) (xs : List (Resource C))
      → joined (some (get_or o [] ++ cr ∷ [])) xs ≡ joined o (cr ∷ xs)
  joined-one o cr [] = refl
  joined-one o cr (x ∷ xs) = ap (λ r. some r) (append_assoc (get_or o []) (cr ∷ []) (x ∷ xs))

  abbrev wanted : Resource C → Bool
  wanted cr = is_empty query || found_in query cr.name

  group-lookup :
      (crs : List (Resource C)) (groups : Map (List (Resource C)))
      → lookup ns (group query crs groups)
        ≡ joined (lookup ns groups) (filter in_namespace (filter wanted crs))
  unfolding group
  group-lookup [] groups = refl
  group-lookup (cr ∷ crs) groups = elim (Bool-cases (wanted cr)) [
    | inr e ↦
        let skip : (not (is_empty query) && not (found_in query cr.name)) ≡ true = ground arith in
        rw (e, skip) (group-lookup crs groups)
    | inl e ↦
        let keep : (not (is_empty query) && not (found_in query cr.name)) ≡ false = ground arith in
        let old = get_or (lookup cr.namespace groups) [] in
        let below = group-lookup crs (insert cr.namespace (old ++ cr ∷ []) groups) in
        rw (e, keep)
          (below ∙ elim (Bool-cases (cr.namespace == ns)) [
            | inl s ↦
                let same : cr.namespace ≡ ns = (==_iff cr.namespace ns).0 s in
                let olds : lookup cr.namespace groups ≡ lookup ns groups =
                  ap (λ (k : Text). lookup k groups) same in
                rw (lookup-insert, s, olds)
                  (joined-one (lookup ns groups) cr (filter in_namespace (filter wanted crs)))
            | inr s ↦ rw (lookup-insert, s) refl
          ])
  ]

  -- All that is wanted is what is searched for.
  filter-searched : (crs : List (Resource C)) → filter wanted crs ≡ searched query crs
  filter-searched crs = elim (Bool-cases (is_empty query)) [
    | inl e ↦ rw e (everything e crs)
    | inr e ↦ rw e (found e crs)
  ]
    where
      everything : is_empty query ≡ true → (crs : List (Resource C)) → filter wanted crs ≡ crs
      everything e [] = refl
      everything e (cr ∷ crs) = rw e (ap (λ r. cr ∷ r) (everything e crs))

      found :
          is_empty query ≡ false
          → (crs : List (Resource C))
          → filter wanted crs ≡ filter (λ (cr : Resource C). found_in query cr.name) crs
      found e [] = refl
      found e (cr ∷ crs) = ground (arith, e, found e crs)

module _ {C : Type 0} (ns : Text) (page size : ℕ) where
  abbrev sliced : Option (List (Resource C)) → Option (List (Resource C) × ℕ)
  sliced none = none
  sliced (some crs) = some (items_of (slice_page page size crs), length crs)

  put_slice-ok :
      (namespace : Text) (total : ℕ) (slice : Slice (Resource C))
      (rest : Option (Map (List (Resource C) × ℕ))) (slices : Map (List (Resource C) × ℕ))
      → put_slice namespace total slice rest ≡ some slices
      → (below : Map (List (Resource C) × ℕ)) × (rest ≡ some below)
        × ((namespace, (items_of slice, total)) ∷ below ≡ slices)
  put_slice-ok namespace total out_of_range rest slices h = absurd (cc)
  put_slice-ok namespace total beyond none slices h = absurd (cc)
  put_slice-ok namespace total beyond (some below) slices h = (below, refl, cc)
  put_slice-ok namespace total (page_items crs) none slices h = absurd (cc)
  put_slice-ok namespace total (page_items crs) (some below) slices h = (below, refl, cc)

  slice_all-lookup :
      (groups : Map (List (Resource C))) (slices : Map (List (Resource C) × ℕ))
      → slice_all page size groups ≡ some slices
      → lookup ns slices ≡ sliced (lookup ns groups)
  unfolding slice_all lookup
  slice_all-lookup [] slices h = let empty : [] ≡ slices = cc in rw (← empty) refl
  slice_all-lookup ((namespace, crs) ∷ groups) slices h =
      let (below, rest, whole) =
        put_slice-ok namespace (length crs) (slice_page page size crs) _ slices h in
      let ih = slice_all-lookup groups below rest in
      rw (← whole) (elim (Bool-cases (namespace == ns)) [ inl e ↦ rw e refl | inr e ↦ rw e ih ])

module _ {C App D E : Type 0} (source : Source C App D E) (d : D) (ns : Text) where
  -- What is put together of a page, if there is one.
  abbrev pub Assembled : Option (List (Resource C) × ℕ) → Option (List App × ℕ) → Type 0
  Assembled none result = result ≡ none
  Assembled (some (crs, total)) result =
      (apps : List App) × (aggregate_all source d crs ≡ ok apps) × (result ≡ some (apps, total))

  put_apps_ok :
      (namespace : Text) (total : ℕ) (r : Result E (List App))
      (rest : Result E (Map (List App × ℕ))) (result : Map (List App × ℕ))
      → put_apps source namespace total r rest ≡ ok result
      → (apps : List App) × (below : Map (List App × ℕ)) × (r ≡ ok apps)
        × (rest ≡ ok below)
        × ((namespace, (apps, total)) ∷ below ≡ result)
  put_apps_ok namespace total (err e) rest result h = absurd (cc)
  put_apps_ok namespace total (ok apps) (err e) result h = absurd (cc)
  put_apps_ok namespace total (ok apps) (ok below) result h = (apps, below, refl, refl, cc)

  assemble-Assembled :
      (slices : Map (List (Resource C) × ℕ)) (result : Map (List App × ℕ))
      → assemble source d slices ≡ ok result
      → Assembled (lookup ns slices) (lookup ns result)
  unfolding assemble lookup
  assemble-Assembled [] result h = let empty : [] ≡ result = cc in rw (← empty) refl
  assemble-Assembled ((namespace, (crs, total)) ∷ slices) result h =
      let (apps, below, put_together, rest, whole) =
        put_apps_ok namespace total (aggregate_all source d crs) _ result h in
      let ih = assemble-Assembled slices below rest in
      rw (← whole) (elim (Bool-cases (namespace == ns)) [
        | inl e ↦ rw e (apps, put_together, refl)
        | inr e ↦ rw e ih
      ])

module _ {C App D E : Type 0} (source : Source C App D E) where
  abbrev pub resources_of : Text → Text → List (Resource C) → List (Resource C)
  resources_of ns query crs = filter (λ (cr : Resource C). cr.namespace == ns) (searched query crs)

  -- The page of the resources of one namespace, put together, and their number; nothing without any.
  abbrev pub NamespacePage : D → ℕ → ℕ → List (Resource C) → Option (List App × ℕ) → Type 0
  NamespacePage d page size [] result = result ≡ none
  NamespacePage d page size (cr ∷ crs) result =
      (apps : List App) × (aggregate_all source d (items_of (slice_page page size (cr ∷ crs)))
        ≡ ok apps)
      × (result ≡ some (apps, length (cr ∷ crs)))

  Assembled-NamespacePage :
      (d : D) (ns : Text) (page size : ℕ) (crs : List (Resource C)) (result : Option (List App × ℕ))
      → Assembled source d ns (sliced ns page size (joined ns [] none crs)) result
      → NamespacePage d page size crs result
  Assembled-NamespacePage d ns page size [] result h = h
  Assembled-NamespacePage d ns page size (cr ∷ crs) result h = h

  -- A grouped list that succeeds has for each namespace what a list of that namespace alone would
  -- have: the page of the resources that match the search, put together with the same data, and
  -- their total number; a namespace without such resources has no entry.
  pub list_paginated_by_namespace-NamespacePage :
      (page size : ℕ) (query n : Text) (more : List Text) (crs : List (Resource C)) (d : D)
      (result : Map (List App × ℕ)) (ns : Text)
      → source.list_namespaces ≡ ok (n ∷ more)
      → source.list_resources [] ≡ ok crs
      → source.load_enrichment_data [] [] ≡ ok d
      → list_paginated_by_namespace source page size query ≡ some (ok result)
      → NamespacePage d
          (at_least_one 1 page)
          (at_least_one 25 size)
          (resources_of ns query crs)
          (lookup ns result)
  unfolding list_paginated_by_namespace lookup
  list_paginated_by_namespace-NamespacePage page size query n more crs d result ns a b c h =
      let p = at_least_one 1 page in
      let s = at_least_one 25 size in
      let (slices, cut, put_together) =
        loaded_ok (slice_all p s (group query crs []))
          (rw (a, b, list_paginated_by_namespace) at h) in
      let at_ns = assemble-Assembled source d ns slices result put_together in
      let groups = slice_all-lookup ns p s (group query crs []) slices cut in
      Assembled-NamespacePage d ns p s (resources_of ns query crs) (lookup ns result) (
        subst (λ o. Assembled source d ns o (lookup ns result))
          (groups ∙ ap (λ o. sliced ns p s o) (grouped crs)) at_ns)
    where
      loaded_ok :
          (o : Option (Map (List (Resource C) × ℕ)))
          → loaded source o ≡ some (ok result)
          → (slices : Map (List (Resource C) × ℕ)) × (o ≡ some slices)
            × (assemble source d slices ≡ ok result)
      loaded_ok none k = absurd (cc)
      loaded_ok (some slices) k = (slices, refl, cc (rw (c, loaded) at k))

      grouped :
          (crs : List (Resource C))
          → lookup ns (group query crs []) ≡ joined ns query none (resources_of ns query crs)
      grouped crs = rw (← filter-searched ns query crs) (group-lookup ns query crs [])
