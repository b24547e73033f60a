-- ===== src/Listing/Visible.antt =====
-- internal/api/v1/application: the entries of a grouped list, and the user who asks for it.
use epinio.Base.{
  ℕ, false, ◌&&◌, ◌||◌, not, List, [], ◌∷◌, Option, none, some, ◌≡◌, ◌⊎◌, refl, subst, inl, inr,
  Result, ok, err, arith, Bool-cases,
}
use epinio.Text.{Text, ◌==◌, ==_iff, elem}
use epinio.Text.Maps.{Map, lookup, lookup-insert}
use epinio.Auth.User.{User, is_admin, has_global_role}
use epinio.Auth.Filter.{Sees}
use epinio.Paging.{PaginatedResponse, get_pagination_params}
use epinio.Listing.{Source}
use epinio.Listing.ByNamespace.{list_paginated_by_namespace}
use epinio.Listing.Handlers.{Query, page_and_size, visible_pages, answer_grouped, grouped_index}

module _ {C App D E : Type 0} (source : Source C App D E) (app_name : App → Text)
    (app_namespace : App → Text) (user : User) where
  abbrev Shown : Text → Map (PaginatedResponse App) → Type 0
  Shown ns result = (lookup ns result ≡ none) ⊎ Sees user ns

  visible_pages-Shown :
      (page size : ℕ) (grouped : Map (List App × ℕ)) (result : Map (PaginatedResponse App))
      (ns : Text)
      → Shown ns result
      → Shown ns (visible_pages source app_name app_namespace user page size grouped result)
  unfolding visible_pages
  visible_pages-Shown page size [] result ns h = h
  visible_pages-Shown page size ((first, (items, total)) ∷ grouped) result ns h =
      elim (Bool-cases
        (not (is_admin user || has_global_role user) && not (elem first user.namespaces))) [
          | inl e ↦ rw e (visible_pages-Shown page size grouped result ns h)
          | inr e ↦ rw e (
              visible_pages-Shown page size grouped _ ns (elim (Bool-cases (first == ns)) [
                | inl s ↦
                    let same : first ≡ ns = (==_iff first ns).0 s in inr (sees ns (rw same at e))
                | inr s ↦ elim h [ inl n ↦ inl (rw (lookup-insert, s) n) | inr k ↦ inr k ]
              ]))
        ]
    where
      sees :
          (ns : Text)
          → (not (is_admin user || has_global_role user) && not (elem ns user.namespaces)) ≡ false
          → Sees user ns
      sees ns e = elim (Bool-cases (is_admin user)) [
        | inl a ↦ inl a
        | inr a ↦ elim (Bool-cases (has_global_role user)) [
          | inl g ↦ inr (inl g)
          | inr g ↦ inr (inr (ground arith))
        ]
      ]

  -- A grouped list has no entry, not even the name, for a namespace of which the user may not see the
  -- resources.
  pub grouped_index-Sees :
      (q : Query) (result : Map (PaginatedResponse App)) (ns : Text)
      → grouped_index source app_name app_namespace user q ≡ some (ok result)
      → (lookup ns result ≡ none) ⊎ Sees user ns
  unfolding grouped_index lookup
  grouped_index-Sees q result ns h =
      let (page, size) = page_and_size (get_pagination_params q.page q.page_size 1 10) in
      go page size (list_paginated_by_namespace source page size q.search_for) h
    where
      go :
          (page size : ℕ) (o : Option (Result E (Map (List App × ℕ))))
          → answer_grouped source app_name app_namespace user page size o ≡ some (ok result)
          → (lookup ns result ≡ none) ⊎ Sees user ns
      go page size none k = absurd (cc)
      go page size (some (err e)) k = absurd (cc)
      go page size (some (ok grouped)) k =
          let whole : visible_pages source app_name app_namespace user page size grouped []
              ≡ result =
            cc in
          subst (λ r. Shown ns r) whole (visible_pages-Shown page size grouped [] ns (inl refl))
