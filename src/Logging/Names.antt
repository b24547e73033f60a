-- ===== src/Logging/Names.antt =====
-- internal/application/application.go: the names of containers in the patterns.
use epinio.Base.{
  Bool, true, false, List, [], ◌∷◌, some, ◌≡◌, refl, ap, any, eqb, Result, ok, err, map, Bool-cases,
  inl, inr,
}
use epinio.Text.{Text, codes}
use epinio.Text.Split.{join}
use epinio.Logging.{
  special, has_special, quote_meta, escaped, valid_names, include_pattern,
  build_container_include_pattern, no_valid_names, LogError,
}

quote_meta_id : (s : Text) → has_special s ≡ false → quote_meta s ≡ s
unfolding quote_meta
quote_meta_id [] h = refl
quote_meta_id (c ∷ s) h = elim (Bool-cases (any (λ d. eqb d c) special)) [
  | inl e ↦ absurd (cc (rw e at h))
  | inr e ↦ rw (e, quote_meta) (ap (λ (t : Text). c ∷ t) (quote_meta_id s (rw e at h)))
]

-- A name is never escaped: where it has something to escape, it is taken as it is.
escaped_id : (s : Text) → escaped s ≡ s
escaped_id s = elim (Bool-cases (has_special s)) [
  | inl e ↦ rw e refl
  | inr e ↦ rw e (quote_meta_id s e)
]

map-escaped : (names : List Text) → map escaped names ≡ names
map-escaped [] = refl
map-escaped (n ∷ names) = rw (escaped_id n, map-escaped names) refl

abbrev pub joined : List Text → Result LogError (Text × Bool)
joined [] = err no_valid_names
joined (n ∷ names) = ok (join (n ∷ names) (codes "|"), true)

-- With a filter, the pattern of the containers to include is the alternative of the names without
-- white space, each as it was given, without an escape; a filter of blank names only is an error.
pub build_container_include_pattern-joined :
    (c : Text) (cs exclude : List Text)
    → build_container_include_pattern
        (some (record { include_containers = c ∷ cs; exclude_containers = exclude }))
      ≡ joined (valid_names (c ∷ cs))
unfolding build_container_include_pattern
build_container_include_pattern-joined c cs exclude = go (valid_names (c ∷ cs))
  where
    go : (names : List Text) → include_pattern names ≡ joined names
    go [] = refl
    go (n ∷ names) = ap (λ ns. ok (join ns (codes "|"), true)) (map-escaped (n ∷ names))
