-- ===== src/Domain/Best.antt =====
-- internal/domain/match.go: the patterns that match a domain, and their lengths.
use epinio.Base.{
  ℕ, ◌<◌, Bool, true, false, ◌&&◌, ◌||◌, not, [], ◌∷◌, none, some, ◌≡◌, ◌⊎◌, refl, ap, ltb, leb,
  length, all, arith, Bool-cases, Option-cases, inl, inr, is_some,
}
use mathlib.Core.List.{Memᴰ}
use epinio.Text.{Text}
use epinio.Text.Maps.{Map, lookup}
use epinio.Glob.{match}
use epinio.Domain.{choose, match_do}

module _ (domain : Text) where
  abbrev pub matches : Text → Bool
  matches pattern = elim (match pattern domain) [ none ↦ false | some matched ↦ matched ]

  abbrev pub WellFormed : Map Text → Type 0
  WellFormed domains =
      all (λ ((pattern, secret) : Text × Text). is_some (match pattern domain)) domains ≡ true

  -- No pattern that matches is longer than the bound.
  abbrev pub NoneLonger : ℕ → Map Text → Type 0
  NoneLonger bound domains =
      all (λ ((pattern, secret) : Text × Text). not (matches pattern) || leb (length pattern) bound)
        domains
      ≡ true

  -- The secret belongs to a pattern that matches and is longer than the given length, and no other
  -- that matches is longer still.
  pub record IsBest (best_len : ℕ) (domains : Map Text) (secret : Text) : Type 0 where
    pub pattern : Text
    pub there : Memᴰ (pattern, secret) domains
    pub matching : matches pattern ≡ true
    pub improves : best_len < length pattern
    pub longest : NoneLonger (length pattern) domains

  after_longer :
      (pattern s x : Text) (best_len : ℕ) (rest : Map Text)
      → matches pattern ≡ true
      → best_len < length pattern
      → ((x ≡ s) × NoneLonger (length pattern) rest) ⊎ IsBest (length pattern) rest x
      → IsBest best_len ((pattern, s) ∷ rest) x
  after_longer pattern s x best_len rest m lt (inl (same, none_longer)) = record {
    pattern = pattern;
    there = Memᴰ.head (ap (λ (t : Text). (pattern, t)) same);
    matching = m;
    improves = lt;
    longest = ground arith;
  }
  after_longer pattern s x best_len rest m lt (inr b) =
      let more : length pattern < length b.pattern = b.improves in
      let others : NoneLonger (length b.pattern) rest = b.longest in
      record {
        pattern = b.pattern;
        there = Memᴰ.tail b.there;
        matching = b.matching;
        improves = omega arith;
        longest = ground arith;
      }

  after_kept :
      (pattern s x result : Text) (best_len : ℕ) (rest : Map Text)
      → (not (matches pattern) || leb (length pattern) best_len) ≡ true
      → ((x ≡ result) × NoneLonger best_len rest) ⊎ IsBest best_len rest x
      → ((x ≡ result) × NoneLonger best_len ((pattern, s) ∷ rest))
        ⊎ IsBest best_len ((pattern, s) ∷ rest) x
  after_kept pattern s x result best_len rest m (inl (same, none_longer)) = inl (same, ground arith)
  after_kept pattern s x result best_len rest m (inr b) =
      let more : best_len < length b.pattern = b.improves in
      let others : NoneLonger (length b.pattern) rest = b.longest in
      inr (record {
        pattern = b.pattern;
        there = Memᴰ.tail b.there;
        matching = b.matching;
        improves = b.improves;
        longest = ground arith;
      })

  choose-IsBest :
      (domains : Map Text) (result : Text) (best_len : ℕ)
      → WellFormed domains
      → (secret : Text) × (choose domain domains result best_len ≡ some secret)
        × (((secret ≡ result) × NoneLonger best_len domains) ⊎ IsBest best_len domains secret)
  unfolding choose
  choose-IsBest [] result best_len h = (result, refl, inl (refl, refl))
  choose-IsBest ((pattern, s) ∷ rest) result best_len h =
      elim (Option-cases (match pattern domain)) [
        | inl bad ↦ absurd (ground arith)
        | inr (matched, e) ↦ elim (Bool-cases (matched && ltb best_len (length pattern))) [
          | inl longer ↦
              let (x, chosen, best) = choose-IsBest rest s (length pattern) (ground arith) in
              (
                x,
                ground arith,
                inr (after_longer pattern s x best_len rest (ground arith) (ground arith) best),
              )
          | inr kept ↦
              let (x, chosen, best) = choose-IsBest rest result best_len (ground arith) in
              (x, ground arith, after_kept pattern s x result best_len rest (ground arith) best)
        ]
      ]

  -- If the domain is no key of the map, and every pattern of the map is well formed, a secret is
  -- returned: that of a longest pattern which matches, or none where no pattern but the empty one
  -- can match.
  pub match_do-IsBest :
      (domains : Map Text)
      → lookup domain domains ≡ none
      → WellFormed domains
      → (secret : Text) × (match_do domain (some domains) ≡ some secret)
        × (((secret ≡ []) × NoneLonger 0 domains) ⊎ IsBest 0 domains secret)
  unfolding match_do
  match_do-IsBest domains e h =
      let (secret, chosen, best) = choose-IsBest domains [] 0 h in (secret, ground arith, best)
