-- ===== src/Domain.antt =====
-- internal/domain/match.go: which secret serves a domain.
pub mod Best
use epinio.Base.{
  ℕ, Bool, true, false, ◌&&◌, List, [], ◌∷◌, Option, none, some, ◌≡◌, if◌then◌else◌, ltb, length,
}
use epinio.Text.{Text}
use epinio.Text.Maps.{Map, lookup}
use epinio.Glob.{match}

-- The loop over the patterns, with the secret chosen so far and the length of its pattern; `none`
-- is the error of a malformed pattern.
choose : Text → Map Text → Text → ℕ → Option Text
choose domain [] result best_len = some result
choose domain ((pattern, secret) ∷ rest) result best_len =
    let longer = choose domain rest secret (length pattern) in
    let kept = choose domain rest result best_len in
    elim (match pattern domain) [
      | none ↦ none
      | some matched ↦ if matched && ltb best_len (length pattern) then longer else kept
    ]

-- `MatchDo`, where a nil map is `none` and no secret the empty text.
unfoldable pub match_do : Text → Option (Map Text) → Option Text
unfolding choose
match_do domain none = some []
match_do domain (some domains) = elim (lookup domain domains) [
  | some secret ↦ some secret
  | none ↦ choose domain domains [] 0
]
