-- ===== src/Glob.antt =====
-- `Match` of package path/filepath on patterns and names of ASCII bytes: `*` and `?` match no `/`,
-- and a pattern that is malformed anywhere is an error.
use epinio.Base.{
  ℕ, zero, suc, Bool, true, false, ◌&&◌, ◌||◌, not, List, [], ◌∷◌, Option, none, some, ◌≡◌, refl,
  if◌then◌else◌, eqb, leb, any, all, length,
}
use epinio.Text.{Text, codes}
use epinio.Text.Affix.{is_empty}

-- A part of a pattern: a run of any bytes, any byte, a byte of a class, which may be negated and
-- has ranges of bytes, or a certain byte.
pub data Part : Type 0 where
  run one : Part
  class : Bool → List (ℕ × ℕ) → Part
  byte : ℕ → Part

abbrev slash : ℕ
slash = b'/'

-- What stands at the front of a range, with an escape resolved, and what follows it.
get_esc : Text → Option (ℕ × Text)
get_esc [] = none
get_esc (c ∷ s) =
    if eqb c b'-' || eqb c b']'
    then none
    else if eqb c b'\\'
    then elim s [ [] ↦ none | d ∷ t ↦ some (d, t) ]
    else some (c, s)

-- The bounds of the range at the front, and what follows it, which is not empty.
get_range : Text → Option (ℕ × ℕ × Text)
unfolding get_esc
get_range s = elim (get_esc s) [
  | none ↦ none
  | some (lo, t) ↦ elim t [
    | [] ↦ none
    | d ∷ u ↦
        if eqb d b'-'
        then elim (get_esc u) [
          | none ↦ none
          | some (hi, v) ↦ elim v [ [] ↦ none | e ∷ w ↦ some (lo, hi, e ∷ w) ]
        ]
        else some (lo, lo, d ∷ u)
  ]
]

-- The ranges up to the closing bracket, with the length of the text as fuel.
get_ranges : ℕ → Text → Option (List (ℕ × ℕ) × Text)
unfolding get_range
get_ranges zero s = none
get_ranges (suc fuel) s = elim (get_range s) [
  | none ↦ none
  | some (lo, hi, t) ↦ elim t [
    | [] ↦ none
    | c ∷ u ↦
        let more = get_ranges fuel (c ∷ u) in
        if eqb c b']'
        then some ((lo, hi) ∷ [], u)
        else elim more [ none ↦ none | some (ranges, v) ↦ some ((lo, hi) ∷ ranges, v) ]
  ]
]

put_part : Part → Option (List Part) → Option (List Part)
put_part p none = none
put_part p (some ps) = some (p ∷ ps)

-- A caret behind the opening bracket negates the class.
negated : Text → Bool
negated [] = false
negated (c ∷ s) = eqb c b'^'

class_body : Text → Text
class_body [] = []
class_body (c ∷ s) = if eqb c b'^' then s else c ∷ s

-- The parts of a pattern, with its length as fuel.
parts_from : ℕ → Text → Option (List Part)
unfolding get_ranges put_part negated class_body
parts_from fuel [] = some []
parts_from zero (c ∷ s) = none
parts_from (suc fuel) (c ∷ s) =
    let plain = λ (p : Part) (rest : Text). put_part p (parts_from fuel rest) in
    if eqb c b'*'
    then plain run s
    else if eqb c b'?'
    then plain one s
    else if eqb c b'\\'
    then elim s [ [] ↦ none | d ∷ t ↦ plain (byte d) t ]
    else if eqb c b'['
    then elim (get_ranges (length s) (class_body s)) [
      | none ↦ none
      | some (ranges, rest) ↦ plain (class (negated s) ranges) rest
    ]
    else plain (byte c) s

unfoldable pub parts : Text → Option (List Part)
unfolding parts_from
parts pattern = parts_from (length pattern) pattern

abbrev holds_one : Part → ℕ → Bool
holds_one run c = false
holds_one one c = not (eqb c slash)
holds_one (class neg ranges) c =
    let found = any (λ ((lo, hi) : ℕ × ℕ). leb lo c && leb c hi) ranges in
    if neg then not found else found
holds_one (byte b) c = eqb b c

-- `matchChunk`: what is left of the name behind parts that each match one byte.
pub match_chunk : List Part → Text → Option Text
match_chunk [] s = some s
match_chunk (p ∷ ps) [] = none
match_chunk (p ∷ ps) (c ∷ s) = let rest = match_chunk ps s in if holds_one p c then rest else none

abbrev put_chunk : Part → List (Bool × List Part) → List (Bool × List Part)
put_chunk run [] = (true, []) ∷ []
put_chunk run ((star, chunk) ∷ rest) = (true, chunk) ∷ rest
put_chunk one [] = (false, one ∷ []) ∷ []
put_chunk one ((true, chunk) ∷ rest) = (false, one ∷ []) ∷ (true, chunk) ∷ rest
put_chunk one ((false, chunk) ∷ rest) = (false, one ∷ chunk) ∷ rest
put_chunk (class neg ranges) [] = (false, class neg ranges ∷ []) ∷ []
put_chunk (class neg ranges) ((true, chunk) ∷ rest) =
    (false, class neg ranges ∷ []) ∷ (true, chunk) ∷ rest
put_chunk (class neg ranges) ((false, chunk) ∷ rest) = (false, class neg ranges ∷ chunk) ∷ rest
put_chunk (byte b) [] = (false, byte b ∷ []) ∷ []
put_chunk (byte b) ((true, chunk) ∷ rest) = (false, byte b ∷ []) ∷ (true, chunk) ∷ rest
put_chunk (byte b) ((false, chunk) ∷ rest) = (false, byte b ∷ chunk) ∷ rest

abbrev no_parts : List Part → Bool
no_parts [] = true
no_parts (p ∷ ps) = false

abbrev no_chunks : List (Bool × List Part) → Bool
no_chunks [] = true
no_chunks (c ∷ cs) = false

-- `scanChunk`: each chunk of parts that match one byte, and whether a run stands in front of it.
pub chunks : List Part → List (Bool × List Part)
chunks [] = []
chunks (p ∷ ps) = put_chunk p (chunks ps)

-- The loop that skips bytes in front of a chunk, none of them a slash; `next` matches what follows
-- the chunk, and `final` says that nothing follows.
pub skip : List Part → Bool → (Text → Bool) → Text → Bool
unfolding match_chunk
skip chunk final next [] = false
skip chunk final next (c ∷ s) =
    let more = skip chunk final next s in
    if eqb c slash then false else elim (match_chunk chunk s) [
      | none ↦ more
      | some t ↦ if final && not (is_empty t) then more else next t
    ]

-- The loop of `Match` over the chunks of a pattern that is well formed. The first position at which
-- a chunk matches is never given up.
pub match_chunks : List (Bool × List Part) → Text → Bool
unfolding skip
match_chunks [] name = is_empty name
match_chunks ((star, chunk) ∷ rest) name =
    let next = match_chunks rest in
    let skipped = star && skip chunk (no_chunks rest) next name in
    if star && no_parts chunk
    then all (λ c. not (eqb c slash)) name
    else elim (match_chunk chunk name) [
      | none ↦ skipped
      | some t ↦ if no_chunks rest && not (is_empty t) then skipped else next t
    ]

-- `none` is `ErrBadPattern`.
unfoldable pub match : Text → Text → Option Bool
unfolding match_chunks chunks
match pattern name = elim (parts pattern) [
  | none ↦ none
  | some ps ↦ some (match_chunks (chunks ps) name)
]

match_test :
    (match (codes "*.example.org") (codes "shop.example.org") ≡ some true)
    × (match (codes "*.example.org") (codes "example.org") ≡ some false)
    × (match (codes "[a-c]?x") (codes "bzx") ≡ some true)
    × (match (codes "[a-") (codes "b") ≡ none)
    × (match (codes "*a[/x]*b") (codes "axa/b") ≡ some false)
unfolding match parts parts_from get_ranges put_part
match_test = (refl, refl, refl, refl, refl)
