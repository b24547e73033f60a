-- ===== src/Auth/Secret/Lines.antt =====
-- Names that are joined into lines and loaded again.
use epinio.Base.{any, leb, false, ℕ, List, [], ◌∷◌, ◌++◌, some, ◌≡◌, ◌≢◌, refl, ap, All}
use epinio.Text.{Text}
use epinio.Text.Affix.{
  is_space, trim_space, trim_left, trim_right, trim_space_id, IsTrimmed, EndsOutside,
  EndsOutside-append,
}
use epinio.Text.Split.{split, join, split-join, Lacks}
use epinio.Text.Maps.{Map, lookup}
use epinio.Auth.Secret.{newline, load_names, names_at}

-- Only ASCII bytes.
abbrev pub IsAscii : Text → Type 0
IsAscii s = any (λ c. leb 128 c) s ≡ false

-- An ASCII part that `TrimSpace` leaves alone and that does not vanish.
abbrev pub IsWord : Text → Type 0
IsWord s = IsTrimmed s × (s ≢ []) × IsAscii s

pub join-ne-nil : (q : Text) (ps : List Text) (sep : ℕ) → q ≢ [] → join (q ∷ ps) (sep ∷ []) ≢ []
unfolding join
join-ne-nil [] ps sep h = absurd (h refl)
join-ne-nil (c ∷ q) [] sep h = λ e. cc
join-ne-nil (c ∷ q) (p ∷ ps) sep h = λ e. cc

pub join-IsTrimmed : (ps : List Text) (sep : ℕ) → All IsWord ps → IsTrimmed (join ps (sep ∷ []))
unfolding join
join-IsTrimmed [] sep h = (tt, tt)
join-IsTrimmed (p ∷ []) sep h = h.0.0
join-IsTrimmed ([] ∷ q ∷ ps) sep h = absurd (h.0.1 refl)
join-IsTrimmed ((c ∷ p) ∷ q ∷ ps) sep h = (
  h.0.0.0,
  ends (join (q ∷ ps) (sep ∷ [])) (join-IsTrimmed (q ∷ ps) sep h.1).1
      (join-ne-nil q ps sep h.1.0.1),
)
  where
    ends :
        (rest : Text)
        → EndsOutside is_space rest
        → rest ≢ []
        → EndsOutside is_space ((c ∷ p) ++ sep ∷ rest)
    ends [] k ne = absurd (ne refl)
    ends (d ∷ rest) k ne = EndsOutside-append is_space (c ∷ p) sep (d ∷ rest) k

-- A name of a namespace or gitconfig that survives its line of text.
abbrev pub IsName : Text → Type 0
IsName s = IsWord s × Lacks newline s

load_names_id : (names : List Text) → All IsName names → load_names names ≡ names
unfolding load_names
load_names_id [] h = refl
load_names_id ([] ∷ names) h = absurd (h.0.0.1 refl)
load_names_id ((c ∷ name) ∷ names) h =
    rw (trim_space_id (c ∷ name) h.0.0.0)
      (ap (λ (l : List Text). (c ∷ name) ∷ l) (load_names_id names h.1))

words_of_names : (names : List Text) → All IsName names → All IsWord names
words_of_names [] h = tt
words_of_names (n ∷ names) h = (h.0.0, words_of_names names h.1)

lines_of_names : (names : List Text) → All IsName names → All (Lacks newline) names
lines_of_names [] h = tt
lines_of_names (n ∷ names) h = (h.0.1, lines_of_names names h.1)

load_joined :
    (names : List Text)
    → All IsName names
    → load_names (split (trim_space (join names (newline ∷ []))) newline) ≡ names
load_joined [] h = unfold load_names split join trim_space trim_left trim_right in refl
load_joined (n ∷ names) h =
    rw
      (
        trim_space_id _ (join-IsTrimmed (n ∷ names) newline (words_of_names (n ∷ names) h)),
        split-join (n ∷ names) newline (λ e. cc) (lines_of_names (n ∷ names) h),
      )
      (load_names_id (n ∷ names) h)

pub names_at_joined :
    (key : Text) (m : Map Text) (names : List Text)
    → lookup key m ≡ some (join names (newline ∷ []))
    → All IsName names
    → names_at key m ≡ names
unfolding names_at
names_at_joined key m names e h = rw (e, names_at) (load_joined names h)
