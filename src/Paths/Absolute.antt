-- ===== src/Paths/Absolute.antt =====
-- `IsAbs`, `Join`, `Dir` and `Abs` of package path/filepath on Unix.
use epinio.Base.{
  ◌≡◌, refl, Bool, true, [], ◌∷◌, ◌++◌, eqb, if◌then◌else◌, Result, ok, err, bind, Bool-cases, inl,
  inr,
}
use epinio.Text.{Text, codes, ◌==◌}
use epinio.Text.Affix.{is_empty}
use epinio.Text.Split.{split, join}
use epinio.Paths.{CleanPath, clean, is_rooted}

abbrev show_path : CleanPath → Text
show_path p =
    if p.rooted
    then codes "/" ++ join p.elements (codes "/")
    else elim p.elements [ [] ↦ codes "." | e ∷ es ↦ join (e ∷ es) (codes "/") ]

unfoldable pub clean_path : Text → Text
unfolding clean
clean_path path = show_path (clean path)

abbrev pub is_abs : Text → Bool
is_abs = is_rooted

-- `Join` of two elements, of which an empty one is left out.
unfoldable pub join_paths : Text → Text → Text
unfolding clean_path
join_paths [] [] = []
join_paths [] (c ∷ b) = clean_path (c ∷ b)
join_paths (c ∷ a) b = clean_path ((c ∷ a) ++ (codes "/" ++ b))

-- A path up to its last slash, which it keeps.
abbrev up_to_slash : Text → Text
up_to_slash [] = []
up_to_slash (c ∷ s) =
    let rest = up_to_slash s in
    if is_empty rest then if eqb c b'/' then c ∷ [] else [] else c ∷ rest

unfoldable pub dir : Text → Text
unfolding clean_path
dir path = clean_path (up_to_slash path)

-- `Abs`, in a working directory, which `Getwd` may fail to find.
unfoldable pub abs : {E : Type 0} → Result E Text → Text → Result E Text
unfolding clean_path join_paths
abs wd path = if is_abs path then ok (clean_path path) else bind wd (λ d. ok (join_paths d path))

pub clean_path-is_abs : (s : Text) → is_abs s ≡ true → is_abs (clean_path s) ≡ true
unfolding clean_path clean
clean_path-is_abs s h = rw h refl

pub join_paths-is_abs : (a b : Text) → is_abs a ≡ true → is_abs (join_paths a b) ≡ true
unfolding join_paths
join_paths-is_abs [] b h = absurd (cc)
join_paths-is_abs (c ∷ a) b h = clean_path-is_abs ((c ∷ a) ++ (codes "/" ++ b)) h

pub dir-is_abs : (s : Text) → is_abs s ≡ true → is_abs (dir s) ≡ true
unfolding dir
dir-is_abs [] h = absurd (cc)
dir-is_abs (c ∷ s) h = clean_path-is_abs (up_to_slash (c ∷ s)) (starts (up_to_slash s))
  where
    starts :
        (rest : Text)
        → is_abs (if is_empty rest then if eqb c b'/' then c ∷ [] else [] else c ∷ rest) ≡ true
    starts [] = rw h h
    starts (d ∷ rest) = h

-- In a working directory that is absolute, so is every path that was made absolute.
pub abs-is_abs :
    {E : Type 0} (wd : Result E Text) (path : Text) (result : Text)
    → ((d : Text) → wd ≡ ok d → is_abs d ≡ true)
    → abs wd path ≡ ok result
    → is_abs result ≡ true
unfolding abs
abs-is_abs {E = E} wd path result h e = elim (Bool-cases (is_abs path)) [
  | inl y ↦
      let same : clean_path path ≡ result = cc (rw y at e) in rw (← same) (clean_path-is_abs path y)
  | inr n ↦ relative wd h (rw n at e)
]
  where
    relative :
        (w : Result E Text)
        → ((d : Text) → w ≡ ok d → is_abs d ≡ true)
        → bind w (λ d. ok (join_paths d path)) ≡ ok result
        → is_abs result ≡ true
    relative (err x) k r = absurd (cc)
    relative (ok d) k r =
        let same : join_paths d path ≡ result = cc in
        rw (← same) (join_paths-is_abs d path (k d refl))

paths_test :
    (join_paths (codes "/app") (codes "../lib") ≡ codes "/lib")
    × (dir (codes "/app/epinio.yml") ≡ codes "/app")
    × (dir (codes "epinio.yml") ≡ codes ".")
    × (join_paths [] [] ≡ [])
unfolding join_paths dir join split ◌==◌
paths_test = (refl, refl, refl, refl)
