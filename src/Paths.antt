-- ===== src/Paths.antt =====
-- `Clean` and `Rel` of package path/filepath on Unix, on paths that are taken apart at the slashes.
pub mod Absolute
use epinio.Base.{
  ◌≡◌, refl, Bool, true, false, ◌&&◌, ◌||◌, not, List, [], ◌∷◌, ◌++◌, Option, none, some, eqb, map,
  if◌then◌else◌,
}
use epinio.Text.{Text, codes, ◌==◌}
use epinio.Text.Affix.{is_empty, trim_right}
use epinio.Text.Split.{split, join}

-- A path that is clean: whether it starts at the root, and its elements.
pub record CleanPath : Type 0 where
  pub rooted : Bool
  pub elements : List Text

abbrev dot_dot : Text
dot_dot = codes ".."

-- One element more; those that were read stand in reverse.
put_element : Bool → List Text → Text → List Text
put_element rooted out e =
    if e == [] || e == codes "." then out else if not (e == dot_dot) then e ∷ out else elim out [
      | [] ↦ if rooted then [] else dot_dot ∷ []
      | last ∷ rest ↦ if last == dot_dot then dot_dot ∷ last ∷ rest else rest
    ]

put_elements : Bool → List Text → List Text → List Text
unfolding put_element
put_elements rooted out [] = out
put_elements rooted out (e ∷ es) = put_elements rooted (put_element rooted out e) es

abbrev reverse_onto : List Text → List Text → List Text
reverse_onto [] out = out
reverse_onto (e ∷ es) out = reverse_onto es (e ∷ out)

abbrev pub is_rooted : Text → Bool
is_rooted [] = false
is_rooted (c ∷ s) = eqb c b'/'

-- `Clean`. The path "." has no elements.
unfoldable pub clean : Text → CleanPath
unfolding put_elements
clean path = record {
  rooted = is_rooted path;
  elements = reverse_onto (put_elements (is_rooted path) [] (split path b'/')) [];
}

same_elements : List Text → List Text → Bool
same_elements [] [] = true
same_elements [] (t ∷ ts) = false
same_elements (b ∷ bs) [] = false
same_elements (b ∷ bs) (t ∷ ts) = b == t && same_elements bs ts

abbrev same_root : Bool → Bool → Bool
same_root true b = b
same_root false b = not b

-- The way up from what is left of the base, and down again.
up_and_down : List Text → List Text → Text
up_and_down bs ts = join (map (λ b. dot_dot) bs ++ ts) (codes "/")

-- The loop over the elements that both paths have in common.
rel_elements : List Text → List Text → Option Text
unfolding up_and_down
rel_elements [] ts = some (join ts (codes "/"))
rel_elements (b ∷ bs) [] = some (up_and_down (b ∷ bs) [])
rel_elements (b ∷ bs) (t ∷ ts) =
    let deeper = rel_elements bs ts in
    if b == t then deeper else if b == dot_dot then none else some (up_and_down (b ∷ bs) (t ∷ ts))

abbrev shown_elements : CleanPath → List Text
shown_elements p = elim p.elements [
  | [] ↦ if p.rooted then [] else codes "." ∷ []
  | e ∷ es ↦ e ∷ es
]

-- `Rel`; `none` is the error that the target cannot be made relative to the base.
unfoldable pub rel : Text → Text → Option Text
unfolding clean same_elements rel_elements
rel base target =
    let b = clean base in
    let t = clean target in
    if same_root b.rooted t.rooted && same_elements b.elements t.elements
    then some (codes ".")
    else if not (same_root b.rooted t.rooted)
    then none
    else rel_elements b.elements (shown_elements t)

rel_test :
    (rel (codes "/app") (codes "/app/src/main.go") ≡ some (codes "src/main.go"))
    × (rel (codes "/app") (codes "/app") ≡ some (codes "."))
    × (rel (codes "/app/src/") (codes "/app/../lib") ≡ some (codes "../../lib"))
    × (rel (codes "..") (codes "a") ≡ none)
    × (rel (codes "/app") (codes "app") ≡ none)
unfolding rel put_element put_elements clean same_elements rel_elements up_and_down ◌==◌ split join
rel_test = (refl, refl, refl, refl, refl)

-- The last element of a path, as `Base` takes it.
abbrev last_of : Text → List Text → Text
last_of e [] = e
last_of e (f ∷ fs) = last_of f fs

unfoldable pub base : Text → Text
base path =
    let trimmed = trim_right (λ c. eqb c b'/') path in
    if is_empty path
    then codes "."
    else if is_empty trimmed
    then codes "/"
    else last_of [] (split trimmed b'/')

-- `Join` of a directory that is clean and the name of one of its entries.
unfoldable pub join_entry : Text → Text → Text
join_entry dir name = if dir == codes "/" then dir ++ name else dir ++ (codes "/" ++ name)

base_test :
    (base (codes "src/main.go") ≡ codes "main.go")
    × (base (codes ".") ≡ codes ".")
    × (base (codes "a/b//") ≡ codes "b")
    × (base (codes "//") ≡ codes "/")
    × (join_entry (codes "/app") (codes ".git") ≡ codes "/app/.git")
unfolding base join_entry ◌==◌ split trim_right
base_test = (refl, refl, refl, refl, refl)
