-- ===== src/Text/Maps.antt =====
-- Go maps with string keys, as association lists: a read of a missing key, a write and `delete`.
use epinio.Base.{List, [], ◌∷◌, Option, none, some, ◌≡◌, refl, arith, if◌then◌else◌, is_some}
use epinio.Text.{Text, ◌==◌, ==_iff, elem}

abbrev pub Map {ℓ} : Type ℓ → Type ℓ
Map V = List (Text × V)

module _ {ℓ} {V : Type ℓ} where
  unfoldable pub lookup : Text → Map V → Option V
  lookup key [] = none
  lookup key ((first, value) ∷ rest) = if first == key then some value else lookup key rest

  -- `delete(m, key)`, which removes every entry that a read of the key could see.
  pub delete : Text → Map V → Map V
  delete key [] = []
  delete key ((first, value) ∷ rest) =
      if first == key then delete key rest else (first, value) ∷ delete key rest

  -- `m[key] = new`.
  unfoldable pub insert : Text → V → Map V → Map V
  insert key new [] = (key, new) ∷ []
  insert key new ((first, old) ∷ rest) =
      if first == key then (first, new) ∷ rest else (first, old) ∷ insert key new rest

  pub lookup-delete :
      (key other : Text) (m : Map V)
      → lookup other (delete key m) ≡ (if key == other then none else lookup other m)
  unfolding lookup delete
  lookup-delete key other [] = ground arith
  lookup-delete key other ((first, value) ∷ rest) =
      ground (
        arith,
        lookup-delete key other rest,
        ==_iff first other,
        ==_iff first key,
        ==_iff key other,
      )

  pub lookup-insert :
      (key other : Text) (new : V) (m : Map V)
      → lookup other (insert key new m) ≡ (if key == other then some new else lookup other m)
  unfolding lookup insert
  lookup-insert key other new [] = refl
  lookup-insert key other new ((first, old) ∷ rest) = ground (
    arith,
    lookup-insert key other new rest,
    ==_iff first other,
    ==_iff first key,
    ==_iff key other,
  )

  abbrev pub keys : Map V → List Text
  keys [] = []
  keys ((k, v) ∷ m) = k ∷ keys m

  pub elem-keys : (k : Text) (m : Map V) → elem k (keys m) ≡ is_some (lookup k m)
  unfolding lookup
  elem-keys k [] = refl
  elem-keys k ((j, v) ∷ m) = ground (arith, elem-keys k m)
