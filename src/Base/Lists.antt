-- ===== src/Base/Lists.antt =====
-- Lists measured by native numbers, the Boolean `filter` and `any` of the loops, and `All`.
use Prim.Native.Nat.{ℕ, zero, suc, ◌+◌, min}
use mathlib.Core.Path.{◌≡◌, refl, subst}
use mathlib.Core.Logic.{◌↔◌, inl, inr}
use mathlib.Core.Bool.{Bool, true, false, ◌&&◌, ◌||◌}
use mathlib.Core.List.{List, [], ◌∷◌, ◌++◌, Memᴰ}
use mathlib.Core.Option.{Option, none, some}
use native.Mathlib.Omega.{arith}
use epinio.Base.Tests.{if◌then◌else◌, Bool-cases}

module _ {ℓ} {A : Type ℓ} where
  abbrev pub length : List A → ℕ
  length [] = 0
  length (x ∷ xs) = suc (length xs)

  abbrev pub take : ℕ → List A → List A
  take zero xs = []
  take (suc n) [] = []
  take (suc n) (x ∷ xs) = x ∷ take n xs

  abbrev pub drop : ℕ → List A → List A
  drop zero xs = xs
  drop (suc n) [] = []
  drop (suc n) (x ∷ xs) = drop n xs

  abbrev pub any : (A → Bool) → List A → Bool
  any p [] = false
  any p (x ∷ xs) = p x || any p xs

  abbrev pub all : (A → Bool) → List A → Bool
  all p [] = true
  all p (x ∷ xs) = p x && all p xs

  abbrev pub filter : (A → Bool) → List A → List A
  filter p [] = []
  filter p (x ∷ xs) = if p x then x ∷ filter p xs else filter p xs

  -- The first element that passes, as a loop that returns from its body.
  abbrev pub find : (A → Bool) → List A → Option A
  find p [] = none
  find p (x ∷ xs) = if p x then some x else find p xs

  pub length-append : (xs ys : List A) → length (xs ++ ys) ≡ length xs + length ys
  length-append [] ys = omega arith
  length-append (x ∷ xs) ys = omega (arith, length-append xs ys)

  pub length-take : (n : ℕ) (xs : List A) → length (take n xs) ≡ min n (length xs)
  length-take zero xs = omega arith
  length-take (suc n) [] = omega arith
  length-take (suc n) (x ∷ xs) = omega (arith, length-take n xs)

  pub any-append : (p : A → Bool) (xs ys : List A) → any p (xs ++ ys) ≡ (any p xs || any p ys)
  any-append p [] ys = refl
  any-append p (x ∷ xs) ys = ground (arith, any-append p xs ys)

  pub any-filter : (p q : A → Bool) (xs : List A) → any p (filter q xs) ≡ any (λ x. q x && p x) xs
  any-filter p q [] = refl
  any-filter p q (x ∷ xs) = ground (arith, any-filter p q xs)

module _ {ℓ κ} {A : Type ℓ} (P : A → Type κ) where
  abbrev pub All : List A → Type κ
  All [] = Unit
  All (x ∷ xs) = P x × All xs

  pub All-append : (xs ys : List A) → All xs → All ys → All (xs ++ ys)
  All-append [] ys h k = k
  All-append (x ∷ xs) ys h k = (h.0, All-append xs ys h.1 k)

module _ {ℓ} {A : Type ℓ} where
  any_of_mem : (p : A → Bool) {x : A} (xs : List A) → Memᴰ x xs → p x ≡ true → any p xs ≡ true
  any_of_mem p [] m h = elim m [ ]
  any_of_mem p (y ∷ ys) (Memᴰ.head e) h = rw (← e, h)
  any_of_mem p (y ∷ ys) (Memᴰ.tail m) h = ground (arith, any_of_mem p ys m h)

  mem_of_any : (p : A → Bool) (xs : List A) → any p xs ≡ true → (x : A) × Memᴰ x xs × (p x ≡ true)
  mem_of_any p [] h = absurd (cc)
  mem_of_any p (y ∷ ys) h = elim (Bool-cases (p y)) [
    | inl e ↦ (y, Memᴰ.head refl, e)
    | inr e ↦ let (x, m, q) = mem_of_any p ys (ground arith) in (x, Memᴰ.tail m, q)
  ]

  -- A loop that answers `true` at the first hit answers by existence.
  pub any_iff :
      (p : A → Bool) (xs : List A) → (any p xs ≡ true) ↔ ((x : A) × Memᴰ x xs × (p x ≡ true))
  any_iff p xs = (mem_of_any p xs, λ (x, m, h). any_of_mem p xs m h)

module _ {ℓ} {A : Type ℓ} (p : A → Bool) where
  cons_of_filter :
      (x a : A) (xs : List A)
      → (Memᴰ a (filter p xs) → Memᴰ a xs × (p a ≡ true))
      → Memᴰ a (filter p (x ∷ xs))
      → Memᴰ a (x ∷ xs) × (p a ≡ true)
  cons_of_filter x a xs ih m = elim (Bool-cases (p x)) [
    | inl e ↦
        at_head (subst (λ (b : Bool). Memᴰ a (if b then x ∷ filter p xs else filter p xs)) e m) e
    | inr e ↦
        let (k, h) =
          ih (subst (λ (b : Bool). Memᴰ a (if b then x ∷ filter p xs else filter p xs)) e m) in
        (Memᴰ.tail k, h)
  ]
    where
      at_head : Memᴰ a (x ∷ filter p xs) → p x ≡ true → Memᴰ a (x ∷ xs) × (p a ≡ true)
      at_head (Memᴰ.head q) e = (Memᴰ.head q, rw q e)
      at_head (Memᴰ.tail k) e = let (l, h) = ih k in (Memᴰ.tail l, h)

  mem_of_filter : (a : A) (xs : List A) → Memᴰ a (filter p xs) → Memᴰ a xs × (p a ≡ true)
  mem_of_filter a [] m = elim m [ ]
  mem_of_filter a (x ∷ xs) m = cons_of_filter x a xs (mem_of_filter a xs) m

  filter_of_mem : (a : A) (xs : List A) → Memᴰ a xs → p a ≡ true → Memᴰ a (filter p xs)
  filter_of_mem a [] m h = elim m [ ]
  filter_of_mem a (x ∷ xs) (Memᴰ.head q) h = let e : p x ≡ true = rw (← q) h in rw e (Memᴰ.head q)
  filter_of_mem a (x ∷ xs) (Memᴰ.tail m) h = elim (Bool-cases (p x)) [
    | inl e ↦ rw e (Memᴰ.tail (filter_of_mem a xs m h))
    | inr e ↦ rw e (filter_of_mem a xs m h)
  ]

  pub mem-filter_iff : (a : A) (xs : List A) → Memᴰ a (filter p xs) ↔ (Memᴰ a xs × (p a ≡ true))
  mem-filter_iff a xs = (mem_of_filter a xs, λ (m, h). filter_of_mem a xs m h)
