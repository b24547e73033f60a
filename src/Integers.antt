-- ===== src/Integers.antt =====
-- The integers as package strconv prints and reads them in base 10.
pub mod RoundTrip
use epinio.Base.{
  ℕ, zero, suc, ◌+◌, ◌-◌, ◌*◌, ◌/◌, ◌%◌, ◌^◌, Bool, true, false, List, [], ◌∷◌, Option, none, some,
  if◌then◌else◌, eqb, leb, ltb,
}
use epinio.Text.{Text}
use epinio.Text.Affix.{is_empty}
use epinio.Names.{is_digit}

-- The integers, of which an `int32` has those from -2 ^ 31 up to 2 ^ 31 - 1.
pub data ℤ : Type 0 where
  pos negsuc : ℕ → ℤ

-- The decimal digits of `strconv.Itoa`, in front of a text; the number itself is fuel enough.
unfoldable pub digits : ℕ → ℕ → Text → Text
digits zero n out = out
digits (suc fuel) n out =
    let rest = digits fuel (n / 10) ((b'0' + n % 10) ∷ out) in
    if ltb n 10 then (b'0' + n) ∷ out else rest

unfoldable pub itoa : ℤ → Text
unfolding digits
itoa (pos n) = digits (suc n) n []
itoa (negsuc n) = b'-' ∷ digits (suc (suc n)) (suc n) []

-- The digits of `strconv.ParseInt` in base 10, behind a number that was read already.
unfoldable pub scan : ℕ → Text → Option ℕ
scan n [] = some n
scan n (c ∷ s) = let rest = scan (n * 10 + (c - b'0')) s in if is_digit c then rest else none

unfoldable pub unsigned : Text → Option ℕ
unfolding scan
unsigned s = if is_empty s then none else scan 0 s

-- The number in a range below a limit, with its sign.
abbrev signed : ℕ → Bool → Option ℕ → Option ℤ
signed limit negative none = none
signed limit false (some n) = if ltb n limit then some (pos n) else none
signed limit true (some zero) = some (pos zero)
signed limit true (some (suc n)) = if ltb n limit then some (negsuc n) else none

-- `strconv.ParseInt` in base 10, for the integers from minus the limit up to below it; `none` is an
-- error of syntax or range.
unfoldable pub parse_int : ℕ → Text → Option ℤ
unfolding unsigned
parse_int limit [] = none
parse_int limit (c ∷ s) =
    if eqb c b'-'
    then signed limit true (unsigned s)
    else if eqb c b'+'
    then signed limit false (unsigned s)
    else signed limit false (unsigned (c ∷ s))

unfoldable pub parse_int32 : Text → Option ℤ
unfolding parse_int
parse_int32 s = parse_int (2 ^ 31) s

unfoldable pub parse_int64 : Text → Option ℤ
unfolding parse_int
parse_int64 s = parse_int (2 ^ 63) s

unfoldable pub ltb_int : ℤ → ℤ → Bool
ltb_int (pos m) (pos n) = ltb m n
ltb_int (pos m) (negsuc n) = false
ltb_int (negsuc m) (pos n) = true
ltb_int (negsuc m) (negsuc n) = ltb n m

unfoldable pub eqb_int : ℤ → ℤ → Bool
eqb_int (pos m) (pos n) = eqb m n
eqb_int (pos m) (negsuc n) = false
eqb_int (negsuc m) (pos n) = false
eqb_int (negsuc m) (negsuc n) = eqb m n
