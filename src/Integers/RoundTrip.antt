-- ===== src/Integers/RoundTrip.antt =====
-- `strconv.Itoa` and `strconv.ParseInt`: the digits of an integer.
use epinio.Base.{
  ℕ, zero, suc, ◌+◌, ◌*◌, ◌/◌, ◌%◌, ◌^◌, ◌<◌, true, false, [], ◌∷◌, some, ◌≡◌, refl, ◌∙◌, arith,
  Bool-cases, inl, inr, ltb,
}
use epinio.Text.{Text}
use epinio.Text.Affix.{is_empty}
use epinio.Names.{is_digit}
use epinio.Integers.{ℤ, pos, negsuc, digits, itoa, scan, unsigned, parse_int, parse_int32}

scan_digit :
    (m d n : ℕ) (out : Text) → d < 10 → m * 10 + d ≡ n → scan m ((b'0' + d) ∷ out) ≡ scan n out
unfolding scan
scan_digit m d n out h e = grind (arith)

-- What was put in front of a text is read as the number that it stands for.
scan-digits : (fuel n : ℕ) (out : Text) → n < fuel → scan 0 (digits fuel n out) ≡ scan n out
unfolding digits
scan-digits zero n out h = absurd (omega arith)
scan-digits (suc fuel) n out h = elim (Bool-cases (ltb n 10)) [
  | inl e ↦ rw e (scan_digit 0 n n out (ground arith) (omega arith))
  | inr e ↦ rw e (
      scan-digits fuel (n / 10) ((b'0' + n % 10) ∷ out) (ground arith)
      ∙ scan_digit (n / 10) (n % 10) n out (omega arith) (omega arith))
]

-- The first byte is a digit.
abbrev StartsDigit : Text → Type 0
StartsDigit [] = ⊥
StartsDigit (c ∷ s) = is_digit c ≡ true

digits-StartsDigit : (fuel n : ℕ) (out : Text) → n < fuel → StartsDigit (digits fuel n out)
unfolding digits
digits-StartsDigit zero n out h = absurd (omega arith)
digits-StartsDigit (suc fuel) n out h = elim (Bool-cases (ltb n 10)) [
  | inl e ↦ rw e (ground arith)
  | inr e ↦ rw e (digits-StartsDigit fuel (n / 10) ((b'0' + n % 10) ∷ out) (ground arith))
]

unsigned_of_scan : (s : Text) (n : ℕ) → StartsDigit s → scan 0 s ≡ some n → unsigned s ≡ some n
unfolding unsigned
unsigned_of_scan [] n d e = absurd d
unsigned_of_scan (c ∷ s) n d e = e

unsigned-digits : (n : ℕ) → unsigned (digits (suc n) n []) ≡ some n
unfolding scan
unsigned-digits n =
    unsigned_of_scan (digits (suc n) n []) n (digits-StartsDigit (suc n) n [] (omega arith))
      (scan-digits (suc n) n [] (omega arith))

parse_unsigned :
    (limit : ℕ) (s : Text) (n : ℕ)
    → StartsDigit s
    → unsigned s ≡ some n
    → n < limit
    → parse_int limit s ≡ some (pos n)
unfolding parse_int
parse_unsigned limit [] n d e h = absurd d
parse_unsigned limit (c ∷ s) n d e h = ground arith

-- The values of an integer type that has those from minus the limit up to below it.
abbrev pub IsBelow : ℕ → ℤ → Type 0
IsBelow limit (pos n) = n < limit
IsBelow limit (negsuc n) = n < limit

-- Printing an integer in the range and parsing it gives the integer again.
pub parse_int-itoa : (limit : ℕ) (i : ℤ) → IsBelow limit i → parse_int limit (itoa i) ≡ some i
unfolding itoa
parse_int-itoa limit (pos n) h =
    parse_unsigned limit (digits (suc n) n []) n (digits-StartsDigit (suc n) n [] (omega arith))
      (unsigned-digits n) h
parse_int-itoa limit (negsuc n) h = unfold parse_int in rw (unsigned-digits (suc n)) (ground arith)

-- The values of an `int32`.
abbrev pub IsInt32 : ℤ → Type 0
IsInt32 = IsBelow (2 ^ 31)

pub parse_int32-itoa : (i : ℤ) → IsInt32 i → parse_int32 (itoa i) ≡ some i
unfolding parse_int32
parse_int32-itoa i h = parse_int-itoa (2 ^ 31) i h

pub itoa-is_empty : (i : ℤ) → is_empty (itoa i) ≡ false
unfolding itoa
itoa-is_empty (pos n) =
    nonempty (digits (suc n) n []) (digits-StartsDigit (suc n) n [] (omega arith))
  where
    nonempty : (s : Text) → StartsDigit s → is_empty s ≡ false
    nonempty [] d = absurd d
    nonempty (c ∷ s) d = refl
itoa-is_empty (negsuc n) = refl
