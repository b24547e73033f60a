-- ===== src/Names/Label.antt =====
-- internal/names/names.go: what `DNSLabelSafe` keeps of a name.
use epinio.Base.{map, ℕ, Bool, true, ◌&&◌, [], ◌∷◌, ◌≡◌, filter, All, Bool-cases, inl, inr}
use epinio.Text.{Text}
use epinio.Text.Affix.{
  is_empty, trim_left, trim_right, StartsOutside, EndsOutside, trim_left-StartsOutside,
  trim_right-StartsOutside, trim_right-EndsOutside,
}
use epinio.Names.{lower, dash_for_underscore, is_digit, is_dash, is_allowed_char, dns_label_safe}

-- The alphabet and the ends of a DNS label: only letters in lower case, digits and dashes, and no dash
-- at either end. A bound of its length is no part of it.
pub record IsLabel (s : Text) : Type 0 where
  pub allowed : All (λ c. is_allowed_char c ≡ true) s
  pub starts : StartsOutside is_dash s
  pub ends : EndsOutside is_dash s

All-filter : (s : Text) → All (λ c. is_allowed_char c ≡ true) (filter is_allowed_char s)
All-filter [] = tt
All-filter (c ∷ s) = elim (Bool-cases (is_allowed_char c)) [
  | inl e ↦ rw e (e, All-filter s)
  | inr e ↦ rw e (All-filter s)
]

module _ (P : ℕ → Type 0) (cut : ℕ → Bool) where
  All-trim_left : (s : Text) → All P s → All P (trim_left cut s)
  unfolding trim_left
  All-trim_left [] h = tt
  All-trim_left (c ∷ s) h = elim (Bool-cases (cut c)) [
    | inl e ↦ rw e (All-trim_left s h.1)
    | inr e ↦ rw e h
  ]

  All-trim_right : (s : Text) → All P s → All P (trim_right cut s)
  unfolding trim_right
  All-trim_right [] h = tt
  All-trim_right (c ∷ s) h = elim (Bool-cases (is_empty (trim_right cut s) && cut c)) [
    | inl e ↦ rw e tt
    | inr e ↦ rw e (h.0, All-trim_right s h.1)
  ]

trimmed-IsLabel :
    (s : Text) → IsLabel (trim_right is_dash (trim_left is_dash (filter is_allowed_char s)))
trimmed-IsLabel s = record {
  allowed =
      All-trim_right (λ c. is_allowed_char c ≡ true) is_dash _
        (All-trim_left (λ c. is_allowed_char c ≡ true) is_dash _ (All-filter s));
  starts = trim_right-StartsOutside is_dash _ (trim_left-StartsOutside is_dash _);
  ends = trim_right-EndsOutside is_dash _;
}

-- Whatever the text, `DNSLabelSafe` keeps only letters in lower case, digits and dashes, and
-- leaves no dash at either end.
pub dns_label_safe-IsLabel : (name : Text) → IsLabel (dns_label_safe name)
unfolding dns_label_safe
dns_label_safe-IsLabel name =
    trimmed-IsLabel (lower (map dash_for_underscore (trim_left is_digit name)))
