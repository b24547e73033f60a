-- ===== src/Names.antt =====
-- internal/names/names.go: names of kubernetes resources, made of a safe prefix and a checksum.
pub mod Label
pub mod Valid
use epinio.Base.{
  ℕ, ◌+◌, ◌-◌, Bool, true, false, ◌&&◌, ◌||◌, not, List, [], ◌∷◌, ◌++◌, Option, none, some, ◌≡◌,
  map, filter, length, take, drop, eqb, leb, ltb, if◌then◌else◌,
}
use epinio.Text.{Text, codes}
use epinio.Text.Affix.{is_empty, trim_left, trim_right}
use epinio.Text.Split.{join}

abbrev pub dash : ℕ
dash = b'-'

abbrev pub is_dash : ℕ → Bool
is_dash c = eqb c dash

abbrev pub is_digit : ℕ → Bool
is_digit c = leb b'0' c && leb c b'9'

abbrev pub is_lower : ℕ → Bool
is_lower c = leb b'a' c && leb c b'z'

-- The bytes that `allowedDNSLabelChars` does not strip.
abbrev pub is_allowed_char : ℕ → Bool
is_allowed_char c = is_dash c || is_lower c || is_digit c

-- `ReplaceAll(name, "_", "-")`, byte by byte.
unfoldable pub dash_for_underscore : ℕ → ℕ
dash_for_underscore c = if eqb c b'_' then dash else c

-- `ToLower` of an ASCII byte.
unfoldable pub lower_byte : ℕ → ℕ
lower_byte c = if leb b'A' c && leb c b'Z' then c + 32 else c

-- The kelvin sign, U+212A, has the letter k for its lower case.
unfoldable pub lower_kelvin : Text → Text
lower_kelvin [] = []
lower_kelvin (a ∷ []) = a ∷ []
lower_kelvin (a ∷ b ∷ []) = a ∷ b ∷ []
lower_kelvin (a ∷ b ∷ c ∷ s) = elim (eqb a 226 && eqb b 132 && eqb c 170) [
  | true ↦ b'k' ∷ lower_kelvin s
  | false ↦ a ∷ lower_kelvin (b ∷ c ∷ s)
]

-- The capital letter i with a dot, U+0130, has the letter i for its lower case.
unfoldable pub lower_dotted : Text → Text
lower_dotted [] = []
lower_dotted (a ∷ []) = a ∷ []
lower_dotted (a ∷ b ∷ s) = elim (eqb a 196 && eqb b 176) [
  | true ↦ b'i' ∷ lower_dotted s
  | false ↦ a ∷ lower_dotted (b ∷ s)
]

-- `ToLower` as far as its result is ASCII: these two are the only other characters with such a lower
-- case. The bytes of the rest of them stay, and the next step of `DNSLabelSafe` strips them in either
-- case of the letter.
unfoldable pub lower : Text → Text
unfolding lower_kelvin lower_dotted lower_byte
lower s = map lower_byte (lower_kelvin (lower_dotted s))

unfoldable pub dns_label_safe : Text → Text
unfolding dash_for_underscore lower
dns_label_safe name =
    let no_digits = trim_left is_digit name in
    let lowered = lower (map dash_for_underscore no_digits) in
    let stripped = filter is_allowed_char lowered in trim_right is_dash (trim_left is_dash stripped)

abbrev pub sha1sum_length : ℕ
sha1sum_length = 40

pub truncate : Text → ℕ → Text
truncate s max_len = if leb (length s) max_len then s else take max_len s

-- "Split the prefix with a dash", unless there is none.
pub split_by_dash : Text → Text
split_by_dash safe_prefix = if is_empty safe_prefix then safe_prefix else safe_prefix ++ dash ∷ []

-- `sha1_hex` is the hexadecimal SHA-1 checksum of crypto/sha1 and encoding/hex.
module _ (sha1_hex : Text → Text) where
  -- `MD5String`; a length of -1 is `none`.
  unfoldable pub md5_string : Text → Option ℕ → Text
  md5_string value none = sha1_hex value
  md5_string value (some n) =
      if ltb (length (sha1_hex value)) n then sha1_hex value else take n (sha1_hex value)

  -- `none` is the panic of the slice `sum[1:maxLen-1]` when its end lies before its start.
  unfoldable pub generate_resource_name_truncated : Text → ℕ → Option Text
  generate_resource_name_truncated original_name max_len =
      let sum = md5_string original_name none in
      if ltb max_len 42
      then if ltb max_len 2 then none else some (b'x' ∷ take (max_len - 2) (drop 1 sum))
      else let safe_prefix =
          truncate (dns_label_safe original_name) (max_len - (sha1sum_length + 1)) in
        some (split_by_dash safe_prefix ++ sum)

  pub generate_resource_name : List Text → Option Text
  generate_resource_name names = generate_resource_name_truncated (join names (dash ∷ [])) 63

  pub release_name : Text → Option Text
  release_name base = generate_resource_name_truncated base 53

  pub service_release_name : Text → Option Text
  service_release_name base = generate_resource_name_truncated base 30

  pub service_helm_chart_name : Text → Text → Option Text
  service_helm_chart_name name namespace =
      generate_resource_name_truncated (namespace ++ dash ∷ name) 30
