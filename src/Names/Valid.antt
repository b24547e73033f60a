-- ===== src/Names/Valid.antt =====
-- internal/names/names.go: the names of `GenerateResourceNameTruncated`, their characters and length.
use epinio.Base.{
  ℕ, zero, suc, ◌+◌, ◌-◌, ◌≤◌, true, false, [], ◌∷◌, ◌++◌, some, ◌≡◌, ◌≢◌, refl, length, All,
  All-append, arith, Bool-cases, inl, inr, if◌then◌else◌, take, drop, length-append, length-take,
  leb, ltb,
}
use epinio.Text.{Text}
use epinio.Text.Affix.{EndsOutside-append, StartsOutside, EndsOutside}
use epinio.Names.{
  split_by_dash, md5_string, dash, is_dash, is_allowed_char, dns_label_safe, truncate,
  generate_resource_name_truncated, sha1sum_length,
}
use epinio.Names.Label.{IsLabel, dns_label_safe-IsLabel}

-- A hexadecimal digit.
abbrev pub IsHex : ℕ → Type 0
IsHex c = (is_allowed_char c ≡ true) × (is_dash c ≡ false)

length-truncate-le : (s : Text) (n : ℕ) → length (truncate s n) ≤ n
unfolding truncate
length-truncate-le s n = ground (arith, length-take n s)

-- A checksum as crypto/sha1 and encoding/hex give it: forty hexadecimal digits.
pub record IsChecksum (sha1_hex : Text → Text) : Type 0 where
  pub length_eq : (s : Text) → length (sha1_hex s) ≡ sha1sum_length
  pub hex : (s : Text) → All IsHex (sha1_hex s)

length-split_by_dash-le : (s : Text) → length (split_by_dash s) ≤ length s + 1
unfolding split_by_dash
length-split_by_dash-le s = ground (arith, length-append s (dash ∷ []))

module _ (sha1_hex : Text → Text) (h : IsChecksum sha1_hex) (original_name : Text)
    (max_len : ℕ) where
  abbrev short_name : Text
  short_name = b'x' ∷ take (max_len - 2) (drop 1 (sha1_hex original_name))

  abbrev prefix : Text
  prefix = split_by_dash (truncate (dns_label_safe original_name) (max_len - 41))

  -- The name that is generated, where there is one.
  abbrev chosen_name : Text
  chosen_name = if ltb max_len 42 then short_name else prefix ++ sha1_hex original_name

  generate-eq-chosen_name :
      2 ≤ max_len
      → generate_resource_name_truncated sha1_hex original_name max_len ≡ some chosen_name
  unfolding generate_resource_name_truncated md5_string
  generate-eq-chosen_name le = ground arith

  chosen_of_generate :
      (name : Text)
      → generate_resource_name_truncated sha1_hex original_name max_len ≡ some name
      → name ≡ chosen_name
  unfolding generate_resource_name_truncated md5_string
  chosen_of_generate name e = ground arith

  length-chosen_name : 2 ≤ max_len → length chosen_name ≤ max_len
  length-chosen_name le = ground (
    arith,
    length-take (max_len - 2) (drop 1 (sha1_hex original_name)),
    length-append prefix (sha1_hex original_name),
    length-split_by_dash-le (truncate (dns_label_safe original_name) (max_len - 41)),
    length-truncate-le (dns_label_safe original_name) (max_len - 41),
    h.length_eq original_name,
  )

  -- A name is generated for every length of two or more, and is no longer than asked for.
  pub generate_resource_name_truncated_bound :
      2 ≤ max_len
      → (name : Text) × (generate_resource_name_truncated sha1_hex original_name max_len
          ≡ some name)
        × (length name ≤ max_len)
  generate_resource_name_truncated_bound le =
      (chosen_name, generate-eq-chosen_name le, length-chosen_name le)

abbrev IsAllowed : ℕ → Type 0
IsAllowed c = is_allowed_char c ≡ true

All-take : (P : ℕ → Type 0) (n : ℕ) (s : Text) → All P s → All P (take n s)
All-take P zero s h = tt
All-take P (suc n) [] h = tt
All-take P (suc n) (c ∷ s) h = (h.0, All-take P n s h.1)

All-drop_one : (P : ℕ → Type 0) (s : Text) → All P s → All P (drop 1 s)
All-drop_one P [] h = tt
All-drop_one P (c ∷ s) h = h.1

All_hex-IsAllowed : (s : Text) → All IsHex s → All IsAllowed s
All_hex-IsAllowed [] h = tt
All_hex-IsAllowed (c ∷ s) h = (h.0.0, All_hex-IsAllowed s h.1)

hex-EndsOutside : (c : ℕ) (s : Text) → is_dash c ≡ false → All IsHex s → EndsOutside is_dash (c ∷ s)
hex-EndsOutside c [] e h = e
hex-EndsOutside c (d ∷ s) e h = hex-EndsOutside d s h.0.1 h.1

take-StartsOutside : (s : Text) (n : ℕ) → StartsOutside is_dash s → StartsOutside is_dash (take n s)
take-StartsOutside s zero h = tt
take-StartsOutside [] (suc n) h = tt
take-StartsOutside (c ∷ s) (suc n) h = h

truncate-StartsOutside :
    (s : Text) (n : ℕ) → StartsOutside is_dash s → StartsOutside is_dash (truncate s n)
unfolding truncate
truncate-StartsOutside s n h = elim (Bool-cases (leb (length s) n)) [
  | inl e ↦ rw e h
  | inr e ↦ rw e (take-StartsOutside s n h)
]

truncate-All : (P : ℕ → Type 0) (s : Text) (n : ℕ) → All P s → All P (truncate s n)
unfolding truncate
truncate-All P s n h = elim (Bool-cases (leb (length s) n)) [
  | inl e ↦ rw e h
  | inr e ↦ rw e (All-take P n s h)
]

-- In front of a checksum, a text of allowed bytes that does not begin with a dash.
joined-IsLabel :
    (p sum : Text)
    → All IsAllowed p
    → StartsOutside is_dash p
    → length sum ≡ sha1sum_length
    → All IsHex sum
    → IsLabel (split_by_dash p ++ sum) × (split_by_dash p ++ sum ≢ [])
unfolding split_by_dash
joined-IsLabel p [] a st l h = absurd (omega arith)
joined-IsLabel [] (c ∷ s) a st l h = (
  record {
    allowed = All_hex-IsAllowed (c ∷ s) h;
    starts = h.0.1;
    ends = hex-EndsOutside c s h.0.1 h.1;
  },
  λ e. cc,
)
joined-IsLabel (b ∷ p) (c ∷ s) a st l h = (
  record {
    allowed =
        All-append IsAllowed ((b ∷ p) ++ dash ∷ []) (c ∷ s)
          (All-append IsAllowed (b ∷ p) (dash ∷ []) a (refl, tt)) (All_hex-IsAllowed (c ∷ s) h);
    starts = st;
    ends = EndsOutside-append is_dash ((b ∷ p) ++ dash ∷ []) c s (hex-EndsOutside c s h.0.1 h.1);
  },
  λ e. cc,
)

short-IsLabel : (sum : Text) (n : ℕ) → All IsHex sum → IsLabel (b'x' ∷ take n (drop 1 sum))
short-IsLabel sum n h =
    let kept = All-take IsHex n (drop 1 sum) (All-drop_one IsHex sum h) in
    record {
      allowed = (refl, All_hex-IsAllowed (take n (drop 1 sum)) kept);
      starts = refl;
      ends = hex-EndsOutside b'x' (take n (drop 1 sum)) refl kept;
    }

module _ (sha1_hex : Text → Text) (h : IsChecksum sha1_hex) (original_name : Text)
    (max_len : ℕ) where
  prefixed-IsLabel :
      let name = prefix sha1_hex h original_name max_len ++ sha1_hex original_name in
      IsLabel name × (name ≢ [])
  prefixed-IsLabel =
      let label = dns_label_safe-IsLabel original_name in
      joined-IsLabel (truncate (dns_label_safe original_name) (max_len - 41))
        (sha1_hex original_name)
        (truncate-All IsAllowed (dns_label_safe original_name) (max_len - 41) label.allowed)
        (truncate-StartsOutside (dns_label_safe original_name) (max_len - 41) label.starts)
        (h.length_eq original_name) (h.hex original_name)

  -- Every generated name has the characters and the ends of a DNS label, and is not empty: only letters
  -- in lower case, digits and dashes, with no dash at either end.
  pub generate_resource_name_truncated-IsLabel :
      (name : Text)
      → generate_resource_name_truncated sha1_hex original_name max_len ≡ some name
      → IsLabel name × (name ≢ [])
  generate_resource_name_truncated-IsLabel name e =
      rw ((chosen_of_generate sha1_hex h original_name max_len name e))
        (elim (Bool-cases (ltb max_len 42)) [
          | inl lt ↦
              rw lt (
                short-IsLabel (sha1_hex original_name) (max_len - 2) (h.hex original_name),
                λ n. cc,
              )
          | inr ge ↦ rw ge prefixed-IsLabel
        ])
