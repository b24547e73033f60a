-- ===== src/Settings/Fields.antt =====
-- internal/helm/helm.go: which values ValidateField and validateRange accept.
use epinio.Base.{
  Bool, false, List, [], ◌∷◌, Option, none, some, ◌≡◌, ◌↔◌, ◌⊎◌, refl, inl, inr, ok, true, err,
  if◌then◌else◌, Bool-cases, Option-cases, Result,
}
use epinio.Text.{Text, codes, elem, ◌==◌, ==_iff}
use epinio.Integers.{ℤ, parse_int64}
use epinio.Settings.{
  ChartSetting, Floats, SettingError, Value, text, first_error, bounded, validate_range, in_range,
  validate_field, illegal_string, flag, integer, number, parse_bool,
}

module _ {F : Type 0} (floats : Floats F) where
  -- A bound that is absent, or a number that does not leave the value outside.
  abbrev pub WithinBound : Text → (F → Bool) → Type 0
  WithinBound bound outside =
      (bound ≡ []) ⊎ ((b : F) × (floats.parse_float bound ≡ some b) × (outside b ≡ false))

  bounded-WithinBound :
      (bound : Text) (outside : F → Bool) (bad error : SettingError)
      → bounded floats bound outside bad error ≡ none
      → WithinBound bound outside
  unfolding bounded
  bounded-WithinBound [] outside bad error h = inl refl
  bounded-WithinBound (c ∷ s) outside bad error h = go (floats.parse_float (c ∷ s)) refl h
    where
      go :
          (o : Option F)
          → floats.parse_float (c ∷ s) ≡ o
          → elim o [ none ↦ some bad | some b ↦ if outside b then some error else none ] ≡ none
          → WithinBound (c ∷ s) outside
      go none e k = absurd (cc)
      go (some b) e k = elim (Bool-cases (outside b)) [
        | inl f ↦ absurd (cc (rw f at k))
        | inr f ↦ inr (b, e, f)
      ]

  WithinBound-bounded :
      (bound : Text) (outside : F → Bool) (bad error : SettingError)
      → WithinBound bound outside
      → bounded floats bound outside bad error ≡ none
  unfolding bounded
  WithinBound-bounded bound outside bad error (inl e) = rw e refl
  WithinBound-bounded [] outside bad error (inr (b, e, f)) = refl
  WithinBound-bounded (c ∷ s) outside bad error (inr (b, e, f)) = rw (e, f) refl

  both_none : (a b : Option SettingError) → first_error a b ≡ none → (a ≡ none) × (b ≡ none)
  both_none none b h = (refl, h)
  both_none (some e) b h = absurd (cc)

  -- A value passes exactly if each bound that is given is a number and does not exclude it.
  pub validate_range_iff :
      (v : F) (key value min max : Text)
      → (validate_range floats v key value min max ≡ none)
        ↔ (WithinBound min (λ b. floats.less v b) × WithinBound max (λ b. floats.less b v))
  unfolding validate_range
  validate_range_iff v key value min max = (
    λ h.
        let (low, high) = both_none _ _ h in
        (bounded-WithinBound min _ _ _ low, bounded-WithinBound max _ _ _ high),
    λ (low, high).
        rw (WithinBound-bounded min (λ b. floats.less v b) _ _ low)
          (WithinBound-bounded max (λ b. floats.less b v) _ _ high),
  )

  -- The type and the range of a setting, as a value has them. A string is one of the enumeration, if
  -- there is any.
  pub data HasType (value : Text) (spec : ChartSetting) : Type 0 where
    is_string :
        spec.type ≡ codes "string"
        → (spec.enum ≡ []) ⊎ (elem value spec.enum ≡ true)
        → HasType value spec
    is_bool : (b : Bool) → spec.type ≡ codes "bool" → parse_bool value ≡ some b → HasType value spec
    is_integer :
        (i : ℤ)
        → spec.type ≡ codes "integer"
        → parse_int64 value ≡ some i
        → WithinBound spec.minimum (λ b. floats.less (floats.float_of_int i) b)
        → WithinBound spec.maximum (λ b. floats.less b (floats.float_of_int i))
        → HasType value spec
    is_number :
        (x : F)
        → spec.type ≡ codes "number"
        → floats.parse_float value ≡ some x
        → WithinBound spec.minimum (λ b. floats.less x b)
        → WithinBound spec.maximum (λ b. floats.less b x)
        → HasType value spec

  in_range-ok : (r : Option SettingError) (v w : Value F) → in_range floats r v ≡ ok w → r ≡ none
  in_range-ok none v w h = refl
  in_range-ok (some e) v w h = absurd (cc)

  enum-elem :
      (key value : Text) (enum : List Text) (v : Value F)
      → ◌≡◌ {A = Result SettingError (Value F)}
          (elim enum [
            | [] ↦ ok (text value)
            | allowed ∷ more ↦
                if elem value (allowed ∷ more)
                then ok (text value)
                else err (illegal_string key value)
          ])
          (ok v)
      → (enum ≡ []) ⊎ (elem value enum ≡ true)
  enum-elem key value [] v h = inl refl
  enum-elem key value (a ∷ more) v h = elim (Bool-cases (elem value (a ∷ more))) [
    | inl e ↦ inr e
    | inr e ↦ absurd (cc (rw e at h))
  ]

  elem-enum :
      (key value : Text) (enum : List Text)
      → (enum ≡ []) ⊎ (elem value enum ≡ true)
      → ◌≡◌ {A = Result SettingError (Value F)}
          (elim enum [
            | [] ↦ ok (text value)
            | allowed ∷ more ↦
                if elem value (allowed ∷ more)
                then ok (text value)
                else err (illegal_string key value)
          ])
          (ok (text value))
  elem-enum key value [] h = refl
  elem-enum key value (a ∷ more) (inl e) = absurd (cc)
  elem-enum key value (a ∷ more) (inr e) = rw e refl

  module _ (key value : Text) (spec : ChartSetting) where
    validate_field-HasType :
        (v : Value F) → validate_field floats key value spec ≡ ok v → HasType value spec
    unfolding validate_field
    validate_field-HasType v h = elim (Bool-cases (spec.type == codes "string")) [
      | inl s ↦
          is_string ((==_iff spec.type (codes "string")).0 s)
            (enum-elem key value spec.enum v (rw s at h))
      | inr s ↦ elim (Bool-cases (spec.type == codes "bool")) [
        | inl b ↦ elim (Option-cases (parse_bool value)) [
          | inl p ↦ absurd (cc (rw (s, b, p) at h))
          | inr (x, p) ↦ is_bool x ((==_iff spec.type (codes "bool")).0 b) p
        ]
        | inr b ↦ elim (Bool-cases (spec.type == codes "integer")) [
          | inl i ↦ elim (Option-cases (parse_int64 value)) [
            | inl p ↦ absurd (cc (rw (s, b, i, p) at h))
            | inr (x, p) ↦
                let (low, high) =
                  (validate_range_iff (floats.float_of_int x) key value spec.minimum spec.maximum).0
                    (in_range-ok _ (integer x) v (rw (s, b, i, p) at h)) in
                is_integer x ((==_iff spec.type (codes "integer")).0 i) p low high
          ]
          | inr i ↦ elim (Bool-cases (spec.type == codes "number")) [
            | inl n ↦ elim (Option-cases (floats.parse_float value)) [
              | inl p ↦ absurd (cc (rw (s, b, i, n, p) at h))
              | inr (x, p) ↦
                  let (low, high) =
                    (validate_range_iff x key value spec.minimum spec.maximum).0
                      (in_range-ok _ (number x) v (rw (s, b, i, n, p) at h)) in
                  is_number x ((==_iff spec.type (codes "number")).0 n) p low high
            ]
            | inr n ↦ absurd (cc (rw (s, b, i, n) at h))
          ]
        ]
      ]
    ]

    HasType-validate_field :
        HasType value spec → (v : Value F) × (validate_field floats key value spec ≡ ok v)
    unfolding validate_field ◌==◌
    HasType-validate_field (is_string t e) = (text value, rw t (elem-enum key value spec.enum e))
    HasType-validate_field (is_bool b t p) = (flag b, rw (t, p) refl)
    HasType-validate_field (is_integer i t p low high) = (
      integer i,
      rw
          (
            t,
            p,
            (validate_range_iff (floats.float_of_int i) key value spec.minimum spec.maximum).1
                (low, high),
          )
          refl,
    )
    HasType-validate_field (is_number x t p low high) = (
      number x,
      rw (t, p, (validate_range_iff x key value spec.minimum spec.maximum).1 (low, high)) refl,
    )

    -- A value passes exactly if it has the type of the setting and is in its range.
    pub validate_field_iff :
        ((v : Value F) × (validate_field floats key value spec ≡ ok v)) ↔ HasType value spec
    validate_field_iff = (λ (v, h). validate_field-HasType v h, HasType-validate_field)
