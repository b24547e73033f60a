-- ===== src/Routing/RoundTrip.antt =====
-- internal/routes/routes.go: routes as text and as ingresses.
use epinio.Base.{[], ◌∷◌, none, some, ◌≡◌, refl, ap, sym, ◌∙◌, Option-cases, inl, inr}
use epinio.Text.{Text, codes}
use epinio.Text.Affix.{trim_suffix, trim_suffix-append, trim_suffix_lacking}
use epinio.Text.Split.{cut, cut_parts, uncut_lacking}
use epinio.Routing.{to_string, from_string, to_ingress, from_ingress}

from_string_whole :
    (s : Text) → cut s b'/' ≡ none → from_string s ≡ record { domain = s; path = codes "/" }
unfolding from_string
from_string_whole s e = rw (e, from_string) refl

from_string_parts :
    (s d p : Text)
    → cut s b'/' ≡ some (d, p)
    → from_string s ≡ record { domain = d; path = b'/' ∷ p }
unfolding from_string
from_string_parts s d p e = rw (e, from_string) refl

printed : (s : Text) → to_string (from_string s) ≡ trim_suffix s (codes "/")
unfolding to_string
printed s = elim (Option-cases (cut s b'/')) [
  | inl whole ↦
      ap to_string (from_string_whole s whole)
      ∙ trim_suffix-append s b'/'
      ∙ sym (trim_suffix_lacking s b'/' (uncut_lacking s b'/' whole))
  | inr ((d, p), parts) ↦
      ap to_string (from_string_parts s d p parts)
      ∙ ap (λ t. trim_suffix t (codes "/")) (cut_parts s d p b'/' parts)
]

-- Whatever the text, printing the route that was read from it gives the text without a slash at its
-- end, and the ingress of the route, of any name, has this one route.
pub to_string-from_string :
    (s name : Text)
    → (to_string (from_string s) ≡ trim_suffix s (codes "/"))
      × (from_ingress (to_ingress (from_string s) name) ≡ some (from_string s ∷ []))
unfolding to_ingress from_ingress
to_string-from_string s name = (printed s, refl)
