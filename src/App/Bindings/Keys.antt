-- ===== src/App/Bindings/Keys.antt =====
-- The keys that join a name with its namespace.
use epinio.Base.{some, ◌≡◌}
use epinio.Text.{Text}
use epinio.Text.Split.{split_lacking, split_at_sep, Lacks}
use epinio.App.Bindings.{
  nul, encode_configuration_key, decode_configuration_key, service_key, decode_service_key,
}

-- Decoding a key of a configuration, or of a service, gives the name and the namespace that it was
-- made of, if neither holds a NUL.
pub decode_key-encode_key :
    (name namespace : Text)
    → Lacks nul name
    → Lacks nul namespace
    → (decode_configuration_key (encode_configuration_key name namespace) ≡ some (name, namespace))
      × (decode_service_key (service_key name namespace) ≡ some (name, namespace))
unfolding decode_configuration_key encode_configuration_key decode_service_key service_key
decode_key-encode_key name namespace h k = (
  rw (split_at_sep name namespace nul h, split_lacking namespace nul k),
  rw (split_at_sep name namespace nul h, split_lacking namespace nul k),
)
