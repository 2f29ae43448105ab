-- ===== src/Crypto/Pinning.antt =====
-- server/webbou/crypto.go, the pinning of a certificate. Reading, PEM and X.509 are a parameter that
-- gives the certificate's bytes, where the file has one; SHA-256 is a parameter.
use web_bou.Prelude.{◌≡◌, ◌↔◌, refl, Bool, true, false, Option, none, some, [], if◌then◌else◌}
use web_bou.Encoding.{Bytes, equal_bytes, equal_bytes_iff}

pub record Pins : Type 0 where
  pub cert_pinning_enabled : Bool
  pub pinned_cert_hash : Bytes

abbrev pub no_pins : Pins
no_pins = record { cert_pinning_enabled = false; pinned_cert_hash = [] }

module _ (sum256 : Bytes → Bytes) where
  -- The result says whether there was no error.
  unfoldable pub enable_certificate_pinning : Pins → Option Bytes → Pins × Bool
  enable_certificate_pinning ce none = (ce, false)
  enable_certificate_pinning ce (some raw) =
      (record { cert_pinning_enabled = true; pinned_cert_hash = sum256 raw }, true)

  unfoldable validate_certificate_pinning : Pins → Bytes → Bool
  validate_certificate_pinning ce raw =
      if ce.cert_pinning_enabled then equal_bytes (sum256 raw) ce.pinned_cert_hash else true

  -- Once a certificate is pinned, exactly those are valid that have its hash; a file without one leaves
  -- the pins as they were.
  validate-enable :
      (ce : Pins) (pinned raw : Bytes)
      → ((validate_certificate_pinning (enable_certificate_pinning ce (some pinned)).0 raw ≡ true)
          ↔ (sum256 raw ≡ sum256 pinned))
        × (validate_certificate_pinning (enable_certificate_pinning ce none).0 raw
            ≡ validate_certificate_pinning ce raw)
  unfolding enable_certificate_pinning validate_certificate_pinning
  validate-enable ce pinned raw = (equal_bytes_iff (sum256 raw) (sum256 pinned), refl)
