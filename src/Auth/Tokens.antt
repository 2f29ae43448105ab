-- ===== src/Auth/Tokens.antt =====
-- server/webbou/auth.go, `TokenValidator`. SHA-256, base64 and the bytes of a text are parameters.
use web_bou.Prelude.{string_eq, ◌≡◌, refl, Bool, true, String, ◌++◌, ◌==◌}
use web_bou.Encoding.{Bytes}

record TokenValidator : Type 0 where
  pub secret : Bytes

module _ (bytes_of : String → Bytes) (sum256 : Bytes → Bytes)
    (encode_to_string : Bytes → String) where
  unfoldable generate_token : TokenValidator → String → String
  generate_token tv session_id = encode_to_string (sum256 (bytes_of session_id ++ tv.secret))

  unfoldable validate_token : TokenValidator → String → String → Bool
  validate_token tv session_id token = token == generate_token tv session_id

  -- A token is valid for its own session, and for no other one, if what is hashed and encoded tells
  -- the sessions apart.
  validate_token-generate_token :
      (tv : TokenValidator) (session_id other_id : String)
      → ((a b : String)
          → encode_to_string (sum256 (bytes_of a ++ tv.secret))
            ≡ encode_to_string (sum256 (bytes_of b ++ tv.secret))
          → a ≡ b)
      → (validate_token tv session_id (generate_token tv session_id) ≡ true)
        × (validate_token tv other_id (generate_token tv session_id) ≡ true → session_id ≡ other_id)
  unfolding validate_token generate_token
  validate_token-generate_token tv session_id other_id apart =
      ((string_eq.beq_iff _ _).1 refl, λ e. apart session_id other_id ((string_eq.beq_iff _ _).0 e))
