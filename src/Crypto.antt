-- ===== src/Crypto.antt =====
-- server/webbou/crypto.go: payload encryption. The AEAD (golang.org/x/crypto/chacha20poly1305) and
-- the random bytes are parameters.
pub mod Pinning
pub mod Engine
use web_bou.Prelude.{
  ℕ, ◌≡◌, refl, ap, ◌∙◌, false, Option, none, some, ◌++◌, ltb, length, take, drop, if◌then◌else◌,
  arith, length-append, take-append, drop-append, take_all, drop_all,
}
use web_bou.Encoding.{Bytes}

-- `cipher.AEAD`, with no additional data. What `seal` gives, `open` turns back.
pub record Aead : Type 0 where
  pub nonce_size : ℕ
  pub seal : Bytes → Bytes → Bytes
  pub unseal : Bytes → Bytes → Option Bytes
  pub unseal-seal :
      (nonce plain : Bytes)
      → length nonce ≡ nonce_size
      → unseal nonce (seal nonce plain) ≡ some plain

data CryptoError : Type 0 where
  rand_failed ciphertext_too_short not_authentic : CryptoError

data Result : Type 0 where
  ok : Bytes → Result
  err : CryptoError → Result

module _ (aead : Aead) where
  -- The nonce is what rand.Read filled, or its failure; `Seal` appends to it.
  unfoldable encrypt : Option Bytes → Bytes → Result
  encrypt none plaintext = err rand_failed
  encrypt (some nonce) plaintext = ok (nonce ++ aead.seal nonce plaintext)

  abbrev opened : Option Bytes → Result
  opened none = err not_authentic
  opened (some plaintext) = ok plaintext

  unfoldable decrypt : Bytes → Result
  decrypt ciphertext =
      if ltb (length ciphertext) aead.nonce_size
      then err ciphertext_too_short
      else opened (aead.unseal (take aead.nonce_size ciphertext) (drop aead.nonce_size ciphertext))

  decrypt-split :
      (nonce sealed : Bytes)
      → length nonce ≡ aead.nonce_size
      → decrypt (nonce ++ sealed) ≡ opened (aead.unseal nonce sealed)
  unfolding decrypt
  decrypt-split nonce sealed size =
      let long : ltb (length (nonce ++ sealed)) aead.nonce_size ≡ false =
        ground (arith, length-append nonce sealed) in
      let head : take aead.nonce_size (nonce ++ sealed) ≡ nonce =
        take-append aead.nonce_size nonce sealed (omega arith)
        ∙ take_all aead.nonce_size nonce size in
      let tail : drop aead.nonce_size (nonce ++ sealed) ≡ sealed =
        drop-append aead.nonce_size nonce sealed (omega arith)
        ∙ ap (λ d. d ++ sealed) (drop_all aead.nonce_size nonce size) in
      rw (long, head, tail)

  -- What `Encrypt` gives for a nonce of the AEAD's size, `Decrypt` turns back.
  decrypt-encrypt :
      (nonce plaintext : Bytes)
      → length nonce ≡ aead.nonce_size
      → (ciphertext : Bytes) × (encrypt (some nonce) plaintext ≡ ok ciphertext)
        × (decrypt ciphertext ≡ ok plaintext)
  unfolding encrypt
  decrypt-encrypt nonce plaintext size = (
    nonce ++ aead.seal nonce plaintext,
    refl,
    decrypt-split nonce (aead.seal nonce plaintext) size
        ∙ ap opened (aead.unseal-seal nonce plaintext size),
  )
