-- ===== src/Crypto/Engine.antt =====
-- server/webbou/crypto.go, `CryptoEngine`: its creation and the methods on its certificate. What crypto/rand
-- filled is an argument; curve25519, chacha20poly1305 and the loading of key pairs are parameters.
use web_bou.Prelude.{
  ◌≡◌, refl, ap, Bool, true, false, Option, none, some, List, [], ◌∷◌, String, length,
}
use web_bou.Encoding.{Bytes}
use web_bou.Crypto.{Aead, ok, encrypt, decrypt, decrypt-encrypt}
use web_bou.Crypto.Pinning.{Pins, no_pins, enable_certificate_pinning}

pub data ClientAuth : Type 0 where
  no_client_cert : ClientAuth

pub data TlsVersion : Type 0 where
  version_tls13 : TlsVersion

pub data CipherSuite : Type 0 where
  tls_aes_128_gcm_sha256 tls_aes_256_gcm_sha384 tls_chacha20_poly1305_sha256 : CipherSuite

-- `tls.Config`, the fields that are set. No suites leaves them to the library.
pub record TlsConfig (Cert : Type 0) : Type 0 where
  pub certificates : List Cert
  pub client_auth : ClientAuth
  pub min_version : TlsVersion
  pub cipher_suites : List CipherSuite

pub record Libraries : Type 1 where
  pub Cert : Type 0
  pub scalar_base_mult : Bytes → Bytes
  -- An AEAD for a key, or an error for one that has not the key's size.
  pub new_x : Bytes → Option Aead
  pub new_x-size : (key : Bytes) → length key ≡ 32 → (aead : Aead) × (new_x key ≡ some aead)
  -- The key pair of two files.
  pub load_x509_key_pair : String → String → Option Cert
  pub sum256 : Bytes → Bytes

module _ (lib : Libraries) where
  pub record CryptoEngine : Type 0 where
    pub private_key : Bytes
    pub public_key : Bytes
    pub aead : Aead
    pub tls_config : Option (TlsConfig lib.Cert)
    pub pins : Pins

  abbrev with_aead : Bytes → Option Aead → Option CryptoEngine
  with_aead private_key none = none
  with_aead private_key (some aead) = some (record {
    private_key = private_key;
    public_key = lib.scalar_base_mult private_key;
    aead = aead;
    tls_config = none;
    pins = no_pins;
  })

  -- The two readings of random bytes, each of which may fail.
  unfoldable pub new_crypto_engine : Option Bytes → Option Bytes → Option CryptoEngine
  new_crypto_engine none key = none
  new_crypto_engine (some private_key) none = none
  new_crypto_engine (some private_key) (some key) = with_aead private_key (lib.new_x key)

  abbrev with_cert : CryptoEngine → Option lib.Cert → CryptoEngine × Bool
  with_cert ce none = (ce, false)
  with_cert ce (some cert) = (
    record ce {
      tls_config = some (record {
        certificates = cert ∷ [];
        client_auth = no_client_cert;
        min_version = version_tls13;
        cipher_suites =
            tls_aes_128_gcm_sha256 ∷ tls_aes_256_gcm_sha384 ∷ tls_chacha20_poly1305_sha256 ∷ [];
      });
    },
    true,
  )

  -- The result says whether there was no error.
  unfoldable pub enable_tls_cert : CryptoEngine → String → String → CryptoEngine × Bool
  enable_tls_cert ce cert_file key_file = with_cert ce (lib.load_x509_key_pair cert_file key_file)

  unfoldable pub pin : CryptoEngine → Option Bytes → CryptoEngine × Bool
  pin ce raw =
      let (pins, done) = enable_certificate_pinning lib.sum256 ce.pins raw in
      (record ce { pins = pins }, done)

  unfoldable get_public_key : CryptoEngine → Bytes
  get_public_key ce = ce.public_key

  -- The calls that change an engine.
  pub data Call : Type 0 where
    enable_tls_cert_call : String → String → Call
    pin_call : Option Bytes → Call

  abbrev call : Call → CryptoEngine → CryptoEngine
  call (enable_tls_cert_call cert_file key_file) ce = (enable_tls_cert ce cert_file key_file).0
  call (pin_call raw) ce = (pin ce raw).0

  -- Newest call first.
  abbrev pub run : List Call → CryptoEngine → CryptoEngine
  run [] ce = ce
  run (c ∷ cs) ce = call c (run cs ce)

  -- The keys stay.
  record SameKeys (ce after : CryptoEngine) : Type 0 where
    private_key : after.private_key ≡ ce.private_key
    public_key : after.public_key ≡ ce.public_key
    aead : after.aead ≡ ce.aead

  with_cert-SameKeys :
      (ce before : CryptoEngine) (cert : Option lib.Cert)
      → SameKeys ce before
      → SameKeys ce (with_cert before cert).0
  with_cert-SameKeys ce before none h = h
  with_cert-SameKeys ce before (some cert) h = record {
    private_key = h.private_key;
    public_key = h.public_key;
    aead = h.aead;
  }

  run-SameKeys : (cs : List Call) (ce : CryptoEngine) → SameKeys ce (run cs ce)
  unfolding enable_tls_cert pin
  run-SameKeys [] ce = record { private_key = refl; public_key = refl; aead = refl }
  run-SameKeys (enable_tls_cert_call cert_file key_file ∷ cs) ce =
      with_cert-SameKeys ce (run cs ce) (lib.load_x509_key_pair cert_file key_file)
        (run-SameKeys cs ce)
  run-SameKeys (pin_call raw ∷ cs) ce =
      let h = run-SameKeys cs ce in
      record { private_key = h.private_key; public_key = h.public_key; aead = h.aead }

  -- `NewCryptoEngine` gives an engine whenever it gets its random bytes; and whatever is done with its
  -- certificate and its pins afterwards, it shows the public key of its private key, and decrypts what
  -- it encrypts with a nonce of the AEAD's size.
  new_crypto_engine-run :
      (private_key key plaintext : Bytes) (cs : List Call)
      → length key ≡ 32
      → (ce : CryptoEngine) × (new_crypto_engine (some private_key) (some key) ≡ some ce)
        × (get_public_key (run cs ce) ≡ lib.scalar_base_mult private_key)
        × ((nonce : Bytes)
            → length nonce ≡ (run cs ce).aead.nonce_size
            → (ciphertext : Bytes) × (encrypt (run cs ce).aead (some nonce) plaintext
                ≡ ok ciphertext)
              × (decrypt (run cs ce).aead ciphertext ≡ ok plaintext))
  unfolding new_crypto_engine get_public_key
  new_crypto_engine-run private_key key plaintext cs size =
      let (aead, made) = lib.new_x-size key size in
      (
        _,
        ap (with_aead private_key) made,
        (run-SameKeys cs _).public_key,
        λ nonce fits. decrypt-encrypt (run cs _).aead nonce plaintext fits,
      )
