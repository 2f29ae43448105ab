-- ===== src/Server/Program.antt =====
-- server/main_webbou.go: the program, from its flags to its exit. The flags are parsed by the library; the
-- goroutines of the server are those of `Server/Lifecycle`.
use web_bou.Prelude.{
  string_eq, ℕ, ◌+◌, ◌≡◌, refl, ap, sym, ◌∙◌, Option, none, some, List, [], ◌∷◌, ◌++◌, String,
}
use web_bou.Prelude.Int.{ℤ, pos}
use web_bou.Prelude.Clock.{Time}
use web_bou.Encoding.{Bytes}
use web_bou.Config.{ServerConfig}
use web_bou.Crypto.Engine.{
  Libraries, TlsConfig, no_client_cert, version_tls13, CryptoEngine, new_crypto_engine,
}
use web_bou.Limits.Float.{Float64}
use web_bou.Server.Create.{Parts, with_crypto, new_server}
use web_bou.Server.Lifecycle.{
  Listener, quic_listener, tcp_listener, Server, if_set, with_listeners, start_lem, StartResult,
  config_is_nil, no_listeners, started, start, ShutdownResult, stopped, context_error, finished,
  Reach, after_start,
}
use web_bou.Server.Lifecycle.Stopping.{running, loops_running, Reach-stopped}

pub record Flags : Type 0 where
  pub cert_file : String
  pub key_file : String
  pub tcp_addr : String
  pub quic_addr : String
  pub max_frame_size : ℤ

unfoldable pub default_flags : Flags
default_flags = record {
  cert_file = "cert.pem";
  key_file = "key.pem";
  tcp_addr = "0.0.0.0:8443";
  quic_addr = "";
  max_frame_size = pos 65536;
}

-- `log.Fatalf` ends the program at once.
pub data Outcome (Parts : Type 0) : Type 0 where
  certificates_failed server_failed start_failed : Outcome Parts
  serving : Parts → List Listener → Outcome Parts

module _ (lib : Libraries) (fl : Float64) where
  unfoldable pub config_of : Flags → lib.Cert → ServerConfig (TlsConfig lib.Cert)
  config_of flags cert = record {
    quic_addr = flags.quic_addr;
    tcp_addr = flags.tcp_addr;
    max_streams = pos 1000;
    max_frame_size = flags.max_frame_size;
    tls_config = some (record {
      certificates = cert ∷ [];
      client_auth = no_client_cert;
      min_version = version_tls13;
      cipher_suites = [];
    });
  }

  abbrev with_start : Parts lib fl → StartResult → Outcome (Parts lib fl)
  with_start server config_is_nil = start_failed
  with_start server no_listeners = start_failed
  with_start server (started ls) = serving server ls

  abbrev with_server : Option (Parts lib fl) → Outcome (Parts lib fl)
  with_server none = server_failed
  with_server (some server) = with_start server (start server.config)

  abbrev with_cert :
      Flags → Option Bytes → Option Bytes → ℕ → ℕ → Time → Option lib.Cert → Outcome (Parts lib fl)
  with_cert flags private_key key low high now none = certificates_failed
  with_cert flags private_key key low high now (some cert) =
      with_server (new_server lib fl (some (config_of flags cert)) private_key key low high now)

  -- Up to the point where the program waits for a signal.
  unfoldable pub main : Flags → Option Bytes → Option Bytes → ℕ → ℕ → Time → Outcome (Parts lib fl)
  main flags private_key key low high now =
      with_cert flags private_key key low high now
        (lib.load_x509_key_pair flags.cert_file flags.key_file)

  -- After the signal: the exit code, by what `Shutdown` returns.
  unfoldable exit_code : ShutdownResult → ℕ
  exit_code stopped = 0
  exit_code context_error = 1

  with_crypto-config :
      (config : Option (ServerConfig (TlsConfig lib.Cert))) (private_key key : Option Bytes)
      (low high : ℕ) (now : Time) (server : Parts lib fl)
      → new_server lib fl config private_key key low high now ≡ some server
      → server.config ≡ config
  unfolding new_server
  with_crypto-config config private_key key low high now server =
      by_crypto (new_crypto_engine lib private_key key)
    where
      config_of_parts : Option (Parts lib fl) → Option (ServerConfig (TlsConfig lib.Cert))
      config_of_parts none = config
      config_of_parts (some parts) = parts.config

      by_crypto :
          (crypto : Option (CryptoEngine lib))
          → with_crypto lib fl config low high now crypto ≡ some server
          → server.config ≡ config
      by_crypto none e = absurd (cc)
      by_crypto (some crypto) e = sym (ap config_of_parts e)

  -- What the program serves with is a server that started on its own configuration.
  record IsServing (flags : Flags) (server : Parts lib fl) (ls : List Listener) : Type 0 where
    cert : lib.Cert
    loaded : lib.load_x509_key_pair flags.cert_file flags.key_file ≡ some cert
    config : server.config ≡ some (config_of flags cert)
    begun : start server.config ≡ started ls

  main-IsServing :
      (flags : Flags) (private_key key : Option Bytes) (low high : ℕ) (now : Time)
      (server : Parts lib fl) (ls : List Listener)
      → main flags private_key key low high now ≡ serving server ls
      → IsServing flags server ls
  unfolding main
  main-IsServing flags private_key key low high now server ls =
      by_cert (lib.load_x509_key_pair flags.cert_file flags.key_file) refl
    where
      by_start :
          (cert : lib.Cert) (parts : Parts lib fl) (r : StartResult)
          → lib.load_x509_key_pair flags.cert_file flags.key_file ≡ some cert
          → parts.config ≡ some (config_of flags cert)
          → start parts.config ≡ r
          → with_start parts r ≡ serving server ls
          → IsServing flags server ls
      by_start cert parts config_is_nil l c b e = absurd (cc)
      by_start cert parts no_listeners l c b e = absurd (cc)
      by_start cert parts (started ks) l c b e =
          let same : parts ≡ server = cc in
          let loops : ks ≡ ls = cc in
          record {
            cert = cert;
            loaded = l;
            config = ap (λ p. p.config) (sym same) ∙ c;
            begun = ap (λ p. start p.config) (sym same) ∙ b ∙ ap started loops;
          }

      by_server :
          (cert : lib.Cert) (o : Option (Parts lib fl))
          → lib.load_x509_key_pair flags.cert_file flags.key_file ≡ some cert
          → new_server lib fl (some (config_of flags cert)) private_key key low high now ≡ o
          → with_server o ≡ serving server ls
          → IsServing flags server ls
      by_server cert none l c e = absurd (cc)
      by_server cert (some parts) l c e =
          by_start cert parts (start parts.config) l
            (with_crypto-config (some (config_of flags cert)) private_key key low high now parts c)
            refl e

      by_cert :
          (o : Option lib.Cert)
          → lib.load_x509_key_pair flags.cert_file flags.key_file ≡ o
          → with_cert flags private_key key low high now o ≡ serving server ls
          → IsServing flags server ls
      by_cert none l e = absurd (cc)
      by_cert (some cert) l e = by_server cert _ l refl e

  -- Where the program serves, the loops are those of the addresses in its flags. In every order of the
  -- goroutines' steps, the wait group counts the loops and connections that run; and once the `Shutdown`
  -- that closed the listeners has returned nil, no loop runs, no connection is left, and none ever comes
  -- again.
  pub main-stopped :
      (flags : Flags) (private_key key : Option Bytes) (low high : ℕ) (now : Time)
      (server : Parts lib fl) (ls : List Listener) {s t : Server}
      → main flags private_key key low high now ≡ serving server ls
      → Reach (after_start ls) s
      → Reach s t
      → (with_listeners (if_set flags.quic_addr quic_listener ++ if_set flags.tcp_addr tcp_listener)
          ≡ started ls)
        × (s.wait_group ≡ loops_running s.loops + s.connections)
        × (s.stopper ≡ finished → ((l : Listener) → running (t.loops l) ≡ 0) × (t.connections ≡ 0))
  unfolding config_of
  main-stopped flags private_key key low high now server ls e r later =
      let h = main-IsServing flags private_key key low high now server ls e in
      let begun = ap start (sym h.config) ∙ h.begun in
      let (counted, stop) = Reach-stopped (config_of flags h.cert) ls begun r later in
      (sym (start_lem (config_of flags h.cert)) ∙ begun, counted, stop)
