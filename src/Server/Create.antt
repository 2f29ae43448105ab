-- ===== src/Server/Create.antt =====
-- server/webbou/server.go, `NewServer`: the server with all its parts. The water marks of the back pressure
-- monitor are computed by float64 from the thresholds, and are arguments.
use web_bou.Prelude.{ℕ, ◌*◌, Option, none, some, List, []}
use web_bou.Prelude.Clock.{Time, minute}
use web_bou.Encoding.{Bytes}
use web_bou.Protocol.{Frame}
use web_bou.Config.{ServerConfig}
use web_bou.Crypto.Engine.{Libraries, TlsConfig, CryptoEngine, new_crypto_engine}
use web_bou.Limits.Float.{Float64}
use web_bou.Limits.RateLimiter.{RateLimiter, new_rate_limiter}
use web_bou.Limits.Connections.{ConnectionRateLimiter, new_connection_rate_limiter}
use web_bou.Limits.BackPressure.{BackPressureMonitor, new_back_pressure_monitor}
use web_bou.Limits.Ddos.{DdosProtector, new_ddos_protector}
use web_bou.Auth.Sessions.{SessionManager, new_session_manager}
use web_bou.Pool.{BufferPool, new_buffer_pool}
use web_bou.Pool.Reputation.{IpReputationManager, new_ip_reputation_manager}

module _ (lib : Libraries) (fl : Float64) where
  -- The listeners, sessions and goroutines are in `Server.Lifecycle` and `Server.Network`.
  pub record Parts : Type 0 where
    pub config : Option (ServerConfig (TlsConfig lib.Cert))
    pub crypto : CryptoEngine lib
    pub rate_limiter : RateLimiter fl
    pub conn_limiter : ConnectionRateLimiter
    pub session_manager : SessionManager
    pub buffer_pool : BufferPool
    pub frame_pool : List Frame
    pub back_pressure : BackPressureMonitor
    pub ddos_protector : DdosProtector fl
    pub ip_reputation : IpReputationManager

  abbrev pub with_crypto :
      Option (ServerConfig (TlsConfig lib.Cert))
      → ℕ
      → ℕ
      → Time
      → Option (CryptoEngine lib)
      → Option Parts
  with_crypto config low high now none = none
  with_crypto config low high now (some crypto) = some (record {
    config = config;
    crypto = crypto;
    rate_limiter = new_rate_limiter fl (fl.of_nat 1000) (fl.of_nat 100) now;
    conn_limiter = new_connection_rate_limiter 10;
    session_manager = new_session_manager (30 * minute);
    buffer_pool = new_buffer_pool 8192;
    frame_pool = [];
    back_pressure = new_back_pressure_monitor low high;
    ddos_protector = new_ddos_protector fl 100 60 now;
    ip_reputation = new_ip_reputation_manager;
  })

  -- `none` is the error of the random bytes or of the AEAD.
  unfoldable pub new_server :
      Option (ServerConfig (TlsConfig lib.Cert))
      → Option Bytes
      → Option Bytes
      → ℕ
      → ℕ
      → Time
      → Option Parts
  new_server config private_key key low high now =
      with_crypto config low high now (new_crypto_engine lib private_key key)
