-- ===== src/Config.antt =====
-- server/webbou/config.go: the server's configuration, its defaults, and the manager that holds the
-- current one. A pointer that may be nil is an `Option`; the TLS configuration, which is only passed on,
-- is of any type. The YAML library's `Unmarshal` and the printing of an `int` are parameters.
pub mod Manager
pub mod Defaults
use web_bou.Prelude.{
  string_eq, zero, suc, ◌≡◌, Bool, true, false, Option, none, some, String, if◌then◌else◌, ◌==◌,
}
use web_bou.Prelude.Int.{ℤ, pos, negsuc}
use web_bou.Encoding.{Bytes}
use Prim.Native.String.{◌++◌}

pub record ServerConfig (Tls : Type 0) : Type 0 where
  pub quic_addr : String
  pub tcp_addr : String
  pub max_streams : ℤ
  pub max_frame_size : ℤ
  pub tls_config : Option Tls

-- `if n == 0 { n = d }` and `if s == t { s = d }`.
abbrev if_zero : ℤ → ℤ → ℤ
if_zero (pos zero) d = d
if_zero (pos (suc n)) d = pos (suc n)
if_zero (negsuc n) d = negsuc n

abbrev if_text : String → String → String → String
if_text s t d = if s == t then d else s

module _ {Tls : Type 0} where
  -- The error is always nil.
  unfoldable validate : ServerConfig Tls → ServerConfig Tls
  validate c = record c {
    quic_addr = if_text c.quic_addr "" "0.0.0.0:8443";
    tcp_addr = if_text c.tcp_addr "" "0.0.0.0:8444";
    max_streams = if_zero c.max_streams (pos 100);
    max_frame_size = if_zero c.max_frame_size (pos 65536);
  }

  unfoldable pub default_server_config : ServerConfig Tls
  default_server_config = record {
    quic_addr = "0.0.0.0:8443";
    tcp_addr = "0.0.0.0:8444";
    max_streams = pos 100;
    max_frame_size = pos 65536;
    tls_config = none;
  }

  -- `&ServerConfig{}`
  unfoldable pub zero_server_config : ServerConfig Tls
  zero_server_config = record {
    quic_addr = "";
    tcp_addr = "";
    max_streams = pos 0;
    max_frame_size = pos 0;
    tls_config = none;
  }

-- The fields of the file that are read.
record YamlConfig : Type 0 where
  pub quic_host : String
  pub quic_port : ℤ
  pub tcp_host : String
  pub tcp_port : ℤ
  pub limits_max_frame_size : ℤ

pub data Loaded (A : Type 0) : Type 0 where
  read_error : Loaded A
  parse_error : Loaded A
  loaded : A → Loaded A

-- fmt.Sprintf("%s:%d", host, port)
unfoldable pub address : (ℤ → String) → String → ℤ → String
address decimal host port = host ++ (":" ++ decimal port)

module _ {Tls : Type 0} (unmarshal : Bytes → Option YamlConfig) (decimal : ℤ → String) where
  abbrev config_of : YamlConfig → ServerConfig Tls
  config_of y = record zero_server_config {
    quic_addr = if_text (address decimal y.quic_host y.quic_port) ":" "0.0.0.0:8443";
    tcp_addr = if_text (address decimal y.tcp_host y.tcp_port) ":" "0.0.0.0:8444";
    max_frame_size = if_zero y.limits_max_frame_size (pos 65536);
  }

  abbrev parsed : Option YamlConfig → Loaded (ServerConfig Tls)
  parsed none = parse_error
  parsed (some y) = loaded (config_of y)

  -- The argument is what reading the file gives.
  unfoldable load_server_config_from_yaml : Option Bytes → Loaded (ServerConfig Tls)
  load_server_config_from_yaml none = read_error
  load_server_config_from_yaml (some file) = parsed (unmarshal file)
