-- ===== src/Config/Defaults.antt =====
-- server/webbou/config.go: which configurations the defaults reach.
use web_bou.Prelude.{
  ◌≤◌, string_eq, ℕ, suc, ◌≡◌, ◌≢◌, zero, refl, ap, sym, Bool-cases, inl, inr, Option, some, String,
  ◌==◌, arith,
}
use web_bou.Prelude.Int.{ℤ, pos, negsuc}
use web_bou.Prelude.Maps.{ne_other}
use web_bou.Encoding.{Bytes}
use Prim.Native.String.{◌++◌, count}
use text.Mathlib.TextLemmas.{length-append}
use web_bou.Config.{
  ServerConfig, if_zero, if_text, validate, default_server_config, zero_server_config, YamlConfig,
  loaded, address, load_server_config_from_yaml,
}

-- A host and a port, which is printed with one digit at least, are never just the colon.
address_ne_colon :
    (decimal : ℤ → String) (host : String) (port : ℤ)
    → 1 ≤ count (decimal port)
    → address decimal host port ≢ ":"
unfolding address
address_ne_colon decimal host port h = λ e.
    let one : count ":" ≡ 1 = refl in
    omega (
      arith,
      ap count e,
      length-append host (":" ++ decimal port),
      length-append ":" (decimal port),
      one,
    )

if_text-cases :
    (s t d : String) → t ≢ d → (if_text s t d ≢ t) × (if_text (if_text s t d) t d ≡ if_text s t d)
if_text-cases s t d h = elim (Bool-cases (s == t)) [
  | inl e ↦ (rw (e) (λ k. h (sym k)), rw (e, ne_other d t (λ k. h (sym k))))
  | inr n ↦ (rw (n) (λ k. let same = (string_eq.beq_iff s t).1 k in cc), rw (n, n))
]

if_text-other : (s t d : String) → s ≢ t → if_text s t d ≡ s
if_text-other s t d n = rw (ne_other s t n)

if_zero-if_zero :
    (z : ℤ) (n : ℕ) → if_zero (if_zero z (pos (suc n))) (pos (suc n)) ≡ if_zero z (pos (suc n))
if_zero-if_zero (pos zero) n = refl
if_zero-if_zero (pos (suc k)) n = refl
if_zero-if_zero (negsuc k) n = refl

if_zero_ne : (z : ℤ) (n : ℕ) → if_zero z (pos (suc n)) ≢ pos 0
if_zero_ne (pos zero) n = λ e. cc
if_zero_ne (pos (suc k)) n = λ e. cc
if_zero_ne (negsuc k) n = λ e. cc

module _ {Tls : Type 0} where
  -- A configuration is filled: no field that has a default has the value that asks for it.
  abbrev IsFilled : ServerConfig Tls → Type 0
  IsFilled c =
      (c.quic_addr ≢ "") × (c.tcp_addr ≢ "") × (c.max_streams ≢ pos 0) × (c.max_frame_size ≢ pos 0)

  -- `Validate` fills every configuration, does nothing to one that it has filled, and makes the default
  -- configuration of the empty one.
  validate-IsFilled :
      (c : ServerConfig Tls)
      → IsFilled (validate c)
        × (validate (validate c) ≡ validate c)
        × (validate (zero_server_config {Tls = Tls}) ≡ default_server_config)
  unfolding validate zero_server_config default_server_config
  validate-IsFilled c =
      let quic = if_text-cases c.quic_addr "" "0.0.0.0:8443" (λ e. cc) in
      let tcp = if_text-cases c.tcp_addr "" "0.0.0.0:8444" (λ e. cc) in
      (
        (quic.0, tcp.0, if_zero_ne c.max_streams 99, if_zero_ne c.max_frame_size 65535),
        rw (
          quic.1,
          tcp.1,
          if_zero-if_zero c.max_streams 99,
          if_zero-if_zero c.max_frame_size 65535,
        ),
        refl,
      )

  -- The configuration that a file gives, where a port is printed with at least one digit: the addresses
  -- are always host, colon and port, so that the default addresses are never taken, whatever the file
  -- leaves out; the number of streams stays 0.
  load-address :
      (unmarshal : Bytes → Option YamlConfig)
      → (decimal : ℤ → String) → (file : Bytes) → (y : YamlConfig)
      → ((port : ℤ) → 1 ≤ count (decimal port))
      → unmarshal file ≡ some y
      → load_server_config_from_yaml {Tls = Tls} unmarshal decimal (some file)
        ≡ loaded (record zero_server_config {
          quic_addr = address decimal y.quic_host y.quic_port;
          tcp_addr = address decimal y.tcp_host y.tcp_port;
          max_frame_size = if_zero y.limits_max_frame_size (pos 65536);
        })
  unfolding load_server_config_from_yaml
  load-address unmarshal decimal file y digits e =
      let quic = address_ne_colon decimal y.quic_host y.quic_port (digits y.quic_port) in
      let tcp = address_ne_colon decimal y.tcp_host y.tcp_port (digits y.tcp_port) in
      rw (
        e,
        if_text-other (address decimal y.quic_host y.quic_port) ":" "0.0.0.0:8443" quic,
        if_text-other (address decimal y.tcp_host y.tcp_port) ":" "0.0.0.0:8444" tcp,
      )
