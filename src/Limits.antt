-- ===== src/Limits.antt =====
-- server/webbou/ratelimit.go and the protective parts of server/webbou/pool.go.
pub mod Float
pub mod RateLimiter
pub mod Connections
pub mod BackPressure
pub mod Ddos
