-- ===== src/State.antt =====
-- server/webbou/state.go: the connection's state machine, the server's, health checks and the
-- circuit breaker.
pub mod Machine
pub mod Server
pub mod Health
pub mod Circuit
