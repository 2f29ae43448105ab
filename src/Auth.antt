-- ===== src/Auth.antt =====
-- server/webbou/auth.go: authenticated sessions, 0-RTT keys, flow control and multiple paths. Each
-- method holds its manager's lock while it works, so it is one function on the manager's state.
pub mod FlowControl
pub mod MultiPath
pub mod Sessions
pub mod Tokens
pub mod ZeroRtt
