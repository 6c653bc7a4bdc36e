-- ===== src/Router.antt =====
-- The package router: router/loadbalance.go and the handlers that Router.Add chains.
pub mod Exchange
pub mod Retry
pub mod Balance
pub mod Proxy
pub mod CircuitBrake
pub mod Server
pub mod Routes
mod Tests
mod HandlerTests
pub mod Match
pub mod RoundRobin
