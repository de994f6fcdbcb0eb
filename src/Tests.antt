-- ===== src/Tests.antt =====
-- Runs of the definitions on small concrete inputs, one for each theorem with a hypothesis.
pub mod Data
pub mod Suites
pub mod Memqueue
pub mod Memstate
pub mod Api
pub mod Cache
pub mod Slices
pub mod Providers
pub mod Httpapi
pub mod Handler
pub mod Server
pub mod Shared
pub mod Registered
