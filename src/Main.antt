-- ===== src/Main.antt =====
-- cmd/flames-api/main.go: the server with the providers of the development mode.
pub mod Served
pub mod Audited
pub mod Shared
pub mod Created
pub mod Reads
pub mod Registered
pub mod Controllers
use flames.State.Memstate
use flames.State.Memstate.{memstate}
use flames.Queue.Memqueue
use flames.Queue.Memqueue.{memqueue}
use flames.Api
use flames.Httpapi.Server.{Library, State, new_handler}

-- ss, wq, svc and handler
unfoldable pub start : (L : Library) → State L memstate memqueue
start L = new_handler L memstate memqueue (Api.new memstate memqueue Memstate.new Memqueue.new)
