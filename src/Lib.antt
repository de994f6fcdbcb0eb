-- ===== src/Lib.antt =====
-- Flames, a control plane for virtual machines: its service layer, the providers that it keeps its
-- state in, and its HTTP transport.
--
-- A client's request reaches `api.Service`, which knows the providers only as interfaces: a
-- `StateStore` with the VMs, the controllers and the event log, and a `WorkQueue` with leased jobs.
-- In development mode both are kept in memory.
--
--   Prelude      tests, integers and lists that the other modules share
--   Dict         Go's maps with string keys; the open order of `range` is a parameter
--   Runtime      clock, byte slices, `newID` over the random bytes it reads (Runtime/Hex is the text)
--   Model        model/*.go, the domain types
--   Providererr  provider/providererr/errors.go: `ProviderError`, sentinels, `errors.Is`, `errors.As`
--   Result       a value or an error, and calls that change a state
--   State        provider/state/state.go, the interface; State/Contract is what a store promises
--                over maps as functions, and histories of calls on any store that keeps it;
--                State/Shared is any store while other goroutines use it;
--                State/Listing is the loop of the listings; State/Memstate is
--                provider/state/memstate/memstate.go, held against the contract
--   Queue        provider/queue/queue.go, the interface; Queue/Memqueue is
--                provider/queue/memqueue/memqueue.go, with histories of calls as an indexed
--                relation (History), the index invariant (Valid), leases (Lease), redelivery
--                (Redelivery), the end of a job (Finality), a worker's loop over a list of
--                rounds (Drain), the order in which it gets the jobs (Order), and the job that a
--                call hands out (Handed)
--   Api          api/service.go over any two providers; its theorems ask that the store keeps the
--                contract; Api/Audit reads the event log, Api/Overlap is its requests on a shared
--                store
--   Cache        provider/cache/cache.go, with what a cache promises over values in time in
--                Cache/Contract; Cache/Memcache is provider/cache/memcache/memcache.go, by the
--                value of a key at a time (Live), along histories of calls (Refinement), as a lock
--                (Exclusion), and with the slices that callers write into (Slices)
--   Blob         provider/blob/blob.go; Blob/Memblob is provider/blob/memblob/memblob.go
--   Ingress      provider/ingress/ingress.go; Ingress/Noop is provider/ingress/noop/noop.go
--   Httpapi      what transport/httpapi reads of a request and calls on a response writer;
--                Httpapi/Errors is errors.go, Httpapi/Handler the handlers of handler.go,
--                Httpapi/Routes its routes, and Httpapi/Server the whole of it, from a request to
--                the calls on the response writer and the log line; Httpapi/Idempotency is
--                idempotency.go around any handler, `wrap` in two halves: to the end of the lookup
--                (`look_up`) and from there (`resume`), which its child Overlap puts in another order
--   Main         the server that cmd/flames-api/main.go puts together: served one request after the
--                other (Served, Audited, Reads), and on a shared store (Shared, Created,
--                Registered, Controllers)
--   Providertest providertest/*test/*.go, the conformance suites over any provider, each with its
--                run on the provider in memory
--   Tests        the runs on concrete inputs
--
-- How the code is read. Every method of the state store and of the queue holds the mutex while it
-- touches the maps, so a call is one step from a state to a result and a state, and concurrent
-- callers make some sequence of steps. A method keeps its Go name in lower case:
-- `UpdateVMDesiredState` is `update_vm_desired_state`. What a call takes from the runtime, the
-- time and sixteen random bytes, is its `Env` argument, and `hex.EncodeToString` of the bytes is
-- written out. A returned slice and the store's own are values here, so what a caller writes
-- into a slice that it got is modelled for the cache alone, in Cache/Memcache/Slices, where a
-- slice is the number of its array in a heap. Times are unbounded integers of nanoseconds from
-- Go's zero time; the counter `DequeueCount` wraps around at 2 ^ 63. No definition needs fuel:
-- every loop runs over a list. Contexts are ignored, as the code ignores them.
--
-- SHA-256, the formats of encoding/json, time.Parse and strconv.Atoi, and the handler that the
-- idempotency store wraps are arguments of the definitions that use them. The server handles
-- its requests one after the other; State/Shared puts any calls of other goroutines before each
-- of its calls on the store, except that a listing over a map, which changes nothing, sees the
-- state that the last call left. There the idempotency store is used by these requests alone.
-- The idempotency store and the cache hold their locks only for parts of a call; the
-- definitions are split at those places, and Httpapi/Idempotency/Overlap and
-- Cache/Memcache/Live put the parts of two calls in another order.
--
-- http.ServeMux is written out for the patterns that are registered: literals and wildcards of one
-- segment. A request carries the segments of its path as the router splits them. A report of a
-- conformance suite is its format; the suite's calls take what the runtime supplies to them by the
-- subtest's name and the call's number.
--
-- Not modelled: the flags, the signals and the listener of cmd/flames-api/main.go, which only do
-- input and output; the redirects of http.ServeMux for a path that is not clean; the text of a log
-- line; contexts and their cancellation, which no provider looks at.
pub mod Prelude
pub mod Dict
pub mod Runtime
pub mod Model
pub mod Providererr
pub mod Result
pub mod State
pub mod Queue
pub mod Api
pub mod Blob
pub mod Cache
pub mod Httpapi
pub mod Ingress
pub mod Main
pub mod Providertest
pub mod Tests
