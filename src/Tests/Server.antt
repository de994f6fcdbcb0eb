-- ===== src/Tests/Server.antt =====
-- Runs of the server on the stores in memory, and of requests and calls that overlap.
use flames.Prelude.{
  different, map, ◌∷◌, String, pos, ◌≡◌, ◌↔◌, refl, none, some, List, [], true, ◌-ℤ◌, All, arith,
  string_eq,
}
use flames.Dict.{lookup, insert}
use flames.Runtime.{to_bytes, new_id}
use flames.Runtime.Hex.{encode_to_string}
use flames.Model.{zero_spec}
use flames.State.Contract.{created}
use flames.State.Contract.History.{SameVm}
use flames.State.Memstate
use flames.State.Memstate.{memstate}
use flames.Queue.Memqueue
use flames.Queue.Memqueue.{memqueue}
use flames.Cache.Memcache
use mathlib.Core.List.{Perm}
use mathlib.Core.List.Perm
use flames.Cache.Contract.{kept}
use flames.Cache.Memcache.Live.{live, conclude-set}
use flames.Httpapi.{respond, Request, sent, sent_status}
use flames.Httpapi.Idempotency.{
  find_entry, new_idempotency_store, Pending, absent, look_up, resume, IdempotencyStore,
}
use flames.Httpapi.Idempotency.Replay.{Arrival, arrive}
use flames.Httpapi.Idempotency.Overlap.{look_up_each, resume_each, run_each, overlapping-run_each}
use flames.Httpapi.Routes.{find_route, first_fit, fits, fits_method, fits_path, create_vm}
use flames.Httpapi.Routes.Disjoint.{find_route-fits}
use flames.Httpapi.Server.{Turn, Library, State, handle, serve_mux, serve_http, serve_all}
use flames.Httpapi.Server.Logged.{serve_http-logged}
use flames.Httpapi.Server.Once.{IsWrapped, IsRepeat, arrival, serve_all-once}
use flames.Httpapi.Server.Histories.{BothCalls}
use flames.Httpapi.Server.Statuses.{HasLowStatus, ListsControllers}
use flames.Httpapi.Server.Statuses.Served.{serve_all-HasLowStatus}
use flames.State.Memstate.Refinement.{memstate_contract}
use flames.Main.{start}
use flames.Main.Served.{NotDrawn}
use flames.Tests.Data.{at, at-IsEnv, in_order}
use flames.Tests.Handler.{formats, request}

abbrev pub library : Library
library = record { formats = formats; sum256 = λ b. b; allow = λ ms. "" }

-- A request that takes the random bytes 1 and 2.
abbrev pub turn : Turn
turn = record {
  start = at 5 0;
  at_lookup = at 6 0;
  first_call = at 7 1;
  second_call = at 8 2;
  at_store = at 9 0;
  finish = at 10 0;
  order = in_order;
}

-- POST /v1/vms with a key
abbrev pub post : Request
post = record request { idempotency_key = "key" }

find_route-fits_example : (find_route post ≡ some create_vm) ↔ (fits post create_vm ≡ true)
find_route-fits_example = find_route-fits post create_vm

abbrev pub new_server : State library memstate memqueue
new_server = start library

serve_http-logged_example :
    let (below, line, _) = serve_http library memstate memqueue turn post new_server in
    (sent below ≡ sent (serve_mux library memstate memqueue turn post new_server).0)
    × (line.status ≡ sent_status below)
    × (line.method ≡ post.method)
    × (line.path ≡ post.path)
serve_http-logged_example = serve_http-logged library memstate memqueue turn post new_server

pub to_create : IsWrapped create_vm post
unfolding find_route first_fit fits_method fits_path string_eq
to_create = (refl, refl)

nothing_stored : (find_entry turn.at_lookup post.idempotency_key new_server.0).0 ≡ none
unfolding find_entry start lookup
nothing_stored = refl

repeated : All (IsRepeat "key" [] turn.at_store.now) ((turn, post) ∷ [])
unfolding ◌-ℤ◌
repeated = (((create_vm, to_create), refl, refl, refl), tt)

serve_all-once_example :
    let handled =
      handle library memstate memqueue turn create_vm
        (arrival library memstate memqueue turn create_vm post).request
        new_server.1 in
    let first = serve_http library memstate memqueue turn post new_server in
    let later = serve_all library memstate memqueue ((turn, post) ∷ []) first.2 in
    (first.2.1 ≡ handled.1)
    × (later.1 ≡ first.2)
    × (sent first.0 ≡ sent handled.0)
    × All (λ calls. sent calls ≡ sent handled.0) later.0
unfolding string_eq
serve_all-once_example =
    serve_all-once library memstate memqueue turn create_vm post new_server [] to_create
      (different "key" "" refl) refl nothing_stored ((turn, post) ∷ []) repeated

-- A server with one VM, of the ID that the bytes 3 make.
abbrev pub one_vm : State library memstate memqueue
one_vm = (
  new_idempotency_store,
  record { state = (Memstate.create_vm (at 5 3) zero_spec Memstate.new).1; queue = Memqueue.new },
)

abbrev pub its_id : String
its_id = "03030303030303030303030303030303"

pub stands : SameVm (created (at 5 3) zero_spec) (lookup its_id one_vm.1.state.vms)
unfolding Memstate.create_vm lookup insert new_id encode_to_string string_eq
stands = (refl, refl, refl, refl)

pub others : All (BothCalls (NotDrawn its_id)) ((turn, post) ∷ [])
unfolding new_id encode_to_string string_eq
others = (
  (
    different "01010101010101010101010101010101" its_id refl,
    different "02020202020202020202020202020202" its_id refl,
  ),
  tt,
)

-- A handler that counts its runs.
abbrev counted : Arrival (List Request)
counted = record {
  next = λ r rs. (respond 200 (to_bytes "done"), r ∷ rs);
  at_lookup = at 6 0;
  at_store = at 9 0;
  request = post;
}

-- The same request, looked up later.
abbrev overlapped : Arrival (List Request)
overlapped = record counted { at_lookup = at 7 0 }

abbrev counted_missed : Arrival (List Request) × Pending
counted_missed = (counted, absent [])

abbrev overlapped_missed : Arrival (List Request) × Pending
overlapped_missed = (overlapped, absent [])

-- Both requests after their lookups; the second goes on first.
abbrev swapped_order : List (Arrival (List Request) × Pending)
swapped_order = overlapped_missed ∷ counted_missed ∷ []

swapped-looked_up :
    Perm swapped_order
      (look_up_each
        (λ b. b)
        formats.encode_error
        (counted ∷ overlapped ∷ [])
        new_idempotency_store).0
unfolding look_up_each look_up find_entry lookup string_eq
swapped-looked_up = Perm.swap counted_missed overlapped_missed []

overlapping-run_each_example :
    let looked_up =
      look_up_each
        (λ b. b)
        formats.encode_error
        (counted ∷ overlapped ∷ [])
        new_idempotency_store in
    let (responses, st) =
      resume_each (λ b. b) formats.encode_error swapped_order (looked_up.1, []) in
    let (calls, w') = run_each (overlapped ∷ counted ∷ []) [] in
    ((d : Arrival (List Request)) (t : IdempotencyStore) (v : List Request)
      → let (p, t') = look_up (λ b. b) d.at_lookup d.request t in
        arrive (λ b. b) formats.encode_error d (t, v)
        ≡ resume (λ b. b) formats.encode_error d.next d.at_store d.request p (t', v))
    × (map sent responses ≡ map sent calls)
    × (st.1 ≡ w')
unfolding string_eq start
overlapping-run_each_example =
    overlapping-run_each (λ b. b) formats.encode_error "key" counted (overlapped ∷ [])
      new_idempotency_store [] swapped_order (different "key" "" refl)
      ((refl, ([], refl)), ((refl, ([], refl)), tt)) nothing_stored swapped-looked_up
      ((λ w. tt), ((λ w. tt), tt))

-- An entry that expired at time 20.
abbrev old_entry : Memcache.CacheEntry
old_entry = record { value = 7 ∷ []; expires_at = pos 20 }

old_expired : Memcache.expired (pos 40) old_entry ≡ true
old_expired = ground arith

conclude-set_example :
    let s' = (Memcache.set (at 30 1) "k" (8 ∷ []) (pos 100) Memcache.new).1 in
    (live (pos 50) (Memcache.conclude (at 40 1) "k" (some old_entry) s').1 "k" ≡ none)
    × (live (pos 50) (Memcache.get (at 40 1) "k" s').1 "k"
        ≡ kept (pos 50) (pos 30) (pos 100) (8 ∷ []))
conclude-set_example =
    conclude-set (at 40 1) (at 30 1) "k" old_entry (8 ∷ []) (pos 100) Memcache.new (pos 50)
      (at-IsEnv 30 1 (omega arith) (omega arith)) old_expired (omega arith)

listed : ListsControllers memstate
unfolding Memstate.list_controllers
listed order f s = (_, refl)

serve_all-HasLowStatus_example :
    All HasLowStatus
      (serve_all library memstate memqueue ((turn, post) ∷ (turn, request) ∷ []) new_server).0
unfolding start
serve_all-HasLowStatus_example =
    serve_all-HasLowStatus library memstate memqueue memstate_contract listed
      ((turn, post) ∷ (turn, request) ∷ []) new_server.1
