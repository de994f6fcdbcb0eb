-- ===== src/Tests/Registered.antt =====
-- Runs of a controller's requests while other goroutines use the store, and of a worker on the queue.
use flames.Prelude.{pos, ◌≡◌, refl, some, inl, List, [], ◌∷◌, map, arith, string_eq}
use flames.Dict.{lookup, insert}
use flames.Runtime.{Env, Bytes, to_bytes, new_id}
use flames.Runtime.Hex.{encode_to_string}
use flames.Model.{Controller, Heartbeat}
use flames.Providererr.{already_exists, err_no_jobs}
use flames.Queue.Memqueue
use flames.Queue.Memqueue.{memqueue, entries}
use flames.Queue.Memqueue.Drain.{drain}
use flames.Queue.Memqueue.Order.{enqueue_all, AllFresh, drain-enqueue_all}
use flames.Queue.Memqueue.Valid.{new-IsValid}
use flames.State.Memstate
use flames.State.Memstate.{memstate}
use flames.State.Contract.History.{run}
use flames.State.Shared.{shared}
use flames.Httpapi.{Request, respond, sent}
use flames.Httpapi.Errors.{write_error}
use flames.Httpapi.Idempotency.{new_idempotency_store}
use flames.Httpapi.Routes.{
  find_route, first_fit, fits_method, fits_path, register_controller, heartbeat,
}
use flames.Httpapi.Server.{Library, serve_http}
use flames.Main.Controllers.{
  after_post, after_all, register_controller_once, heartbeat_after_register,
}
use flames.Tests.Data.{at}
use flames.Tests.Handler.{formats, request}
use flames.Tests.Server.{library, turn}

abbrev node : Controller
node = record {
  id = "node-1";
  status = "ready";
  labels = [];
  capacity = record {
    total_vcpus = pos 4;
    total_memory_mb = pos 8;
    used_vcpus = pos 0;
    used_memory_mb = pos 0;
  };
  last_heartbeat_at = pos 0;
}

abbrev busy : Heartbeat
busy = record { status = "busy"; capacity = node.capacity }

-- Formats that read every body as the controller, or as the heartbeat.
abbrev reading : Library
reading = record library {
  formats = record formats {
    decode_controller = λ body. some node;
    decode_heartbeat = λ body. some busy;
  };
}

-- POST /v1/controllers
abbrev post : Request
post = record request { segments = "v1" ∷ "controllers" ∷ [] }

-- POST /v1/controllers/{controller_id}/heartbeat
abbrev beat : Request
beat = record request { segments = "v1" ∷ "controllers" ∷ "node-1" ∷ "heartbeat" ∷ [] }

to_register : find_route post ≡ some register_controller
unfolding find_route first_fit fits_method fits_path string_eq
to_register = refl

to_beat : find_route beat ≡ some heartbeat
unfolding find_route first_fit fits_method fits_path string_eq
to_beat = refl

register_controller_once_example :
    let after = after_all reading turn post new_idempotency_store Memqueue.new [] Memstate.new [] in
    (sent (after_post reading turn post new_idempotency_store Memqueue.new [] Memstate.new).0
      ≡ sent (respond 201 (reading.formats.encode_controller node)))
    × (sent (serve_http reading (shared memstate) memqueue turn post after).0
        ≡ sent (write_error reading.formats.encode_error (already_exists "controller" "node-1")))
unfolding lookup run
register_controller_once_example =
    register_controller_once reading turn post node new_idempotency_store Memqueue.new []
      Memstate.new to_register refl (inl refl) refl [] turn post node to_register refl refl
      (inl refl)

heartbeat_after_register_example :
    let (calls, _, st') =
      serve_http reading
        (shared memstate)
        memqueue
        turn
        beat
        (after_all reading turn post new_idempotency_store Memqueue.new [] Memstate.new []) in
    (sent (after_post reading turn post new_idempotency_store Memqueue.new [] Memstate.new).0
      ≡ sent (respond 201 (reading.formats.encode_controller node)))
    × (sent calls ≡ sent (respond 200 (reading.formats.encode_status "ok")))
    × (lookup "node-1" st'.1.state.1.controllers
        ≡ some (record {
          id = "node-1";
          status = "busy";
          labels = [];
          capacity = node.capacity;
          last_heartbeat_at = turn.first_call.now;
        }))
unfolding lookup run
heartbeat_after_register_example =
    heartbeat_after_register reading turn post node new_idempotency_store Memqueue.new []
      Memstate.new to_register refl (inl refl) refl [] turn beat busy to_beat refl refl

-- Two jobs, and three rounds.
abbrev two_jobs : List (Env × Bytes)
two_jobs = (at 5 1, to_bytes "a") ∷ (at 5 2, to_bytes "b") ∷ []

abbrev rounds : List Env
rounds = at 6 0 ∷ at 7 0 ∷ at 8 0 ∷ []

two_fresh : AllFresh "topic" two_jobs Memqueue.new
unfolding lookup insert Memqueue.enqueue new_id encode_to_string string_eq
two_fresh = (refl, (refl, tt))

none_yet : entries Memqueue.new "topic" ≡ []
unfolding entries lookup
none_yet = refl

drain-enqueue_all_example :
    let (told, handed, r) =
      drain "topic" (pos 9) rounds (enqueue_all "topic" two_jobs Memqueue.new) in
    (told ≡ some err_no_jobs)
    × (map (λ job. job.payload) handed ≡ to_bytes "a" ∷ to_bytes "b" ∷ [])
    × (map (λ job. job.id) handed ≡ new_id (at 5 1).random ∷ new_id (at 5 2).random ∷ [])
    × (entries r "topic" ≡ [])
drain-enqueue_all_example =
    drain-enqueue_all "topic" (pos 9) two_jobs rounds Memqueue.new new-IsValid none_yet two_fresh
      (omega arith)
