-- ===== src/Tests/Handler.antt =====
-- Runs of the VM handlers on the stores in memory.
use flames.Prelude.{◌∷◌, String, pos, none, some, [], ◌==◌, string_eq, if◌then◌else◌}
use flames.Runtime.{to_bytes}
use flames.Model.{zero_spec}
use flames.Result.{ok}
use flames.State.Memstate
use flames.State.Memstate.{memstate}
use flames.Queue.Memqueue
use flames.Queue.Memqueue.{memqueue}
use flames.Api
use flames.Api.{Service}
use flames.Httpapi.{Request}
use flames.Httpapi.Handler.{Formats}
use flames.Tests.Data.{at}

-- Formats that read every body as the empty spec and write texts as they are.
abbrev pub formats : Formats
formats = record {
  decode_spec = λ body. some zero_spec;
  decode_controller = λ body. none;
  decode_heartbeat = λ body. none;
  encode_id = to_bytes;
  encode_status = to_bytes;
  encode_vm = λ vm. to_bytes vm.id;
  encode_controller = λ c. to_bytes c.id;
  encode_controllers = λ cs. [];
  encode_events = λ es. [];
  encode_error = λ e. to_bytes e.code;
  parse_time = λ text. none;
  atoi = λ text. pos 0;
}

abbrev vm_id : String
vm_id = "01010101010101010101010101010101"

abbrev pub request : Request
request = record {
  method = "POST";
  path = "/v1/vms";
  segments = "v1" ∷ "vms" ∷ [];
  idempotency_key = "";
  path_value = λ name. if name == "vm_id" then vm_id else "";
  query = λ name. "";
  body = ok [];
}

abbrev empty : Service memstate memqueue
empty = record { state = Memstate.new; queue = Memqueue.new }

-- A service with one VM.
one_vm : Service memstate memqueue
one_vm = (Api.create_vm memstate memqueue (at 5 1) (at 6 2) zero_spec empty).1
