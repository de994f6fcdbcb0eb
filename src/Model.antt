-- ===== src/Model.antt =====
-- The domain types of model/*.go. Go's `int` and `int64` fields are integers, a
-- `map[string]string` is a `Dict`, a `[]byte` is a list of bytes.
use flames.Prelude.{String, Bool, ℤ, pos, List, []}
use flames.Dict.{Dict}
use flames.Runtime.{Time, Bytes, zero_time}

-- vm.go
abbrev pub DesiredState : Type 0
DesiredState = String

abbrev pub desired_running : DesiredState
desired_running = "running"

abbrev pub desired_stopped : DesiredState
desired_stopped = "stopped"

abbrev pub desired_deleted : DesiredState
desired_deleted = "deleted"

abbrev pub ObservedState : Type 0
ObservedState = String

abbrev pub observed_pending : ObservedState
observed_pending = "pending"

abbrev pub observed_scheduled : ObservedState
observed_scheduled = "scheduled"

abbrev pub observed_preparing : ObservedState
observed_preparing = "preparing"

abbrev pub observed_starting : ObservedState
observed_starting = "starting"

abbrev pub observed_running : ObservedState
observed_running = "running"

abbrev pub observed_stopping : ObservedState
observed_stopping = "stopping"

abbrev pub observed_stopped : ObservedState
observed_stopped = "stopped"

abbrev pub observed_failed : ObservedState
observed_failed = "failed"

abbrev pub observed_deleted : ObservedState
observed_deleted = "deleted"

pub record ResourceSpec : Type 0 where
  pub vcpus : ℤ
  pub memory_mb : ℤ

-- Any text may be sent for it; the source names "never", "on_failure" and "always".
abbrev pub RestartPolicy : Type 0
RestartPolicy = String

pub record LifecycleSpec : Type 0 where
  pub timeout_seconds : ℤ
  pub auto_delete : Bool
  pub restart_policy : RestartPolicy

pub record RuntimeSpec : Type 0 where
  pub command : String
  pub args : List String
  pub env : Dict String

pub record PortMapping : Type 0 where
  pub guest : ℤ
  pub host : ℤ
  pub protocol : String

pub record NetworkSpec : Type 0 where
  pub ports : List PortMapping

pub record StorageSpec : Type 0 where
  pub root_disk_size_mb : ℤ

pub record PlacementSpec : Type 0 where
  pub labels : Dict String

pub record VmSpec : Type 0 where
  pub resources : ResourceSpec
  pub lifecycle : LifecycleSpec
  pub runtime : RuntimeSpec
  pub network : NetworkSpec
  pub storage : StorageSpec
  pub placement : PlacementSpec
  pub metadata : Dict String

pub record Vm : Type 0 where
  pub id : String
  pub desired_state : DesiredState
  pub observed_state : ObservedState
  pub image_id : String
  pub controller_id : String
  pub spec : VmSpec
  pub created_at : Time
  pub updated_at : Time

-- controller.go
pub record CapacityInfo : Type 0 where
  pub total_vcpus : ℤ
  pub total_memory_mb : ℤ
  pub used_vcpus : ℤ
  pub used_memory_mb : ℤ

pub record Controller : Type 0 where
  pub id : String
  pub status : String
  pub labels : Dict String
  pub capacity : CapacityInfo
  pub last_heartbeat_at : Time

pub record Heartbeat : Type 0 where
  pub status : String
  pub capacity : CapacityInfo

pub record ControllerFilter : Type 0 where
  pub status : String
  pub limit : ℤ

-- event.go
pub record Event : Type 0 where
  pub id : String
  pub vm_id : String
  pub controller_id : String
  pub type : String
  pub payload : Bytes
  pub created_at : Time

pub record EventFilter : Type 0 where
  pub vm_id : String
  pub controller_id : String
  pub type : String
  pub since : Time
  pub limit : ℤ

-- job.go
pub record Job : Type 0 where
  pub id : String
  pub topic : String
  pub payload : Bytes
  pub lease_expires_at : Time
  pub enqueued_at : Time
  pub dequeue_count : ℤ

-- blob.go
pub record BlobMeta : Type 0 where
  pub key : String
  pub size : ℤ
  pub checksum : String
  pub content_type : String
  pub metadata : Dict String
  pub created_at : Time

-- endpoint.go
pub record Route : Type 0 where
  pub host : String
  pub path : String

pub record Target : Type 0 where
  pub address : String
  pub port : ℤ

pub record Endpoint : Type 0 where
  pub vm_id : String
  pub route : Route
  pub target : Target

-- The zero values that a composite literal leaves in the fields it does not name.
abbrev pub zero_spec : VmSpec
zero_spec = record {
  resources = record { vcpus = pos 0; memory_mb = pos 0 };
  lifecycle = record { timeout_seconds = pos 0; auto_delete = Bool.false; restart_policy = "" };
  runtime = record { command = ""; args = []; env = [] };
  network = record { ports = [] };
  storage = record { root_disk_size_mb = pos 0 };
  placement = record { labels = [] };
  metadata = [];
}

abbrev pub zero_event : Event
zero_event = record {
  id = "";
  vm_id = "";
  controller_id = "";
  type = "";
  payload = [];
  created_at = zero_time;
}
