-- ===== src/Httpapi/Routes.antt =====
-- transport/httpapi/handler.go: the routes that `NewHandler` registers, and how `http.ServeMux`
-- finds the one of a request. A path that is not clean is redirected before; it is no request here.
pub mod Disjoint
use flames.Prelude.{
  String, Bool, true, false, ◌&&◌, ◌||◌, Option, none, some, List, [], ◌∷◌, ◌==◌, string_eq,
  if◌then◌else◌,
}
use flames.Dict.{Dict}
use flames.Httpapi.{Request}

pub data Route : Type 0 where
  create_vm get_vm stop_vm delete_vm register_controller heartbeat list_controllers : Route
  list_events healthz : Route

-- A segment of a pattern: a text, or a wildcard in braces.
pub data Segment : Type 0 where
  lit wildcard : String → Segment

abbrev pub method : Route → String
method create_vm = "POST"
method get_vm = "GET"
method stop_vm = "POST"
method delete_vm = "DELETE"
method register_controller = "POST"
method heartbeat = "POST"
method list_controllers = "GET"
method list_events = "GET"
method healthz = "GET"

abbrev pub pattern : Route → List Segment
pattern create_vm = lit "v1" ∷ lit "vms" ∷ []
pattern get_vm = lit "v1" ∷ lit "vms" ∷ wildcard "vm_id" ∷ []
pattern stop_vm = lit "v1" ∷ lit "vms" ∷ wildcard "vm_id" ∷ lit "stop" ∷ []
pattern delete_vm = lit "v1" ∷ lit "vms" ∷ wildcard "vm_id" ∷ []
pattern register_controller = lit "v1" ∷ lit "controllers" ∷ []
pattern heartbeat = lit "v1" ∷ lit "controllers" ∷ wildcard "controller_id" ∷ lit "heartbeat" ∷ []
pattern list_controllers = lit "v1" ∷ lit "controllers" ∷ []
pattern list_events = lit "v1" ∷ lit "events" ∷ []
pattern healthz = lit "healthz" ∷ []

-- Whether `h.idem.wrap` stands around the handler.
abbrev pub wrapped : Route → Bool
wrapped create_vm = true
wrapped stop_vm = true
wrapped delete_vm = true
wrapped register_controller = true
wrapped _ = false

abbrev pub routes : List Route
routes =
    create_vm ∷ get_vm ∷ stop_vm ∷ delete_vm ∷ register_controller ∷ heartbeat ∷ list_controllers
    ∷ list_events ∷ healthz ∷ []

-- A wildcard takes one segment, which is not empty.
unfoldable pub fits_path : List Segment → List String → Bool
fits_path [] [] = true
fits_path (lit text ∷ more) (s ∷ ss) = text == s && fits_path more ss
fits_path (wildcard name ∷ more) (s ∷ ss) = (if s == "" then false else true) && fits_path more ss
fits_path _ _ = false

-- The segment that a wildcard took.
unfoldable pub value : String → List Segment → List String → String
value name (wildcard n ∷ more) (s ∷ ss) =
    let rest = value name more ss in if n == name then s else rest
value name (lit _ ∷ more) (_ ∷ ss) = value name more ss
value name _ _ = ""

-- A pattern with the method GET takes HEAD as well.
unfoldable pub fits_method : Route → String → Bool
fits_method route m = method route == m || (method route == "GET" && m == "HEAD")

abbrev pub fits : Request → Route → Bool
fits r route = fits_method route r.method && fits_path (pattern route) r.segments

unfoldable pub first_fit : Request → List Route → Option Route
first_fit r [] = none
first_fit r (route ∷ more) =
    let rest = first_fit r more in if fits r route then some route else rest

unfoldable pub find_route : Request → Option Route
find_route r = first_fit r routes

-- The methods of the routes whose pattern takes the path.
unfoldable pub methods_of_path : List String → List Route → List String
methods_of_path ss [] = []
methods_of_path ss (route ∷ more) =
    let rest = methods_of_path ss more in
    if fits_path (pattern route) ss then method route ∷ rest else rest
