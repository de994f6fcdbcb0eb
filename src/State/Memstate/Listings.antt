-- ===== src/State/Memstate/Listings.antt =====
-- The two listings that range over a map, for any order of the loop.
use flames.Model.{observed_pending, Vm, Controller, ControllerFilter}
use flames.Prelude.{
  ◌≡◌, refl, sym, ap, ◌∙◌, fun_ext, Bool, ◌||◌, List, [], ◌∷◌, ◌++◌, Perm, length, length-perm,
  filter, arith, ◌==◌, string_eq,
}
use mathlib.Core.List.{append-nil, append_assoc}
use mathlib.Core.List.Perm
use flames.Dict.{Dict, Range, values}
use flames.Result.{ok}
use flames.State.Listing.{collect-up_to, keeps, up_to, length-up_to}
use flames.State.Memstate.{
  Store, list_pending_vms, collect_pending, list_controllers, skips_controller,
}

abbrev pub is_pending : Vm → Bool
is_pending vm = vm.observed_state == observed_pending

collect_pending-filter :
    (result : List Vm) (m : Dict Vm)
    → collect_pending result m ≡ result ++ filter is_pending (values m)
unfolding collect_pending
collect_pending-filter result [] = sym (append-nil result)
collect_pending-filter result ((k, vm) ∷ m) = ground (
  arith,
  collect_pending-filter result m,
  collect_pending-filter (result ++ vm ∷ []) m,
  append_assoc result (vm ∷ []) (filter is_pending (values m)),
)

values-visit-perm : {V : Type 0} (r : Range V) (m : Dict V) → Perm (values (r.visit m)) (values m)
values-visit-perm r m = Perm.map (λ e. e.1) (r.visit-perm m)

-- `ListPendingVMs` succeeds, changes nothing, and lists the pending VMs of the store, each once.
pub list_pending_vms-perm :
    (r : Range Vm) (s : Store)
    → (vms : List Vm) × (list_pending_vms r s ≡ (ok vms, s))
      × Perm vms (filter is_pending (values s.vms))
unfolding list_pending_vms
list_pending_vms-perm r s = (
  collect_pending [] (r.visit s.vms),
  refl,
  rw collect_pending-filter (Perm.filter _ (values-visit-perm r s.vms)),
)

abbrev pub has_status : ControllerFilter → Controller → Bool
has_status f c = f.status == "" || c.status == f.status

keeps-has_status : (f : ControllerFilter) → keeps (skips_controller f) ≡ has_status f
unfolding skips_controller
keeps-has_status f = fun_ext λ c. ground arith

-- `ListControllers` succeeds, changes nothing, and lists the first `limit` controllers with the
-- wanted status in some order of all controllers of the store, or all of them if the limit is not
-- positive.
pub list_controllers-up_to :
    (r : Range Controller) (f : ControllerFilter) (s : Store)
    → (order : List Controller) × Perm order (values s.controllers)
      × (list_controllers r f s ≡ (ok (up_to f.limit (filter (has_status f) order)), s))
unfolding list_controllers
list_controllers-up_to r f s = (
  values (r.visit s.controllers),
  values-visit-perm r s.controllers,
  ap (λ l. (ok l, s))
      (collect-up_to (skips_controller f) f.limit _
        ∙ ap (λ (p : Controller → Bool). up_to f.limit (filter p (values (r.visit s.controllers))))
            (keeps-has_status f)),
)

-- How many controllers are listed does not depend on the order of the loop.
pub length-list_controllers :
    (r : Range Controller) (f : ControllerFilter) (s : Store)
    → (cs : List Controller) × (list_controllers r f s ≡ (ok cs, s))
      × (length cs ≡ length (up_to f.limit (filter (has_status f) (values s.controllers))))
length-list_controllers r f s =
    let (order, p, q) = list_controllers-up_to r f s in
    (
      up_to f.limit (filter (has_status f) order),
      q,
      length-up_to f.limit _ _ (length-perm (Perm.filter _ p)),
    )
