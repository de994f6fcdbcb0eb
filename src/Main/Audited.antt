-- ===== src/Main/Audited.antt =====
-- What the event log of the server tells of its VMs.
use flames.Prelude.{String, ◌≡◌, refl, none, List}
use flames.Dict.{lookup}
use flames.Httpapi.{Request}
use flames.Httpapi.Server.{Turn, Library, serve_all}
use flames.Httpapi.Server.Histories.{serve_all-invariant}
use flames.Httpapi.Server.Audit.{Made-IsAudited}
use flames.Api.Audit.{is_there, logged, desired_of, replayed, Waits, IsAudited}
use flames.State.Memstate.{Store, memstate}
use flames.State.Memstate.Refinement.{memstate_contract}
use flames.Queue.Memqueue.{memqueue}
use flames.Api
use flames.Main.{start}
use flames.Main.Served.{lists}

abbrev Audited : Store → Type 0
Audited s = IsAudited (memstate_contract.view s)

new_server-Audited : (L : Library) → Audited (start L).1.state
unfolding start replayed logged lookup Api.new
new_server-Audited L = record { desired = λ id. refl; created = λ id. refl; waiting = λ id. tt }

-- Whatever requests the server of main.go has served one after the other, with no other calls on its
-- store: a VM stands under an ID exactly if a "vm.created" of the ID was logged; replaying the event
-- log from its start, where a "vm.created", "vm.stop_requested" or "vm.delete_requested" of the ID
-- says "running", "stopped" or "deleted", gives its desired state, and none if no VM stands; and every
-- VM is observed as pending, and no controller has it.
pub serve_all-audited :
    (L : Library) (rs : List (Turn × Request)) (id : String)
    → let s = (serve_all L memstate memqueue rs (start L)).1.1.state in
      (is_there (lookup id s.vms) ≡ logged id "vm.created" s.events)
      × (desired_of (lookup id s.vms) ≡ replayed id none s.events)
      × Waits (lookup id s.vms)
serve_all-audited L rs id =
    let all =
      serve_all-invariant L memstate memqueue lists Audited
        (λ t h s made a. Made-IsAudited memstate memstate_contract t h s made a) rs (start L)
        (new_server-Audited L) in
    (all.created id, all.desired id, all.waiting id)
