-- ===== src/Main/Created.antt =====
-- A VM from the request that creates it to the one that looks it up, while other requests are served
-- and other goroutines use the same store.
use flames.Prelude.{
  String, ◌≡◌, refl, sym, ap, ◌∙◌, inl, inr, Option-cases, some, List, [], ◌∷◌, All, subst,
  string_eq,
}
use flames.Dict.{lookup}
use flames.Runtime.{new_id}
use flames.Model.{Vm, VmSpec}
use flames.State.Contract.{created}
use flames.State.Contract.History.{History, run, Spares, SameVm}
use flames.State.Shared.{shared, meanwhile, first, rest, first-All, rest-All}
use flames.State.Memstate
use flames.State.Memstate.{Store, memstate}
use flames.State.Memstate.Refinement.{memstate_contract}
use flames.State.Memstate.Guarantees.{memstate-run-SameVm}
use flames.Queue.Memqueue
use flames.Queue.Memqueue.{memqueue}
use flames.Api
use flames.Api.{Service}
use flames.Api.Overlap.{create_vm_shared}
use flames.Httpapi.{Request, sent, respond}
use flames.Httpapi.Handler
use flames.Httpapi.Handler.{answer}
use flames.Httpapi.Idempotency.{IdempotencyStore}
use flames.Httpapi.Routes.{create_vm, get_vm, pattern, value, find_route}
use flames.Httpapi.Server.{Turn, Library, State, handle, serve_http, serve_all}
use flames.Httpapi.Server.Fresh.{IsFresh, handled, fresh-Runs, unwrapped-Runs}
use flames.Httpapi.Server.Histories.{BothCalls}
use flames.Main.Served.{NotDrawn}
use flames.Main.Shared.{left_over, serve_all_shared-keeps}

in_path :
    (id : String) (r : Request)
    → r.segments ≡ "v1" ∷ "vms" ∷ id ∷ []
    → value "vm_id" (pattern get_vm) r.segments ≡ id
unfolding value string_eq
in_path id r named = rw named refl

module _ (L : Library) (t : Turn) (r : Request) (entries : IdempotencyStore)
    (queue : Memqueue.Queue) (others : List History) (s : Store) where
  abbrev pub server : State L (shared memstate) memqueue
  server = (entries, record { state = (others, s); queue = queue })

  -- `POST /v1/vms`
  posted :
      (spec : VmSpec)
      → find_route r ≡ some create_vm
      → L.formats.decode_spec r.body ≡ some spec
      → IsFresh t r entries
      → All (Spares (new_id t.first_call.random)) (first (rest others))
      → let id = new_id t.first_call.random in
        let (calls, _, st') = serve_http L (shared memstate) memqueue t r server in
        (sent calls ≡ sent (respond 202 (L.formats.encode_id id)))
        × SameVm (created t.first_call spec) (lookup id st'.1.state.1.vms)
        × (st'.1.state.0 ≡ rest (rest others))
  unfolding handle Handler.create_vm
  posted spec to decoded fresh spared =
      let (response, after) =
        fresh-Runs L (shared memstate) memqueue t create_vm r server (to, refl) fresh in
      let (reply, stands, _, left) =
        create_vm_shared memstate memqueue memstate_contract t.first_call t.second_call queue spec
          others s spared in
      let reply_of = λ (id : String). respond 202 (L.formats.encode_id id) in
      let made =
        Api.create_vm (shared memstate) memqueue t.first_call t.second_call spec server.1 in
      let ran : handled L (shared memstate) memqueue t create_vm r server
          ≡ answer L.formats (shared memstate) memqueue reply_of made =
        rw (decoded, Handler.create_vm) refl in
      let done : handled L (shared memstate) memqueue t create_vm r server
          ≡ (reply_of (new_id t.first_call.random), made.1) =
        ran ∙ ap (λ m. answer L.formats (shared memstate) memqueue reply_of (m, made.1)) reply in
      let state = after ∙ ap (λ x. x.1) done in
      (
        response ∙ ap (λ x. sent x.0) done,
        subst
            (λ (x : Service (shared memstate) memqueue).
              SameVm (created t.first_call spec)
                (lookup (new_id t.first_call.random) x.state.1.vms))
            (sym state) stands,
        ap (λ (x : Service (shared memstate) memqueue). x.state.0) state ∙ left,
      )

  -- `GET /v1/vms/{vm_id}`
  got :
      (id : String) (vm : Vm)
      → find_route r ≡ some get_vm
      → r.segments ≡ "v1" ∷ "vms" ∷ id ∷ []
      → SameVm vm (lookup id s.vms)
      → All (Spares id) (first others)
      → (vm' : Vm) × SameVm vm (some vm')
        × (sent (serve_http L (shared memstate) memqueue t r server).0
            ≡ sent (respond 200 (L.formats.encode_vm vm')))
  unfolding handle Handler.get_vm Api.get_vm meanwhile Memstate.get_vm
  got id vm to named same spared =
      let (response, _) = unwrapped-Runs L (shared memstate) memqueue t get_vm r server to refl in
      let s' = run memstate (first others) s in
      let kept = memstate-run-SameVm (first others) s id vm spared same in
      elim (Option-cases (lookup id s'.vms)) [
        | inl p ↦ absurd (rw p at kept)
        | inr (vm', p) ↦
            (vm', rw p at kept, response ∙ rw (in_path id r named, p, Memstate.get_vm) refl)
      ]

module _ (L : Library) (t : Turn) (post : Request) (spec : VmSpec) (entries : IdempotencyStore)
    (queue : Memqueue.Queue) (others : List History) (s : Store) where
  -- A `POST /v1/vms` with a spec, and no idempotency key or one with no entry that is still alive, is
  -- answered with status 202 and the new ID. A `GET` of that ID that comes after any other requests
  -- is answered with status 200 and a VM of that ID with the spec, image and creation time that the
  -- `POST` gave it. Other goroutines may make any calls on the store before each call of these
  -- requests; no call after the one that creates the VM may draw its ID again.
  pub get_vm_after_create :
      find_route post ≡ some create_vm
      → L.formats.decode_spec post.body ≡ some spec
      → IsFresh t post entries
      → let id = new_id t.first_call.random in
        All (All (Spares id)) (rest others)
        → (rs : List (Turn × Request)) → All (BothCalls (NotDrawn id)) rs
        → (t' : Turn) (get : Request) → find_route get ≡ some get_vm
        → get.segments ≡ "v1" ∷ "vms" ∷ id ∷ []
        → let serve = serve_http L (shared memstate) memqueue in
          let first = serve t post (server L t post entries queue others s) in
          let later = serve_all L (shared memstate) memqueue rs first.2 in
          let last = serve t' get later.1 in
          (sent first.0 ≡ sent (respond 202 (L.formats.encode_id id)))
          × ((vm : Vm) × SameVm (created t.first_call spec) (some vm)
              × (sent last.0 ≡ sent (respond 200 (L.formats.encode_vm vm))))
  get_vm_after_create to decoded fresh spared rs drawn t' get to' named =
      let id = new_id t.first_call.random in
      let vm = created t.first_call spec in
      let (response, stands, left) =
        posted L t post entries queue others s spec to decoded fresh
          (first-All (Spares id) (rest others) spared) in
      let (entries', sv) =
        (serve_http L (shared memstate) memqueue t post
          (server L t post entries queue others s)).2 in
      let (others', s') = sv.state in
      let spared' : All (All (Spares id)) others' =
        subst (All (All (Spares id))) (sym left) (rest-All (Spares id) (rest others) spared) in
      let (kept, _) =
        serve_all_shared-keeps L rs entries' sv.queue others' s' id vm drawn spared' stands in
      let (entries'', sv') = (serve_all L (shared memstate) memqueue rs (entries', sv)).1 in
      let spared'' =
        left_over L rs entries' sv.queue others' s' (NotDrawn id) (Spares id) drawn spared' in
      (
        response,
        got L t' get entries'' sv'.queue sv'.state.0 sv'.state.1 id vm to' named kept
            (first-All (Spares id) sv'.state.0 spared''),
      )
