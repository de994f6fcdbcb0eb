-- ===== src/Httpapi/Idempotency/Overlap.antt =====
-- Requests with one key that overlap: `wrap` holds its lock for the lookup and again for the store of
-- the response, not in between.
use flames.Prelude.{
  map, ap, refl, ◌∙◌, String, ◌≡◌, ◌≢◌, none, List, [], ◌∷◌, All, arith, string_eq, Bool, true,
  false, ◌&&◌, Perm,
}
use mathlib.Core.List.{Permᴰ}
use mathlib.Core.Logic.{∥∥₁_elim}
use mathlib.Core.Bool.{Bool-discrete}
use flames.Dict.{lookup, lookup-erase}
use flames.Runtime.{Env, Bytes}
use flames.Result.{ok}
use flames.Httpapi.{WriterCall, sent}
use flames.Httpapi.Errors.{ErrorResponse}
use flames.Httpapi.Idempotency.{
  IdempotencyStore, Pending, absent, present, without_key, unreadable, find_entry, execute, look_up,
  resume, wrap,
}
use flames.Httpapi.Idempotency.Recorder.{HeaderFirst, record_calls-sent}
use flames.Httpapi.Idempotency.Replay.{Arrival, arrive}

-- The handlers alone.
unfoldable pub run_each : {W : Type 0} → List (Arrival W) → W → List (List WriterCall) × W
run_each [] w = ([], w)
run_each (c ∷ cs) w =
    let (calls, w') = c.next c.request w in
    let (others, w'') = run_each cs w' in (calls ∷ others, w'')

-- A request that names the key and whose body can be read.
abbrev pub Names : {W : Type 0} → String → Arrival W → Type 0
Names key c = (c.request.idempotency_key ≡ key) × ((body : Bytes) × (c.request.body ≡ ok body))

-- No handler calls `WriteHeader` for the first time after a `Write`.
abbrev pub AllHeaderFirst : {W : Type 0} → List (Arrival W) → Type 0
AllHeaderFirst = All (λ c. (w : _) → HeaderFirst (c.next c.request w).0)

-- After a lookup that found nothing there is no entry.
find_entry-absent :
    (e : Env) (key : String) (s : IdempotencyStore)
    → (find_entry e key s).0 ≡ none
    → lookup key (find_entry e key s).1.entries ≡ none
unfolding find_entry
find_entry-absent e key s h = ground (arith, h, lookup-erase key key s.entries)

find_entry-none :
    (e : Env) (key : String) (s : IdempotencyStore)
    → lookup key s.entries ≡ none
    → find_entry e key s ≡ (none, s)
unfolding find_entry
find_entry-none e key s h = ground (arith, h)

-- The lookup found no entry.
abbrev pub missed : Pending → Bool
missed (absent hash) = true
missed _ = false

unfoldable all_missed : {W : Type 0} → List (Arrival W × Pending) → Bool
all_missed [] = true
all_missed ((c, p) ∷ rest) = let others = all_missed rest in missed p && others

module _ {W : Type 0} where
  all_missed-permuted :
      {xs ys : List (Arrival W × Pending)} → Permᴰ xs ys → all_missed xs ≡ all_missed ys
  unfolding all_missed
  all_missed-permuted Permᴰ.nil = refl
  all_missed-permuted (Permᴰ.cons p q) = rw (p, all_missed-permuted q) refl
  all_missed-permuted (Permᴰ.swap p q) = rw (p, q) (ground arith)
  all_missed-permuted (Permᴰ.trans p q) = all_missed-permuted p ∙ all_missed-permuted q

  all_missed-perm :
      {xs ys : List (Arrival W × Pending)} → Perm xs ys → all_missed xs ≡ all_missed ys
  all_missed-perm p = ∥∥₁_elim p (hlevel Bool-discrete) all_missed-permuted

module _ (sum256 : Bytes → Bytes) (encode : ErrorResponse → Bytes) {W : Type 0} where
  -- The first halves of `wrap`, one after the other.
  unfoldable pub look_up_each :
      List (Arrival W) → IdempotencyStore → List (Arrival W × Pending) × IdempotencyStore
  look_up_each [] s = ([], s)
  look_up_each (c ∷ cs) s =
      let (p, s') = look_up sum256 c.at_lookup c.request s in
      let (others, s'') = look_up_each cs s' in ((c, p) ∷ others, s'')

  -- The second halves of `wrap`, one after the other.
  unfoldable pub resume_each :
      List (Arrival W × Pending)
      → IdempotencyStore × W
      → List (List WriterCall) × (IdempotencyStore × W)
  resume_each [] st = ([], st)
  resume_each ((c, p) ∷ cs) st =
      let (calls, st') = resume sum256 encode c.next c.at_store c.request p st in
      let (responses, st'') = resume_each cs st' in (calls ∷ responses, st'')

  look_up-absent :
      (key : String) (named : key ≢ "") (c : Arrival W) (s : IdempotencyStore)
      → Names key c
      → (find_entry c.at_lookup key s).0 ≡ none
      → (missed (look_up sum256 c.at_lookup c.request s).0 ≡ true)
        × ((look_up sum256 c.at_lookup c.request s).1 ≡ (find_entry c.at_lookup key s).1)
  unfolding look_up
  look_up-absent key named c s (k, (body, b)) h = ground (arith, k, b, h, named)

  look_up_each-missed :
      (key : String) (named : key ≢ "") (cs : List (Arrival W)) (s : IdempotencyStore)
      → All (Names key) cs
      → lookup key s.entries ≡ none
      → all_missed (look_up_each cs s).0 ≡ true
  unfolding look_up_each all_missed
  look_up_each-missed key named [] s n h = refl
  look_up_each-missed key named (c ∷ cs) s (n, ns) h =
      let found = find_entry-none c.at_lookup key s h in
      let (here, same) = look_up-absent key named c s n (ap (λ x. x.0) found) in
      rw here (rw (same ∙ ap (λ x. x.1) found) (look_up_each-missed key named cs s ns h))

  resume-missed :
      (c : Arrival W) (p : Pending) (s : IdempotencyStore) (w : W)
      → missed p ≡ true
      → HeaderFirst (c.next c.request w).0
      → let (calls, st) = resume sum256 encode c.next c.at_store c.request p (s, w) in
        (sent calls ≡ sent (c.next c.request w).0) × (st.1 ≡ (c.next c.request w).1)
  unfolding resume execute
  resume-missed c (absent hash) s w m h = ((record_calls-sent (c.next c.request w).0 h).0, refl)
  resume-missed c without_key s w m h = cc
  resume-missed c unreadable s w m h = cc
  resume-missed c (present hash entry) s w m h = cc

  resume_each-run_each :
      (ps : List (Arrival W × Pending)) (s : IdempotencyStore) (w : W)
      → all_missed ps ≡ true
      → AllHeaderFirst (map (λ x. x.0) ps)
      → let (responses, st) = resume_each ps (s, w) in
        let (calls, w') = run_each (map (λ x. x.0) ps) w in
        (map sent responses ≡ map sent calls) × (st.1 ≡ w')
  unfolding resume_each run_each all_missed
  resume_each-run_each [] s w m h = (refl, refl)
  resume_each-run_each ((c, p) ∷ ps) s w m (h, hs) =
      let (one, world) = resume-missed c p s w (ground arith) (h w) in
      let st = (resume sum256 encode c.next c.at_store c.request p (s, w)).1 in
      let (others, last) = resume_each-run_each ps st.0 st.1 (ground arith) hs in
      let rest = map (λ x. x.0) ps in
      (
        ap (λ x. x ∷ map sent (resume_each ps st).0) one
            ∙ ap (◌∷◌ (sent (c.next c.request w).0))
                (others ∙ ap (λ v. map sent (run_each rest v).0) world),
        last ∙ ap (λ v. (run_each rest v).1) world,
      )

  -- `wrap` is the lookup, under a lock, and what follows it with no lock held until the response is
  -- stored. If requests with one key, whose bodies can be read, all make their lookups before a response
  -- is stored, and the first of them finds no entry, then each of them runs its handler, in whatever
  -- order they go on: the handlers' world is left as the handlers one after the other in that order
  -- leave it, and each client is sent what its own handler made, if no handler calls `WriteHeader` for
  -- the first time after a `Write`.
  pub overlapping-run_each :
      (key : String) (c : Arrival W) (cs : List (Arrival W)) (s : IdempotencyStore) (w : W)
      (order : List (Arrival W × Pending))
      → key ≢ ""
      → All (Names key) (c ∷ cs)
      → (find_entry c.at_lookup key s).0 ≡ none
      → Perm order (look_up_each (c ∷ cs) s).0
      → AllHeaderFirst (map (λ x. x.0) order)
      → let (responses, st) = resume_each order ((look_up_each (c ∷ cs) s).1, w) in
        let (calls, w') = run_each (map (λ x. x.0) order) w in
        ((d : Arrival W) (t : IdempotencyStore) (v : W)
          → let (p, t') = look_up sum256 d.at_lookup d.request t in
            arrive sum256 encode d (t, v)
            ≡ resume sum256 encode d.next d.at_store d.request p (t', v))
        × (map sent responses ≡ map sent calls)
        × (st.1 ≡ w')
  unfolding look_up_each all_missed wrap
  overlapping-run_each key c cs s w order named (n, ns) none_found perm h =
      let (here, same) = look_up-absent key named c s n none_found in
      let rest =
        look_up_each-missed key named cs (find_entry c.at_lookup key s).1 ns
          (find_entry-absent c.at_lookup key s none_found) in
      let missed_all : all_missed order ≡ true = all_missed-perm perm ∙ rw here (rw same rest) in
      let (responses, world) = resume_each-run_each order _ w missed_all h in
      ((λ d t v. refl), responses, world)
