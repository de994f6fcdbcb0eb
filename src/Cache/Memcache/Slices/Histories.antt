-- ===== src/Cache/Memcache/Slices/Histories.antt =====
-- Histories of calls on the cache and of what its callers do with their slices.
use flames.Prelude.{
  ℕ, String, Option, none, some, List, [], ◌∷◌, string_eq, number_eq, integer_eq, ◌≡◌, ◌∙◌, sym, ap,
  arith, refl,
}
use flames.Dict.{lookup}
use flames.Runtime.{bytes_eq, Env, Time, Bytes, zero_time}
use flames.Result.{Result, ok}
use flames.Cache.Contract.{Call, Reply, run}
use flames.Cache.Memcache.{memcache, Store, conclude, get}
use flames.Cache.Memcache.Slices.{write, SliceEntry, SliceStore, conclude_slice, get_slice}
use flames.Cache.Memcache.Slices.Values.{view, IsMade, lookup-values_in}
use flames.Cache.Memcache.Slices.Acts.{
  Act, writes, act, value_call, value_act, IsOwnWrite, act-values,
}
use flames.Cache.Memcache.Slices.Kept.{act-IsMade}

abbrev expiry_of : Option SliceEntry → Time
expiry_of none = zero_time
expiry_of (some entry) = entry.expires_at

abbrev add : Option (Result Reply) → List (Result Reply) → List (Result Reply)
add none replies = replies
add (some r) replies = r ∷ replies

-- The replies to a history.
unfoldable pub act_all : List (Env × Act) → SliceStore → List (Result Reply)
act_all [] s = []
act_all ((e, a) ∷ rest) s = let (r, s') = act e a s in add r (act_all rest s')

abbrev add_call : Env → Option Call → List (Env × Call) → List (Env × Call)
add_call e none cs = cs
add_call e (some c) cs = (e, c) ∷ cs

-- The calls of a history, with the values that their slices have when they are made.
unfoldable pub value_calls : List (Env × Act) → SliceStore → List (Env × Call)
value_calls [] s = []
value_calls ((e, a) ∷ rest) s = add_call e (value_call a s) (value_calls rest (act e a s).1)

-- Every write of a history goes to an array that no entry holds then.
unfoldable pub OwnWrites : List (Env × Act) → SliceStore → Type 0
OwnWrites [] s = Unit
OwnWrites ((e, a) ∷ rest) s = IsOwnWrite a s × OwnWrites rest (act e a s).1

add_call-run :
    (e : Env) (c : Option Call) (cs : List (Env × Call)) (s : Store)
    → (run memcache (add_call e c cs) s).0
      ≡ add (value_act e c s).0 (run memcache cs (value_act e c s).1).0
unfolding run
add_call-run e none cs s = refl
add_call-run e (some c) cs s = refl

-- Over a history whose writes go to arrays that no entry holds then, the replies are those of the
-- cache of values to the values that the slices have at each call.
pub act_all-values :
    (acts : List (Env × Act)) (s : SliceStore)
    → IsMade s
    → OwnWrites acts s
    → act_all acts s ≡ (run memcache (value_calls acts s) (view s)).0
unfolding act_all value_calls OwnWrites run
act_all-values [] s m own = refl
act_all-values ((e, a) ∷ rest) s m (own, owns) =
    let (reply, values) = act-values e a s m own in
    ap (λ r. add r (act_all rest (act e a s).1)) reply
    ∙ ap (add (value_act e (value_call a s) (view s)).0) (
        act_all-values rest (act e a s).1 (act-IsMade e a s m) owns
        ∙ ap (λ t. (run memcache (value_calls rest (act e a s).1) t).0) values)
    ∙ sym (add_call-run e (value_call a s) _ (view s))

got_slice :
    (e : Env) (key : String) (array : ℕ) (s : SliceStore) (o : Option SliceEntry)
    → (conclude_slice e key o s).0 ≡ ok array
    → (o ≡ some (record { value = array; expires_at = expiry_of o }))
      × ((conclude_slice e key o s).1 ≡ s)
got_slice e key array s none h = cc
got_slice e key array s (some entry) h = ground arith

-- The slice that `Get` returns is the cache's own: what its caller writes into it is what `Get`
-- returns from then on, at any time at which the key has a value still.
pub get_slice-shared :
    (e e' : Env) (key : String) (array : ℕ) (bytes value : Bytes) (s : SliceStore)
    → (get_slice e key s).0 ≡ ok array
    → (get e' key (view s)).0 ≡ ok value
    → (get e' key (view (act e (writes array bytes) (get_slice e key s).1).1)).0 ≡ ok bytes
unfolding act get_slice get conclude
get_slice-shared e e' key array bytes value s got hit =
    let (p, same) = got_slice e key array s (lookup key s.entries) got in
    let h = write array bytes s.heap in
    rw same
      (ground (arith, p, lookup-values_in key s.heap s.entries, lookup-values_in key h s.entries))
