-- ===== src/Tests/Slices.antt =====
-- Runs of the cache with the slices that it shares with its callers.
use flames.Prelude.{String, string_eq, integer_eq, number_eq, pos, List, [], ◌∷◌, ◌≡◌, refl}
use flames.Dict.{lookup, insert}
use flames.Runtime.{Env}
use flames.Result.{ok}
use flames.Cache.Contract.{run, done, a_value}
use flames.Cache.Memcache.{memcache, get, conclude}
use flames.Cache.Memcache.Slices.{SliceStore, set_slice, store_copy, get_slice}
use flames.Cache.Memcache.Slices.Values.{view}
use flames.Cache.Memcache.Slices.Acts.{Act, makes, writes, gets, sets, act}
use flames.Cache.Memcache.Slices.Histories.{act_all, value_calls, get_slice-shared}
use flames.Cache.Memcache.Slices.Owners.{WritesOwn, among, act_all-isolated}
use flames.Tests.Data.{at}

abbrev no_slices : SliceStore
no_slices = record { entries = []; heap = record { bytes_at = λ array. []; next = 0 } }

abbrev slice_key : String
slice_key = "k"

-- A caller stores the bytes of its array and then writes into it.
abbrev reused : List (Env × Act)
reused =
    (at 10 1, makes (7 ∷ []))
    ∷ (at 20 1, sets slice_key 0 (pos 0))
    ∷ (at 30 1, writes 0 (9 ∷ []))
    ∷ (at 40 1, gets slice_key)
    ∷ []

reused-WritesOwn : WritesOwn [] reused no_slices
unfolding WritesOwn among act number_eq
reused-WritesOwn = (tt, (tt, (refl, (tt, tt))))

act_all-isolated_example :
    act_all reused no_slices ≡ (run memcache (value_calls reused no_slices) (view no_slices)).0
act_all-isolated_example = act_all-isolated [] reused no_slices tt tt reused-WritesOwn

reused_replies : act_all reused no_slices ≡ ok done ∷ ok (a_value (7 ∷ [])) ∷ []
unfolding act_all act set_slice get_slice lookup store_copy insert string_eq integer_eq number_eq
reused_replies = refl

abbrev one_slice : SliceStore
one_slice = (set_slice (at 20 1) slice_key 0 (pos 0) no_slices).1

one_got : (get_slice (at 30 1) slice_key one_slice).0 ≡ ok 0
unfolding set_slice get_slice lookup store_copy insert string_eq integer_eq number_eq
one_got = refl

one_hit : (get (at 40 1) slice_key (view one_slice)).0 ≡ ok []
unfolding get conclude set_slice lookup store_copy insert string_eq integer_eq number_eq
one_hit = refl

get_slice-shared_example :
    (get
      (at 40 1)
      slice_key
      (view (act (at 30 1) (writes 0 (9 ∷ [])) (get_slice (at 30 1) slice_key one_slice).1).1)).0
    ≡ ok (9 ∷ [])
get_slice-shared_example =
    get_slice-shared (at 30 1) (at 40 1) slice_key 0 (9 ∷ []) [] one_slice one_got one_hit
