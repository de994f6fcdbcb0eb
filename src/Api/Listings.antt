-- ===== src/Api/Listings.antt =====
-- The service's listings: the clamped limit, and the events that come back for it.
use flames.Prelude.{
  inl, inr, Bool-cases, ltb_ℤ, length-append, length-filter-le, ◌⊎◌, ◌<ℤ◌, ℕ, zero, suc, ◌≤◌, Bool,
  refl, sym, length-take-le, ◌≤ℤ◌, ℤ, pos, negsuc, ◌≡◌, ap, ◌∙◌, List, [], ◌∷◌, ◌++◌, length, take,
  filter, arith,
}
use flames.Model.{Event, EventFilter}
use flames.Result.{ok}
use flames.State.{StateStore}
use flames.State.Listing.{up_to}
use flames.State.Contract.{stamped, matches, Implements}
use flames.State.Contract.Methods.{append_event-promised, list_events-promised}
use flames.Queue.{WorkQueue}
use flames.Runtime.{Env}
use flames.Api.{Service, on_state, clamp_limit, list_events}

some_env : Env
some_env = record { now = pos 0; random = [] }

-- The limit that reaches the store is between 1 and 1000, and clamping it again changes nothing. It is
-- the limit that was asked for if that is between 1 and 1000, 100 if it is not positive, and 1000 if
-- it is greater.
pub clamp_limit_lem :
    (limit : ℤ)
    → (pos 1 ≤ℤ clamp_limit limit)
      × (clamp_limit limit ≤ℤ pos 1000)
      × (clamp_limit (clamp_limit limit) ≡ clamp_limit limit)
      × (((pos 1 ≤ℤ limit) × (limit ≤ℤ pos 1000) × (clamp_limit limit ≡ limit))
          ⊎ ((limit ≤ℤ pos 0) × (clamp_limit limit ≡ pos 100))
          ⊎ ((pos 1000 <ℤ limit) × (clamp_limit limit ≡ pos 1000)))
unfolding clamp_limit
clamp_limit_lem (pos n) = ground arith
clamp_limit_lem (negsuc n) = ground arith

length-up_to :
    {A : Type 0} (limit : ℤ) (xs : List A) → pos 1 ≤ℤ limit → pos (length (up_to limit xs)) ≤ℤ limit
length-up_to (pos (suc n)) xs h = omega (arith, length-take-le (suc n) xs)
length-up_to (pos zero) xs h = absurd (omega (arith, h))
length-up_to (negsuc n) xs h = absurd (omega (arith, h))

take-append : {A : Type 0} (n : ℕ) (xs ys : List A) → n ≤ length xs → take n (xs ++ ys) ≡ take n xs
take-append zero xs ys h = refl
take-append (suc n) [] ys h = absurd (omega (arith, h))
take-append (suc n) (x ∷ xs) ys h = ap (λ l. x ∷ l) (take-append n xs ys (omega (arith, h)))

up_to-append :
    {A : Type 0} (limit : ℤ) (xs ys : List A)
    → pos 1 ≤ℤ limit
    → limit ≤ℤ pos (length xs)
    → up_to limit (xs ++ ys) ≡ up_to limit xs
up_to-append (pos (suc n)) xs ys h full = take-append (suc n) xs ys (omega (arith, full))
up_to-append (pos zero) xs ys h full = absurd (omega (arith, h))
up_to-append (negsuc n) xs ys h full = absurd (omega (arith, h))

take-all : {A : Type 0} (n : ℕ) (xs : List A) → length xs ≤ n → take n xs ≡ xs
take-all zero [] h = refl
take-all zero (x ∷ xs) h = absurd (omega (arith, h))
take-all (suc n) [] h = refl
take-all (suc n) (x ∷ xs) h = ap (λ l. x ∷ l) (take-all n xs (omega (arith, h)))

up_to-all : {A : Type 0} (limit : ℤ) (xs : List A) → pos (length xs) ≤ℤ limit → up_to limit xs ≡ xs
up_to-all (pos (suc n)) xs h = take-all (suc n) xs (omega (arith, h))
up_to-all (pos zero) xs h = refl
up_to-all (negsuc n) xs h = refl

le_or_lt : (a b : ℤ) → (a ≤ℤ b) ⊎ (b <ℤ a)
le_or_lt a b = elim (Bool-cases (ltb_ℤ b a)) [
  | inl p ↦ inr (ground arith)
  | inr p ↦ inl (ground arith)
]

filter-append :
    {A : Type 0} (p : A → Bool) (xs ys : List A) → filter p (xs ++ ys) ≡ filter p xs ++ filter p ys
filter-append p [] ys = refl
filter-append p (x ∷ xs) ys = ground (arith, filter-append p xs ys)

module _ (S : StateStore) (Q : WorkQueue) (I : Implements S) where
  -- Over a store that keeps the contract a listing comes from the start of the log: it holds the
  -- first events that pass the filter, as many as the clamped limit has room for, never more than
  -- 1000. The records and the queue are left as they were.
  pub list_events-oldest :
      (f : EventFilter) (s : Service S Q)
      → let listed = up_to (clamp_limit f.limit) (filter (matches f) (I.view s.state).log) in
        ((list_events S Q f s).0 ≡ ok listed)
        × (length listed ≤ 1000)
        × (I.view (list_events S Q f s).1.state ≡ I.view s.state)
        × ((list_events S Q f s).1.queue ≡ s.queue)
  unfolding list_events
  list_events-oldest f s =
      let f' = record f { limit = clamp_limit f.limit } in
      let (events, same) = list_events-promised S I some_env f' s.state in
      let (low, high, _, _) = clamp_limit_lem f.limit in
      let log = filter (matches f) (I.view s.state).log in
      (events, omega (arith, length-up_to (clamp_limit f.limit) log low, high), same, refl)

  -- The listing once an event was appended.
  listed_after :
      (f : EventFilter) (e : Env) (event : Event) (s : Service S Q)
      → (list_events S Q f (on_state S Q (S.append_event e event) s).1).0
        ≡ ok (
            up_to (clamp_limit f.limit) (
              filter (matches f) (I.view s.state).log ++ filter (matches f) (stamped e event ∷ [])))
  listed_after f e event s =
      (list_events-oldest f (on_state S Q (S.append_event e event) s).1).0
      ∙ ap (λ r. ok (up_to (clamp_limit f.limit) (filter (matches f) r.log)))
          (append_event-promised S I e event s.state).1
      ∙ ap (λ l. ok (up_to (clamp_limit f.limit) l))
          (filter-append (matches f) (I.view s.state).log (stamped e event ∷ []))

  -- Over a store that keeps the contract, an event that is appended shows at the end of a listing if it
  -- passes the filter and the listing has room for it: fewer events pass the filter than the clamped
  -- limit. Once as many pass as the limit has room for, the listing stays what it is: the newest events
  -- are the ones that a full listing leaves out.
  pub list_events-append :
      (f : EventFilter) (e : Env) (event : Event) (s : Service S Q)
      → let log = filter (matches f) (I.view s.state).log in
        let before = (list_events S Q f s).0 in
        let after = (list_events S Q f (on_state S Q (S.append_event e event) s).1).0 in
        ((clamp_limit f.limit ≤ℤ pos (length log)) × (after ≡ before))
        ⊎ ((pos (length log) <ℤ clamp_limit f.limit)
            × (before ≡ ok log)
            × (after ≡ ok (log ++ filter (matches f) (stamped e event ∷ []))))
  list_events-append f e event s =
      let limit = clamp_limit f.limit in
      let log = filter (matches f) (I.view s.state).log in
      let more = filter (matches f) (stamped e event ∷ []) in
      let listed = (list_events-oldest f s).0 in
      let later = listed_after f e event s in
      elim (le_or_lt limit (pos (length log))) [
        | inl full ↦
            let cut = up_to-append limit log more (clamp_limit_lem f.limit).0 full in
            inl (full, later ∙ ap ok cut ∙ sym listed)
        | inr room ↦ inr (
          room,
          listed ∙ ap ok (up_to-all limit log (omega (arith, room))),
          later
              ∙ ap ok (
                  up_to-all limit (log ++ more) (
                    omega (
                      arith,
                      room,
                      length-append log more,
                      length-filter-le (matches f) (stamped e event ∷ []),
                    ))),
        )
      ]
