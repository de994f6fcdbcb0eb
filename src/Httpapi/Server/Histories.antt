-- ===== src/Httpapi/Server/Histories.antt =====
-- What a request does to the state store, as a history of calls of its contract.
use flames.Prelude.{
  String, Option-cases, Bool-cases, List, [], ◌∷◌, ◌++◌, All, All-append, ◌≡◌, refl, sym, ap, subst,
  ◌∙◌, inl, inr, string_eq,
}
use flames.Dict.{Range}
use flames.Runtime.{Env}
use flames.Model.{Controller, ControllerFilter}
use flames.State.{StateStore}
use flames.State.Contract.{Call}
use flames.State.Contract.History.{History, run, run-append}
use flames.Queue.{WorkQueue}
use flames.Httpapi.{Request, WriterCall, set_header, http_error}
use flames.Httpapi.Routes.{Route, wrapped, routes, find_route, methods_of_path}
use flames.Httpapi.Server.Effects.{Made, Effect, nothing}
use flames.Httpapi.Server.Effects.Handled.{Lists, handled}
use flames.Httpapi.Server.{
  Turn, Library, State, handle, registered, serve_mux, serve_http, serve_all,
}
use flames.Httpapi.Idempotency.World.{wrap-world}

module _ (L : Library) (S : StateStore) (Q : WorkQueue) (t : Turn) where
  through_wrap :
      Lists L S Q t
      → (route : Route) (r : Request) (st : State L S Q)
      → Effect S Q t st.1 (registered L S Q t route r st).1.1
  unfolding registered
  through_wrap same route r (entries, s) = elim (Bool-cases (wrapped route)) [
    | inl w ↦
        rw w
          (elim (wrap-world L.sum256 L.formats.encode_error (handle L S Q t route) t.at_lookup
            t.at_store r entries s) [
              | inl kept ↦ rw kept (nothing L S Q t s)
              | inr ran ↦ rw ran (handled L S Q t same route r s)
            ])
    | inr w ↦ rw w (handled L S Q t same route r s)
  ]

  -- The answer of the router itself, for a path or a method that no route has.
  unrouted :
      (st : State L S Q) (methods : List String)
      → Effect S Q t st.1
          (elim methods as (λ _. List WriterCall × State L S Q) [
            | [] ↦ (http_error 404 "404 page not found", st)
            | m ∷ ms ↦
                (set_header "Allow" (L.allow (m ∷ ms)) ∷ http_error 405 "Method Not Allowed", st)
          ]).1.1
  unrouted st [] = nothing L S Q t st.1
  unrouted st (m ∷ ms) = nothing L S Q t st.1

  through_mux :
      Lists L S Q t
      → (r : Request) (st : State L S Q) → Effect S Q t st.1 (serve_mux L S Q t r st).1.1
  unfolding serve_mux run
  through_mux same r st = elim (Option-cases (find_route r)) [
    | inr (route, found) ↦ rw (found, serve_mux) (through_wrap same route _ st)
    | inl missing ↦ rw (missing, serve_mux) (unrouted st (methods_of_path r.segments routes))
  ]

  served :
      Lists L S Q t
      → (r : Request) (st : State L S Q) → Effect S Q t st.1 (serve_http L S Q t r st).2.1
  unfolding serve_http
  served same r st = through_mux same r st

-- Both calls of a request take such a clock and such random bytes.
abbrev pub BothCalls : (Env → Type 0) → Turn × Request → Type 0
BothCalls P (t, _) = P t.first_call × P t.second_call

Made-All :
    (S : StateStore) (P : Env → Type 0) (t : Turn) (s : S.State) (h : History)
    → P t.first_call
    → P t.second_call
    → Made S t s h
    → All (λ c. P c.0) h
Made-All S P t s [] p q m = tt
Made-All S P t s ((e, c) ∷ []) p q (first, _) = (subst P (sym first) p, tt)
Made-All S P t s ((e, c) ∷ (e', c') ∷ []) p q (first, second, _) =
    (subst P (sym first) p, (subst P (sym second) q, tt))
Made-All S P t s (_ ∷ _ ∷ _ ∷ _) p q m = absurd m

module _ (L : Library) (S : StateStore) (Q : WorkQueue) where
  -- Whatever requests are served, the store is left as some history of calls of its contract leaves
  -- it, and the queue is not touched.
  pub serve_all-run :
      ((order : Range Controller) (f : ControllerFilter) (x : S.State)
        → (S.list_controllers order f x).1 ≡ x)
      → (P : Env → Type 0) (rs : List (Turn × Request)) (st : State L S Q) → All (BothCalls P) rs
      → (h : History) × All (λ (c : Env × Call). P c.0) h
        × ((serve_all L S Q rs st).1.1.state ≡ run S h st.1.state)
        × ((serve_all L S Q rs st).1.1.queue ≡ st.1.queue)
  unfolding serve_all run
  serve_all-run same P [] st a = ([], tt, refl, refl)
  serve_all-run same P ((t, r) ∷ rs) st a =
      let (h, u, p, q) = served L S Q t same r st in
      let (k, v, p', q') = serve_all-run same P rs (serve_http L S Q t r st).2 a.1 in
      (
        h ++ k,
        All-append (λ c. P c.0) h k (Made-All S P t st.1.state h a.0.0 a.0.1 u) v,
        p' ∙ ap (run S k) p ∙ sym (run-append S h k st.1.state),
        q' ∙ q,
      )

  -- What the calls of one request keep, the server keeps.
  pub serve_all-invariant :
      ((order : Range Controller) (f : ControllerFilter) (x : S.State)
        → (S.list_controllers order f x).1 ≡ x)
      → (P : S.State → Type 0)
      → ((t : Turn) (h : History) (s : S.State) → Made S t s h → P s → P (run S h s))
      → (rs : List (Turn × Request)) (st : State L S Q) → P st.1.state
      → P (serve_all L S Q rs st).1.1.state
  unfolding serve_all
  serve_all-invariant same P keeps [] st p = p
  serve_all-invariant same P keeps ((t, r) ∷ rs) st p =
      let (h, made, after, _) = served L S Q t same r st in
      serve_all-invariant same P keeps rs (serve_http L S Q t r st).2
        (subst P (sym after) (keeps t h st.1.state made p))
