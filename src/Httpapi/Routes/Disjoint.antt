-- ===== src/Httpapi/Routes/Disjoint.antt =====
-- No request fits two routes, so the order and the precedence of the patterns do not matter.
use flames.Prelude.{
  All, Option-cases, String, Bool, true, false, ◌&&◌, Option, none, some, List, [], ◌∷◌, ◌≡◌, ◌≢◌,
  ◌↔◌, ◌⊎◌, inl, inr, refl, sym, ap, ◌∙◌, subst, arith, Bool-cases, ◌==◌, string_eq, if◌then◌else◌,
}
use flames.Httpapi.{Request}
use flames.Httpapi.Routes.{
  Route, create_vm, get_vm, stop_vm, delete_vm, register_controller, heartbeat, list_controllers,
  list_events, healthz, Segment, lit, wildcard, routes, fits, fits_path, fits_method, pattern,
  method, first_fit, find_route,
}

lit_fits :
    (text : String) (more : List Segment) (ss : List String)
    → fits_path (lit text ∷ more) ss ≡ true
    → (rest : List String) × (ss ≡ text ∷ rest) × (fits_path more rest ≡ true)
unfolding fits_path
lit_fits text more [] h = absurd (cc h)
lit_fits text more (s ∷ ss) h = (ss, ground (arith, h), ground (arith, h))

wildcard_fits :
    (name : String) (more : List Segment) (ss : List String)
    → fits_path (wildcard name ∷ more) ss ≡ true
    → (s : String) × (rest : List String) × (ss ≡ s ∷ rest)
      × (s ≢ "")
      × (fits_path more rest ≡ true)
unfolding fits_path
wildcard_fits name more [] h = absurd (cc h)
wildcard_fits name more (s ∷ ss) h = (s, ss, refl, ground (arith, h), ground (arith, h))

end_fits : (ss : List String) → fits_path [] ss ≡ true → ss ≡ []
unfolding fits_path
end_fits [] h = refl
end_fits (s ∷ ss) h = absurd (cc h)

abbrev Reads : String → Type 0
Reads m = (m ≡ "GET") ⊎ (m ≡ "HEAD")

-- The route of a method and a path, by decisions on the path first.
identify : String → List String → Option Route
identify m (a ∷ []) = some healthz
identify m (a ∷ b ∷ []) =
    if b == "vms"
    then some create_vm
    else if b == "events"
    then some list_events
    else if m == "POST"
    then some register_controller
    else some list_controllers
identify m (a ∷ b ∷ c ∷ []) = if m == "DELETE" then some delete_vm else some get_vm
identify m (a ∷ b ∷ c ∷ d ∷ []) = if b == "vms" then some stop_vm else some heartbeat
identify m _ = none

two_fits :
    (a b : String) (ss : List String) → fits_path (lit a ∷ lit b ∷ []) ss ≡ true → ss ≡ a ∷ b ∷ []
two_fits a b ss h =
    let (rest, p, h') = lit_fits a (lit b ∷ []) ss h in
    let (rest', p', h'') = lit_fits b [] rest h' in
    p ∙ ap (λ l. a ∷ l) (p' ∙ ap (λ l. b ∷ l) (end_fits rest' h''))

three_fits :
    (a b name : String) (ss : List String)
    → fits_path (lit a ∷ lit b ∷ wildcard name ∷ []) ss ≡ true
    → (c : String) × (ss ≡ a ∷ b ∷ c ∷ [])
three_fits a b name ss h =
    let (rest, p, h') = lit_fits a (lit b ∷ wildcard name ∷ []) ss h in
    let (rest', p', h'') = lit_fits b (wildcard name ∷ []) rest h' in
    let (c, rest'', q, _, e) = wildcard_fits name [] rest' h'' in
    (c, p ∙ ap (λ l. a ∷ l) (p' ∙ ap (λ l. b ∷ l) (q ∙ ap (λ l. c ∷ l) (end_fits rest'' e))))

four_fits :
    (a b name d : String) (ss : List String)
    → fits_path (lit a ∷ lit b ∷ wildcard name ∷ lit d ∷ []) ss ≡ true
    → (c : String) × (ss ≡ a ∷ b ∷ c ∷ d ∷ [])
four_fits a b name d ss h =
    let (rest, p, h') = lit_fits a (lit b ∷ wildcard name ∷ lit d ∷ []) ss h in
    let (rest', p', h'') = lit_fits b (wildcard name ∷ lit d ∷ []) rest h' in
    let (c, rest'', q, _, e) = wildcard_fits name (lit d ∷ []) rest' h'' in
    let (rest3, r, e') = lit_fits d [] rest'' e in
    (
      c,
      p
          ∙ ap (λ l. a ∷ l)
              (p'
                ∙ ap (λ l. b ∷ l) (q ∙ ap (λ l. c ∷ l) (r ∙ ap (λ l. d ∷ l) (end_fits rest3 e')))),
    )

pub both : (a b : Bool) → (a && b) ≡ true → (a ≡ true) × (b ≡ true)
both a b h = (ground arith, ground arith)

pub method_is :
    (route : Route) (m : String)
    → fits_method route m ≡ true
    → (method route ≡ m) ⊎ ((method route ≡ "GET") × (m ≡ "HEAD"))
unfolding fits_method
method_is route m h = ground (arith, h)

identify_two :
    (m a b : String) (route : Route) (ss : List String)
    → ss ≡ a ∷ b ∷ []
    → identify m (a ∷ b ∷ []) ≡ some route
    → identify m ss ≡ some route
identify_two m a b route ss p h = ap (identify m) p ∙ h

identified :
    (route : Route) (m : String) (ss : List String)
    → fits_method route m ≡ true
    → fits_path (pattern route) ss ≡ true
    → identify m ss ≡ some route
unfolding identify string_eq
identified create_vm m ss f p = ap (identify m) (two_fits _ _ ss p)
identified list_events m ss f p = ap (identify m) (two_fits _ _ ss p)
identified register_controller m ss f p = elim (method_is register_controller m f) [
  | inl e ↦
      subst (λ m. identify m ss ≡ some register_controller) e
        (ap (identify "POST") (two_fits _ _ ss p))
  | inr (e, _) ↦ absurd (cc e)
]
identified list_controllers m ss f p = elim (method_is list_controllers m f) [
  | inl e ↦
      subst (λ m. identify m ss ≡ some list_controllers) e (ap (identify "GET") (two_fits _ _ ss p))
  | inr (_, e) ↦
      subst (λ m. identify m ss ≡ some list_controllers) (sym e)
        (ap (identify "HEAD") (two_fits _ _ ss p))
]
identified healthz m ss f p =
    let (rest, q, h) = lit_fits "healthz" [] ss p in
    ap (identify m) (q ∙ ap (λ l. "healthz" ∷ l) (end_fits rest h))
identified get_vm m ss f p = elim (method_is get_vm m f) [
  | inl e ↦
      subst (λ m. identify m ss ≡ some get_vm) e (ap (identify "GET") (three_fits _ _ _ ss p).1)
  | inr (_, e) ↦
      subst (λ m. identify m ss ≡ some get_vm) (sym e)
        (ap (identify "HEAD") (three_fits _ _ _ ss p).1)
]
identified delete_vm m ss f p = elim (method_is delete_vm m f) [
  | inl e ↦
      subst (λ m. identify m ss ≡ some delete_vm) e
        (ap (identify "DELETE") (three_fits _ _ _ ss p).1)
  | inr (e, _) ↦ absurd (cc e)
]
identified stop_vm m ss f p = ap (identify m) (four_fits _ _ _ _ ss p).1
identified heartbeat m ss f p = ap (identify m) (four_fits _ _ _ _ ss p).1

fits_one : (r : Request) (a b : Route) → fits r a ≡ true → fits r b ≡ true → a ≡ b
fits_one r a b h k =
    let (f, p) = both (fits_method a r.method) (fits_path (pattern a) r.segments) h in
    let (g, q) = both (fits_method b r.method) (fits_path (pattern b) r.segments) k in
    cc (identified a r.method r.segments f p, identified b r.method r.segments g q)

first_fit-fits :
    (r : Request) (rs : List Route) (a : Route) → first_fit r rs ≡ some a → fits r a ≡ true
unfolding first_fit
first_fit-fits r [] a h = absurd (cc h)
first_fit-fits r (b ∷ rs) a h = elim (Bool-cases (fits r b)) [
  | inl p ↦ let same : some b ≡ some a = rw p at h in cc (p, same)
  | inr p ↦ let later : first_fit r rs ≡ some a = rw p at h in first_fit-fits r rs a later
]

first_fit-none :
    (r : Request) (rs : List Route) → first_fit r rs ≡ none → All (λ a. fits r a ≡ false) rs
unfolding first_fit
first_fit-none r [] h = tt
first_fit-none r (b ∷ rs) h = elim (Bool-cases (fits r b)) [
  | inl p ↦ let found : some b ≡ none = rw p at h in absurd (cc found)
  | inr p ↦ let later : first_fit r rs ≡ none = rw p at h in (p, first_fit-none r rs later)
]

-- Every route is registered.
of_all : (P : Route → Type 0) → All P routes → (a : Route) → P a
of_all P h create_vm = h.0
of_all P h get_vm = h.1.0
of_all P h stop_vm = h.1.1.0
of_all P h delete_vm = h.1.1.1.0
of_all P h register_controller = h.1.1.1.1.0
of_all P h heartbeat = h.1.1.1.1.1.0
of_all P h list_controllers = h.1.1.1.1.1.1.0
of_all P h list_events = h.1.1.1.1.1.1.1.0
of_all P h healthz = h.1.1.1.1.1.1.1.1.0

found : (r : Request) (a : Route) → fits r a ≡ true → find_route r ≡ some a
unfolding find_route
found r a h = elim (Option-cases (first_fit r routes)) [
  | inl p ↦ absurd (cc (h, of_all (λ b. fits r b ≡ false) (first_fit-none r routes p) a))
  | inr (b, p) ↦ p ∙ ap some (fits_one r b a (first_fit-fits r routes b p) h)
]

-- The router finds a route for a request exactly if the method and the path of the request fit it: no
-- request fits two routes, so the order of their registration does not matter.
pub find_route-fits : (r : Request) (a : Route) → (find_route r ≡ some a) ↔ (fits r a ≡ true)
unfolding find_route
find_route-fits r a = (first_fit-fits r routes a, found r a)
