-- ===== src/Queue/Memqueue/Lease.antt =====
-- Leases along a history of calls: what the calls up to the end of a lease do to it.
use flames.Prelude.{
  String, ◌≡◌, refl, sym, ap, ◌∙◌, ◌≢◌, subst, Bool, true, false, ◌||◌, ◌+ℤ◌, List, [], ◌∷◌, ◌++◌,
  map, All, All-append, arith, inl, inr, ◌==◌, string_eq, integer_eq, if◌then◌else◌,
}
use flames.Runtime.{Env, Time, Duration, is_zero, after, new_id}
use flames.Model.{Job}
use flames.Result.{ok}
use flames.Queue.Memqueue.{QueueEntry, Queue, entries, available, leased, dequeue}
use flames.Queue.Memqueue.Identities.{Identity, Lacks, Distinct, All-combine}
use flames.Queue.Memqueue.Delivery.{First, dequeue-First}
use flames.Queue.Memqueue.Jobs.{identity, jobs}
use flames.Queue.Memqueue.Valid.{IsValid, IsHome}
use flames.Queue.Memqueue.History.{Call, enqueues, dequeues, acks, nacks, step, Reach, here, next}
use flames.Queue.Memqueue.Entrywise.{
  Entrywise, All-parts, enqueue-Entrywise, dequeue-Entrywise, ack-Entrywise, nack-Entrywise,
}

-- Every entry with the ID has the lease.
abbrev pub HasLease : String → Time → QueueEntry → Type 0
HasLease id lease e = e.job.id ≡ id → e.job.lease_expires_at ≡ lease

-- Until the lease has run out: `Dequeue` is called no later than it, `Nack` not for the job, and
-- no new job draws its ID. `Ack` may be called at will.
abbrev pub WithinLease : String → Time → Queue → Env × Call → Type 0
WithinLease id lease q (e, enqueues topic payload) = new_id e.random ≢ id
WithinLease id lease q (e, dequeues topic d) = after e.now lease ≡ false
WithinLease id lease q (e, acks other) = Unit
WithinLease id lease q (e, nacks other retry_at) = other ≢ id

or_false : (a b : Bool) → a ≡ false → b ≡ false → (a || b) ≡ false
or_false a b p q = ground arith

not_available :
    (now lease : Time) (job : Job)
    → job.lease_expires_at ≡ lease
    → is_zero lease ≡ false
    → after now lease ≡ false
    → available now job ≡ false
not_available now lease job p z a =
    ap (λ l. is_zero l || after now l) p ∙ or_false (is_zero lease) (after now lease) z a

true-ne-false : {b : Bool} → b ≡ true → b ≡ false → ⊥
true-ne-false p q = cc

module _ (id : String) (lease : Time) (set : is_zero lease ≡ false) where
  step-HasLease :
      (q : Queue) (c : Env × Call)
      → WithinLease id lease q c
      → Entrywise (HasLease id lease) q
      → Entrywise (HasLease id lease) (step q c)
  unfolding step
  step-HasLease q (e, enqueues topic payload) w h =
      enqueue-Entrywise (HasLease id lease) e topic payload q (λ p. absurd (w p)) h
  step-HasLease q (e, dequeues topic d) w h =
      dequeue-Entrywise (HasLease id lease) e topic d q
        (λ x p a same. absurd (true-ne-false a (not_available e.now lease x.job (p same) set w))) h
  step-HasLease q (e, acks other) w h = ack-Entrywise (HasLease id lease) other q h
  step-HasLease q (e, nacks other retry_at) w h =
      nack-Entrywise (HasLease id lease) other retry_at
        (λ x p hit same. absurd (w (sym hit ∙ same))) q h

  pub Reach-HasLease :
      {q r : Queue}
      → Entrywise (HasLease id lease) q
      → Reach (WithinLease id lease) q r
      → Entrywise (HasLease id lease) r
  Reach-HasLease h here = h
  Reach-HasLease h (next {r = r} c reach w) = step-HasLease r c w (Reach-HasLease h reach)

  -- A job under such a lease is not handed out before the lease has run out.
  held_back :
      (q : Queue) (e : Env) (topic : String) (d : Duration) (j : Job)
      → Entrywise (HasLease id lease) q
      → after e.now lease ≡ false
      → (dequeue e topic d q).0 ≡ ok j
      → j.id ≢ id
  held_back q e topic d j h early got = elim (dequeue-First e topic d q) [
    | inl (_, p) ↦ absurd (cc (p, got))
    | inr (f, p, _, _) ↦ λ same.
        let parts =
          All-parts (HasLease id lease) f.before (f.hit ∷ f.behind)
            (subst (All (HasLease id lease)) f.split (h topic)) in
        true-ne-false f.is_available
          (not_available e.now lease f.hit.job (parts.1.0 (ground arith)) set early)
  ]

Lacks-HasLease :
    (id : String) (lease : Time) (es : List QueueEntry)
    → Lacks id (map identity es)
    → All (HasLease id lease) es
Lacks-HasLease id lease [] l = tt
Lacks-HasLease id lease (e ∷ es) l = ((λ same. absurd (l.0 same)), Lacks-HasLease id lease es l.1)

middle :
    (P : Identity → Type 0) (xs ys : List QueueEntry) (h : QueueEntry)
    → All P (map identity (xs ++ h ∷ ys))
    → P (identity h)
middle P [] ys h a = a.0
middle P (x ∷ xs) ys h a = middle P xs ys h a.1

Distinct-around :
    (xs ys : List QueueEntry) (h : QueueEntry)
    → Distinct (map identity (xs ++ h ∷ ys))
    → Lacks h.job.id (map identity xs) × Lacks h.job.id (map identity ys)
Distinct-around [] ys h d = (tt, d.0)
Distinct-around (x ∷ xs) ys h d =
    let (l, r) = Distinct-around xs ys h d.1 in
    (((λ e. middle (λ k. k.id ≢ x.job.id) xs ys h d.0 (sym e)), l), r)

-- In a valid queue the job that `Dequeue` hands out is the only entry with its ID.
module _ (e : Env) (topic : String) (d : Duration) (q : Queue) (v : IsValid q)
    (f : First e.now (entries q topic)) where
  here-Distinct : Distinct (map identity (f.before ++ f.hit ∷ f.behind))
  here-Distinct = subst (λ es. Distinct (map identity es)) f.split (v.distinct topic)

  hit-IsHome : IsHome q.index topic (identity f.hit)
  hit-IsHome =
      middle (IsHome q.index topic) f.before f.behind f.hit
        (subst (λ es. All (IsHome q.index topic) (map identity es)) f.split (v.homed topic))

  elsewhere : (u : String) → topic ≢ u → Lacks f.hit.job.id (jobs q u)
  elsewhere u other =
      All-combine {P = IsHome q.index u} {Q = IsHome q.index u}
        (λ j p _ same. other (ground (arith, hit-IsHome.1, p.1))) (jobs q u) (v.homed u) (v.homed u)

  alone :
      (b : Bool) (u : String)
      → (b ≡ false → topic ≢ u)
      → All (HasLease f.hit.job.id (e.now +ℤ d)) (
          if b
          then f.before ++ record { job = leased e.now d f.hit.job } ∷ f.behind
          else entries q u)
  alone true u h =
      let around = Distinct-around f.before f.behind f.hit here-Distinct in
      All-append (HasLease f.hit.job.id (e.now +ℤ d)) f.before _
        (Lacks-HasLease _ _ f.before around.0)
        ((λ same. refl), Lacks-HasLease _ _ f.behind around.1)
  alone false u h = Lacks-HasLease _ _ (entries q u) (elsewhere u (h refl))

pub dequeue-HasLease :
    (e : Env) (topic : String) (d : Duration) (q : Queue) (j : Job)
    → IsValid q
    → (dequeue e topic d q).0 ≡ ok j
    → Entrywise (HasLease j.id j.lease_expires_at) (dequeue e topic d q).1
dequeue-HasLease e topic d q j v got = elim (dequeue-First e topic d q) [
  | inl (_, p) ↦ absurd (cc (p, got))
  | inr (f, p, _, es) ↦ λ u.
      let same : leased e.now d f.hit.job ≡ j = cc (p, got) in
      subst
        (λ (k : Job). All (HasLease k.id k.lease_expires_at) (entries (dequeue e topic d q).1 u))
        same (rw (es u) (alone e topic d q v f (topic == u) u (λ n. ground arith)))
]

-- In a valid queue a job that was handed out under a lease is not handed out again before the
-- lease has run out, whatever calls on any topics come between, if the lease is set (its end is
-- not the zero time), no call in between releases the job by `Nack`, no `Enqueue` draws its ID,
-- and no `Dequeue` in between comes after the end of the lease.
pub dequeue_exclusive :
    (e e' : Env) (topic topic' : String) (d d' : Duration) (j j' : Job) {q r : Queue}
    → IsValid q
    → (dequeue e topic d q).0 ≡ ok j
    → is_zero j.lease_expires_at ≡ false
    → Reach (WithinLease j.id j.lease_expires_at) (dequeue e topic d q).1 r
    → after e'.now j.lease_expires_at ≡ false
    → (dequeue e' topic' d' r).0 ≡ ok j'
    → j'.id ≢ j.id
dequeue_exclusive e e' topic topic' d d' j j' {q} {r} v got set reach early got' =
    held_back j.id j.lease_expires_at set r e' topic' d' j'
      (Reach-HasLease j.id j.lease_expires_at set (dequeue-HasLease e topic d q j v got) reach)
      early got'
