-- ===== src/Queue/Memqueue/Redelivery.antt =====
-- At-least-once delivery: a job along the history of calls between two deliveries.
use mathlib.Core.HLevel.{⊥_prop}
use mathlib.Core.Logic.Or
use mathlib.Core.List.{
  Mem-prop, mem-append_left, mem-cons, mem-cons_self, mem-cons_of_mem, not-mem-nil,
}
use flames.Prelude.{
  String, ◌≡◌, sym, ap, ◌∙◌, ◌≢◌, subst, Bool, true, false, Bool-cases, ◌||◌, List, [], ◌∷◌, ◌++◌,
  map, Mem, All, arith, inl, inr, ◌==◌, string_eq, integer_eq, if◌then◌else◌,
}
use flames.Runtime.{Env, Time, Duration, is_zero, after}
use flames.Model.{Job}
use flames.Result.{ok}
use flames.Queue.Memqueue.{QueueEntry, Queue, entries, available, dequeue}
use flames.Queue.Memqueue.Identities.{Identity, Lacks, drop_job}
use flames.Queue.Memqueue.Delivery.{AllLeased, dequeue-First}
use flames.Queue.Memqueue.Jobs.{identity, jobs, jobs-dequeue, jobs-enqueue, jobs-nack}
use flames.Queue.Memqueue.Valid.{IsValid}
use flames.Queue.Memqueue.Acked.{ack-drop_job}
use flames.Queue.Memqueue.History.{
  Call, enqueues, dequeues, acks, nacks, step, Reach, here, next, IsFresh, step-IsValid,
}
use flames.Queue.Memqueue.Lease.{HasLease, WithinLease, Reach-HasLease, dequeue-HasLease}

-- No `Enqueue` draws the ID of a job that is there, and `Ack` is not called for the job.
abbrev pub Keeps : String → Queue → Env × Call → Type 0
Keeps id q (e, acks other) = other ≢ id
Keeps id q (e, enqueues topic payload) = IsFresh q (e, enqueues topic payload)
Keeps id q (e, _) = Unit

Keeps-IsFresh : (id : String) (q : Queue) (c : Env × Call) → Keeps id q c → IsFresh q c
Keeps-IsFresh id q (e, enqueues topic payload) k = k
Keeps-IsFresh id q (e, dequeues topic d) k = tt
Keeps-IsFresh id q (e, acks other) k = tt
Keeps-IsFresh id q (e, nacks other retry_at) k = tt

mem-drop_job :
    (id : String) (x : Identity) (js : List Identity)
    → x.id ≢ id
    → Mem x js
    → Mem x (drop_job id js)
unfolding drop_job
mem-drop_job id x [] ne m = m
mem-drop_job id x (j ∷ js) ne m = elim (Bool-cases (j.id == id)) [
  | inl hit ↦ rw hit (
      Or.elim Mem-prop (mem-cons.0 m)
        (λ (e : x ≡ j). absurd (ne (ap (λ (k : Identity). k.id) e ∙ ground arith))) (λ m'. m'))
  | inr miss ↦ rw miss (
      Or.elim Mem-prop (mem-cons.0 m) (λ (e : x ≡ j). rw e mem-cons_self)
        (λ m'. mem-cons_of_mem j (mem-drop_job id x js ne m')))
]

mem-if :
    (b : Bool) (x : Identity) (js : List Identity) (new : Identity)
    → Mem x js
    → Mem x (if b then js ++ new ∷ [] else js)
mem-if true x js new m = mem-append_left (new ∷ []) m
mem-if false x js new m = m

step-mem :
    (q : Queue) (c : Env × Call) (t : String) (x : Identity)
    → IsValid q
    → Keeps x.id q c
    → Mem x (jobs q t)
    → Mem x (jobs (step q c) t)
unfolding step
step-mem q (e, enqueues topic payload) t x v k m =
    rw (jobs-enqueue e topic payload q t) (mem-if (topic == t) x (jobs q t) _ m)
step-mem q (e, dequeues topic d) t x v k m = rw (jobs-dequeue e topic d q t) m
step-mem q (e, nacks other retry_at) t x v k m = rw (jobs-nack other retry_at q t) m
step-mem q (e, acks other) t x v k m = elim (ack-drop_job other q v) [
  | inl (_, p) ↦ rw (p, step) m
  | inr (_, _, _, js) ↦ rw (js t, step) (mem-drop_job other x (jobs q t) (λ s. k (sym s)) m)
]

module _ (x : Identity) where
  Reach-mem-IsValid :
      {q r : Queue} (t : String)
      → IsValid q
      → Mem x (jobs q t)
      → Reach (Keeps x.id) q r
      → IsValid r × Mem x (jobs r t)
  Reach-mem-IsValid t v m here = (v, m)
  Reach-mem-IsValid t v m (next {r = r} c reach k) =
      let (v', m') = Reach-mem-IsValid t v m reach in
      (step-IsValid r c (Keeps-IsFresh x.id r c k) v', step-mem r c t x v' k m')

  -- No job is lost: from a valid queue, whatever is called, a job stays in its topic with its ID,
  -- payload and time, as long as it is not acknowledged and no ID of a job that is there is drawn
  -- again.
  pub Reach-mem :
      {q r : Queue} (t : String)
      → IsValid q
      → Mem x (jobs q t)
      → Reach (Keeps x.id) q r
      → Mem x (jobs r t)
  Reach-mem t v m reach = (Reach-mem-IsValid t v m reach).1

-- An entry whose lease has run out is available.
expired-available :
    (now lease : Time) (e : QueueEntry)
    → after now lease ≡ true
    → e.job.lease_expires_at ≡ lease
    → available now e.job ≡ true
expired-available now lease e a p =
    ap (λ l. is_zero l || after now l) p ∙ or_true (is_zero lease) _ a
  where
    or_true : (a b : Bool) → b ≡ true → (a || b) ≡ true
    or_true a b h = ground arith

AllLeased-Lacks :
    (now lease : Time) (id : String) (es : List QueueEntry)
    → after now lease ≡ true
    → All (HasLease id lease) es
    → AllLeased now es
    → Lacks id (map identity es)
AllLeased-Lacks now lease id [] a h l = tt
AllLeased-Lacks now lease id (e ∷ es) a h l = (
  λ same. cc (l.0, expired-available now lease e a (h.0 same)),
  AllLeased-Lacks now lease id es a h.1 l.1,
)

Lacks-not-mem : (x : Identity) (js : List Identity) → Lacks x.id js → ¬ Mem x js
Lacks-not-mem x [] l = not-mem-nil
Lacks-not-mem x (j ∷ js) l = λ m.
    Or.elim ⊥_prop (mem-cons.0 m) (λ (e : x ≡ j). l.0 (ap (λ (k : Identity). k.id) (sym e)))
      (Lacks-not-mem x js l.1)

-- Until the lease of a job has run out, and as long as the job is not acknowledged.
abbrev pub Outstanding : String → Time → Queue → Env × Call → Type 0
Outstanding id lease q c = WithinLease id lease q c × Keeps id q c

Reach-weaken :
    {P R : Queue → Env × Call → Type 0} {q r : Queue}
    → ((s : Queue) (c : Env × Call) → P s c → R s c)
    → Reach P q r
    → Reach R q r
Reach-weaken f here = here
Reach-weaken f (next {r = r} c reach p) = next c (Reach-weaken f reach) (f r c p)

mem-split :
    (xs ys : List QueueEntry) (h : QueueEntry) → Mem (identity h) (map identity (xs ++ h ∷ ys))
mem-split [] ys h = mem-cons_self
mem-split (x ∷ xs) ys h = mem-cons_of_mem (identity x) (mem-split xs ys h)

module _ (e : Env) (topic : String) (d : Duration) (q : Queue) (v : IsValid q) where
  dequeued-IsValid : IsValid (dequeue e topic d q).1
  unfolding step
  dequeued-IsValid = step-IsValid q (e, dequeues topic d) tt v

  dequeued-mem :
      (j : Job)
      → (dequeue e topic d q).0 ≡ ok j
      → (x : Identity) × (x.id ≡ j.id) × Mem x (jobs (dequeue e topic d q).1 topic)
  dequeued-mem j got = elim (dequeue-First e topic d q) [
    | inl (_, p) ↦ absurd (cc (p, got))
    | inr (f, p, _, _) ↦ (
      identity f.hit,
      cc (p, got),
      rw (jobs-dequeue e topic d q topic) (
          subst (λ es. Mem (identity f.hit) (map identity es)) (sym f.split)
            (mem-split f.before f.behind f.hit)),
    )
  ]

-- At-least-once delivery: when the lease of a job that was handed out from a valid queue has run
-- out, a `Dequeue` of its topic hands out a job again and does not answer `ErrNoJobs`, whatever
-- calls came between, if the lease was set, nobody acknowledged the job or released it by `Nack`,
-- no `Enqueue` drew its ID or that of a job that was there, and no `Dequeue` in between came after
-- the end of the lease.
pub dequeue_again :
    (e e' : Env) (topic : String) (d d' : Duration) (j : Job) {q r : Queue}
    → IsValid q
    → (dequeue e topic d q).0 ≡ ok j
    → is_zero j.lease_expires_at ≡ false
    → Reach (Outstanding j.id j.lease_expires_at) (dequeue e topic d q).1 r
    → after e'.now j.lease_expires_at ≡ true
    → (j' : Job) × ((dequeue e' topic d' r).0 ≡ ok j')
dequeue_again e e' topic d d' j {q} {r} v got set reach late = elim (dequeue-First e' topic d' r) [
  | inr (f, p, _, _) ↦ (_, p)
  | inl (held, _) ↦
      let (x, same, there) = dequeued-mem e topic d q v j got in
      let leases =
        Reach-HasLease j.id j.lease_expires_at set (dequeue-HasLease e topic d q j v got)
          (Reach-weaken (λ s c o. o.0) reach) in
      let still =
        Reach-mem x topic (dequeued-IsValid e topic d q v) there
          (Reach-weaken (λ s c o. subst (λ i. Keeps i s c) (sym same) o.1) reach) in
      absurd (
        Lacks-not-mem x (jobs r topic)
          (subst (λ i. Lacks i (jobs r topic)) (sym same)
            (AllLeased-Lacks e'.now j.lease_expires_at j.id (entries r topic) late (leases topic)
              held))
          still)
]
