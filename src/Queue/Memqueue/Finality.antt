-- ===== src/Queue/Memqueue/Finality.antt =====
-- Acknowledged jobs along a history of calls.
use flames.Prelude.{
  String, ◌≡◌, sym, ◌≢◌, subst, List, [], ◌∷◌, map, All, inl, inr, string_eq, integer_eq,
}
use flames.Runtime.{Env, Duration, new_id}
use flames.Model.{Job}
use flames.Result.{ok}
use flames.Queue.Memqueue.{QueueEntry, Queue, dequeue, ack}
use flames.Queue.Memqueue.Identities.{Lacks, drop_job-Lacks}
use flames.Queue.Memqueue.Delivery.{dequeue-First}
use flames.Queue.Memqueue.Jobs.{identity, jobs}
use flames.Queue.Memqueue.Valid.{IsValid}
use flames.Queue.Memqueue.Acked.{ack-drop_job}
use flames.Queue.Memqueue.History.{Call, enqueues, dequeues, acks, nacks, step, Reach, here, next}
use flames.Queue.Memqueue.Entrywise.{
  Entrywise, All-parts, enqueue-Entrywise, dequeue-Entrywise, ack-Entrywise, nack-Entrywise,
}

-- No `Enqueue` draws the ID again.
abbrev pub Unused : String → Queue → Env × Call → Type 0
Unused id q (e, enqueues topic payload) = new_id e.random ≢ id
Unused id q (e, _) = Unit

abbrev Other : String → QueueEntry → Type 0
Other id e = e.job.id ≢ id

Lacks-Other : (id : String) (es : List QueueEntry) → Lacks id (map identity es) → All (Other id) es
Lacks-Other id [] l = tt
Lacks-Other id (e ∷ es) l = (l.0, Lacks-Other id es l.1)

step-Other :
    (id : String) (q : Queue) (c : Env × Call)
    → Unused id q c
    → Entrywise (Other id) q
    → Entrywise (Other id) (step q c)
unfolding step
step-Other id q (e, enqueues topic payload) u h = enqueue-Entrywise (Other id) e topic payload q u h
step-Other id q (e, dequeues topic d) u h = dequeue-Entrywise (Other id) e topic d q (λ x p _. p) h
step-Other id q (e, acks other) u h = ack-Entrywise (Other id) other q h
step-Other id q (e, nacks other retry_at) u h =
    nack-Entrywise (Other id) other retry_at (λ x p _. p) q h

Reach-Other :
    (id : String) {q r : Queue}
    → Entrywise (Other id) q
    → Reach (Unused id) q r
    → Entrywise (Other id) r
Reach-Other id h here = h
Reach-Other id h (next {r = r} c reach u) = step-Other id r c u (Reach-Other id h reach)

-- A job of a valid queue whose `Ack` succeeded is never handed out again, whatever calls follow,
-- if no `Enqueue` draws its ID.
pub ack_final :
    (id : String) (e : Env) (topic : String) (d : Duration) (j : Job) {q r : Queue}
    → IsValid q
    → (ack id q).0 ≡ ok tt
    → Reach (Unused id) (ack id q).1 r
    → (dequeue e topic d r).0 ≡ ok j
    → j.id ≢ id
ack_final id e topic d j {q} {r} v done reach got = elim (ack-drop_job id q v) [
  | inl (_, p) ↦ absurd (cc (p, done))
  | inr (_, _, _, js) ↦
      let gone : Entrywise (Other id) (ack id q).1 = λ t.
        Lacks-Other id _
          (subst (Lacks id) (sym (js t)) (drop_job-Lacks id (jobs q t) (v.distinct t))) in
      let gone' = Reach-Other id gone reach in
      elim (dequeue-First e topic d r) [
        | inl (_, p) ↦ absurd (cc (p, got))
        | inr (f, p, _, _) ↦
            let parts =
              All-parts (Other id) f.before (f.hit ∷ f.behind)
                (subst (All (Other id)) f.split (gone' topic)) in
            λ same. parts.1.0 (cc (p, got, same))
      ]
]
