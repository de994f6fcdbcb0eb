-- ===== src/Queue/Memqueue/Drain.antt =====
-- A worker that takes the jobs of a topic and acknowledges each before it takes the next.
use flames.Prelude.{
  Option, none, some, suc, ◌+◌, ◌<◌, String, ◌≡◌, refl, ap, subst, true, List, [], ◌∷◌, ◌++◌, map,
  length, All, arith, inl, inr, ◌⊎◌, string_eq,
}
use flames.Runtime.{Env, Duration}
use flames.Model.{Job}
use flames.Result.{ok, err}
use flames.Providererr.{Error, err_no_jobs}
use flames.Queue.Memqueue.{QueueEntry, Queue, leased, dequeue, ack}
use flames.Queue.Memqueue.Identities.{Identity, drop_job, contains}
use flames.Queue.Memqueue.Delivery.{dequeue-First}
use flames.Queue.Memqueue.Jobs.{identity, jobs, jobs-dequeue}
use flames.Queue.Memqueue.Valid.{IsHome, IsValid, same-IsValid}
use flames.Queue.Memqueue.Acked.{ack-drop_job, ack-IsValid}

-- Each round takes what the runtime supplies to its `Dequeue`. The loop ends with the first error or
-- after the last round: the error, if there was one, the jobs in order, and the queue.
unfoldable pub drain : String → Duration → List Env → Queue → Option Error × List Job × Queue
drain topic d [] q = (none, [], q)
drain topic d (e ∷ es) q = elim (dequeue e topic d q).0 [
  | err x ↦ (some x, [], (dequeue e topic d q).1)
  | ok job ↦
      let rest = drain topic d es (ack job.id (dequeue e topic d q).1).1 in
      (rest.0, job ∷ rest.1, rest.2)
]

length-drop_job :
    (id : String) (js : List Identity)
    → contains id js ≡ true
    → suc (length (drop_job id js)) ≡ length js
unfolding drop_job
length-drop_job id [] h = absurd (ground arith)
length-drop_job id (j ∷ js) h = ground (arith, length-drop_job id js)

at_hit :
    (P : Identity → Type 0) (xs ys : List QueueEntry) (h : QueueEntry)
    → All P (map identity (xs ++ h ∷ ys))
    → P (identity h)
at_hit P [] ys h a = a.0
at_hit P (x ∷ xs) ys h a = at_hit P xs ys h a.1

-- What a job that a round hands out and acknowledges leaves behind.
record Round (topic : String) (q r : Queue) : Type 0 where
  is_valid : IsValid r
  one_less : suc (length (jobs r topic)) ≡ length (jobs q topic)

module _ (e : Env) (topic : String) (d : Duration) (q : Queue) (v : IsValid q) where
  round :
      ((dequeue e topic d q).0 ≡ err err_no_jobs)
      ⊎ ((job : Job) × ((dequeue e topic d q).0 ≡ ok job)
          × Round topic q (ack job.id (dequeue e topic d q).1).1)
  round = elim (dequeue-First e topic d q) [
    | inl (_, p) ↦ inl (ap (λ x. x.0) p)
    | inr (f, got, index, _) ↦
        let id = f.hit.job.id in
        let q' = (dequeue e topic d q).1 in
        let v' : IsValid q' = same-IsValid q q' index (jobs-dequeue e topic d q) v in
        let home : IsHome q.index topic (identity f.hit) =
          at_hit (IsHome q.index topic) f.before f.behind f.hit
            (subst (λ es. All (IsHome q.index topic) (map identity es)) f.split (v.homed topic)) in
        let there : contains id (jobs q topic) ≡ true =
          v.found id (record { topic = topic }) home.1 in
        inr (
          leased e.now d f.hit.job,
          got,
          record {
            is_valid = ack-IsValid id q' v';
            one_less = elim (ack-drop_job id q' v') [
              | inl (gone, _) ↦ absurd (ground (arith, gone, index, home.1))
              | inr (_, _, _, js) ↦
                  rw (js topic, jobs-dequeue e topic d q topic)
                    (length-drop_job id (jobs q topic) there)
            ];
          },
        )
  ]

-- A worker that acknowledges each job of a topic before it takes the next is told that there is no
-- job within one round more than the topic of the valid queue had jobs, whatever the clock shows; and
-- no job is lost: those it was handed and those that are left are as many as there were.
pub drain-stops :
    (topic : String) (d : Duration) (es : List Env) (q : Queue)
    → IsValid q
    → length (jobs q topic) < length es
    → let (told, handed, r) = drain topic d es q in
      (told ≡ some err_no_jobs) × (length handed + length (jobs r topic) ≡ length (jobs q topic))
unfolding drain
drain-stops topic d [] q v h = absurd (omega arith)
drain-stops topic d (e ∷ es) q v h = elim (round e topic d q v) [
  | inl failed ↦
      rw (failed, drain) (refl, omega (arith, ap length (jobs-dequeue e topic d q topic)))
  | inr (job, got, next) ↦
      let (told, kept) =
        drain-stops topic d es (ack job.id (dequeue e topic d q).1).1 next.is_valid
          (omega (arith, next.one_less, h)) in
      rw (got, drain) (told, omega (arith, kept, next.one_less))
]
