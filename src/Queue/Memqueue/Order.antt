-- ===== src/Queue/Memqueue/Order.antt =====
-- The order in which a worker is handed the jobs of a topic.
use flames.Prelude.{
  length-map, equal_self, none, some, ◌<◌, String, ◌≡◌, refl, sym, ap, subst, true, List, [], ◌∷◌,
  ◌++◌, map, length, All, arith, ◌∙◌, string_eq, integer_eq,
}
use mathlib.Core.List.{append_assoc, append-nil, map-map}
use flames.Dict.{lookup, erase}
use flames.Runtime.{Env, Duration, Bytes, new_id}
use flames.Model.{Job}
use flames.Result.{ok, err}
use flames.Providererr.{err_no_jobs}
use flames.Queue.Memqueue.{
  QueueEntry, Queue, entries, available, leased, enqueue, dequeue, take_available, ack, remove_job,
}
use flames.Queue.Memqueue.Identities.{Identity}
use flames.Queue.Memqueue.Drain.{drain}
use flames.Queue.Memqueue.Delivery.{entries-insert}
use flames.Queue.Memqueue.Jobs.{identity, jobs, jobs-dequeue, fresh_entry, index-dequeue}
use flames.Queue.Memqueue.Valid.{IsHome, IsValid, same-IsValid, enqueue-IsValid}
use flames.Queue.Memqueue.Acked.{ack-IsValid}

-- Every job of the list may be handed out at each of the times.
abbrev pub AllFree : List QueueEntry → List Env → Type 0
AllFree xs = All (λ (e : Env). All (λ (x : QueueEntry). available e.now x.job ≡ true) xs)

AllFree-tail :
    (x : QueueEntry) (xs : List QueueEntry) (es : List Env) → AllFree (x ∷ xs) es → AllFree xs es
AllFree-tail x xs [] a = tt
AllFree-tail x xs (e ∷ es) a = (a.0.1, AllFree-tail x xs es a.1)

abbrev the_job : Job → QueueEntry
the_job job = record { job = job }

module _ (e : Env) (topic : String) (d : Duration) (q : Queue) where
  dequeue-empty : entries q topic ≡ [] → dequeue e topic d q ≡ (err err_no_jobs, q)
  unfolding dequeue take_available
  dequeue-empty p = rw (p, dequeue) refl

  module _ (x : QueueEntry) (xs : List QueueEntry) (p : entries q topic ≡ x ∷ xs)
      (free : available e.now x.job ≡ true) where
    taken :
        take_available e.now d (entries q topic)
        ≡ some (leased e.now d x.job, the_job (leased e.now d x.job) ∷ xs)
    unfolding take_available
    taken = rw (p, take_available, free) refl

    dequeue-head :
        ((dequeue e topic d q).0 ≡ ok (leased e.now d x.job))
        × (entries (dequeue e topic d q).1 topic ≡ the_job (leased e.now d x.job) ∷ xs)
    unfolding dequeue
    dequeue-head = (
      rw (taken, dequeue) refl,
      rw (taken, dequeue) (entries-insert q q.index topic topic _ ∙ rw (equal_self topic) refl),
    )

ack-head :
    (topic : String) (q : Queue) (x : QueueEntry) (xs : List QueueEntry)
    → entries q topic ≡ x ∷ xs
    → lookup x.job.id q.index ≡ some (record { topic = topic })
    → entries (ack x.job.id q).1 topic ≡ xs
unfolding ack remove_job
ack-head topic q x xs p named =
    let removed : remove_job x.job.id (entries q topic) ≡ some xs =
      rw (p, remove_job, equal_self x.job.id) refl in
    rw (named, ack, removed)
      (entries-insert q (erase x.job.id q.index) topic topic xs ∙ rw (equal_self topic) refl)

abbrev pub identities : List Job → List Identity
identities = map (λ job. identity (the_job job))

module _ (topic : String) (d : Duration) where
  -- A worker that acknowledges each job of a topic before it takes the next is handed all jobs of the
  -- topic of a valid queue in the order in which they stand there, and then told that there is none,
  -- if they may all be handed out whenever it reads the clock, and it has rounds enough.
  pub drain-in_order :
      (es : List Env) (xs : List QueueEntry) (q : Queue)
      → IsValid q
      → entries q topic ≡ xs
      → AllFree xs es
      → length xs < length es
      → let (told, handed, r) = drain topic d es q in
        (told ≡ some err_no_jobs) × (identities handed ≡ jobs q topic) × (entries r topic ≡ [])
  unfolding drain
  drain-in_order [] xs q v p a h = absurd (omega (arith, h))
  drain-in_order (e ∷ es) [] q v p a h =
      let none_left = dequeue-empty e topic d q p in
      rw (none_left, drain)
        (refl, sym (ap (map identity) p), ap (λ x. entries x.1 topic) none_left ∙ p)
  drain-in_order (e ∷ es) (x ∷ xs) q v p a h =
      let (got, left) = dequeue-head e topic d q x xs p a.0.0 in
      let q' = (dequeue e topic d q).1 in
      let v' : IsValid q' =
        same-IsValid q q' (index-dequeue e topic d q) (jobs-dequeue e topic d q) v in
      let home = (subst (λ l. All (IsHome q.index topic) (map identity l)) p (v.homed topic)).0 in
      let named : lookup x.job.id q'.index ≡ some (record { topic = topic }) =
        ap (lookup x.job.id) (index-dequeue e topic d q) ∙ home.1 in
      let r = (ack x.job.id q').1 in
      let left' : entries r topic ≡ xs =
        ack-head topic q' (the_job (leased e.now d x.job)) xs left named in
      let (told, handed, gone) =
        drain-in_order es xs r (ack-IsValid x.job.id q' v') left' (AllFree-tail x xs es a.1)
          (omega (arith, h)) in
      rw (got, drain)
        (
          told,
          ap (λ l. identity x ∷ l) (handed ∙ ap (map identity) left') ∙ sym (ap (map identity) p),
          gone,
        )

abbrev sent_as : String → List (Env × Bytes) → List QueueEntry
sent_as topic = map (λ c. fresh_entry c.0 topic c.1)

module _ (topic : String) where
  pub enqueue_all : List (Env × Bytes) → Queue → Queue
  enqueue_all [] q = q
  enqueue_all ((e, payload) ∷ calls) q = enqueue_all calls (enqueue e topic payload q).1

  -- No call draws the ID of a job that is there.
  abbrev pub AllFresh : List (Env × Bytes) → Queue → Type 0
  AllFresh [] q = Unit
  AllFresh ((e, payload) ∷ calls) q =
      (lookup (new_id e.random) q.index ≡ none) × AllFresh calls (enqueue e topic payload q).1

  enqueue_all-IsValid :
      (calls : List (Env × Bytes)) (q : Queue)
      → AllFresh calls q
      → IsValid q
      → IsValid (enqueue_all calls q)
  unfolding enqueue_all
  enqueue_all-IsValid [] q f v = v
  enqueue_all-IsValid ((e, payload) ∷ calls) q f v =
      enqueue_all-IsValid calls (enqueue e topic payload q).1 f.1
        (enqueue-IsValid e topic payload q v f.0)

  entries-enqueue_all :
      (calls : List (Env × Bytes)) (q : Queue)
      → entries (enqueue_all calls q) topic ≡ entries q topic ++ sent_as topic calls
  unfolding enqueue_all enqueue
  entries-enqueue_all [] q = sym (append-nil (entries q topic))
  entries-enqueue_all ((e, payload) ∷ calls) q =
      entries-enqueue_all calls (enqueue e topic payload q).1
      ∙ ap (λ l. l ++ sent_as topic calls)
          (entries-insert q _ topic topic _ ∙ rw (equal_self topic) refl)
      ∙ append_assoc (entries q topic) (fresh_entry e topic payload ∷ []) (sent_as topic calls)

  sent_as-free :
      (e : Env) (calls : List (Env × Bytes))
      → All (λ (x : QueueEntry). available e.now x.job ≡ true) (sent_as topic calls)
  unfolding integer_eq
  sent_as-free e [] = tt
  sent_as-free e (c ∷ calls) = (refl, sent_as-free e calls)

  sent_as-AllFree : (calls : List (Env × Bytes)) (es : List Env) → AllFree (sent_as topic calls) es
  sent_as-AllFree calls [] = tt
  sent_as-AllFree calls (e ∷ es) = (sent_as-free e calls, sent_as-AllFree calls es)

  field :
      {B : Type 0} (f : Identity → B) (js : List Job) (calls : List (Env × Bytes))
      → identities js ≡ map identity (sent_as topic calls)
      → map (λ job. f (identity (the_job job))) js
        ≡ map (λ c. f (identity (fresh_entry c.0 topic c.1))) calls
  field f js calls p =
      sym (map-map f (λ job. identity (the_job job)) js)
      ∙ ap (map f) p
      ∙ map-map f identity (sent_as topic calls)
      ∙ map-map (λ x. f (identity x)) (λ c. fresh_entry c.0 topic c.1) calls

  -- First in, first out: payloads that are put in an empty topic of a valid queue come out in the same
  -- order, each once, under the IDs that `Enqueue` returned, at a worker that acknowledges each job
  -- before it takes the next; then it is told that there is no job, and the topic is empty. No
  -- `Enqueue` may draw the ID of a job that is there, and the worker needs one round more than there
  -- are jobs, whatever the clock shows.
  pub drain-enqueue_all :
      (d : Duration) (calls : List (Env × Bytes)) (es : List Env) (q : Queue)
      → IsValid q
      → entries q topic ≡ []
      → AllFresh calls q
      → length calls < length es
      → let (told, handed, r) = drain topic d es (enqueue_all calls q) in
        (told ≡ some err_no_jobs)
        × (map (λ job. job.payload) handed ≡ map (λ c. c.1) calls)
        × (map (λ job. job.id) handed ≡ map (λ c. new_id c.0.random) calls)
        × (entries r topic ≡ [])
  drain-enqueue_all d calls es q v empty fresh h =
      let handed_jobs = (drain topic d es (enqueue_all calls q)).1 in
      let there = entries-enqueue_all calls q ∙ ap (λ l. l ++ sent_as topic calls) empty in
      let (told, handed, gone) =
        drain-in_order topic d es (sent_as topic calls) (enqueue_all calls q)
          (enqueue_all-IsValid calls q fresh v) there (sent_as-AllFree calls es)
          (omega (arith, length-map (λ (c : Env × Bytes). fresh_entry c.0 topic c.1) calls, h)) in
      let sent : identities handed_jobs ≡ map identity (sent_as topic calls) =
        handed ∙ ap (map identity) there in
      (
        told,
        field (λ j. j.payload) handed_jobs calls sent,
        field (λ j. j.id) handed_jobs calls sent,
        gone,
      )
