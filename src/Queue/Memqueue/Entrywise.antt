-- ===== src/Queue/Memqueue/Entrywise.antt =====
-- A property of every entry of the queue, call by call.
use flames.Prelude.{
  String, ◌≡◌, sym, subst, Bool, true, false, Option, Option-cases, Bool-cases, none, some, List,
  [], ◌∷◌, ◌++◌, All, All-append, arith, inl, inr, ◌==◌, string_eq, if◌then◌else◌,
}
use flames.Dict.{lookup}
use flames.Runtime.{Env, Time, Duration, Bytes}
use flames.Queue.Memqueue.{
  QueueEntry, Queue, entries, available, leased, enqueue, dequeue, ack, nack, remove_job,
  release_job, after_entry,
}
use flames.Queue.Memqueue.Delivery.{dequeue-First, entries-insert}
use flames.Queue.Memqueue.Jobs.{fresh_entry}

module _ (P : QueueEntry → Type 0) where
  abbrev pub Entrywise : Queue → Type 0
  Entrywise q = (t : String) → All P (entries q t)

  pub All-parts : (xs ys : List QueueEntry) → All P (xs ++ ys) → All P xs × All P ys
  All-parts [] ys h = (tt, h)
  All-parts (x ∷ xs) ys h = let (l, r) = All-parts xs ys h.1 in ((h.0, l), r)

  -- A call that writes the slice of one topic.
  Entrywise-insert :
      (q r : Queue) (t : String) (es : List QueueEntry)
      → ((u : String) → entries r u ≡ (if t == u then es else entries q u))
      → All P es
      → Entrywise q
      → Entrywise r
  Entrywise-insert q r t es h p all u = subst (All P) (sym (h u)) (at_test (t == u))
    where
      at_test : (b : Bool) → All P (if b then es else entries q u)
      at_test true = p
      at_test false = all u

  pub enqueue-Entrywise :
      (e : Env) (topic : String) (payload : Bytes) (q : Queue)
      → P (fresh_entry e topic payload)
      → Entrywise q
      → Entrywise (enqueue e topic payload q).1
  unfolding enqueue
  enqueue-Entrywise e topic payload q p all =
      Entrywise-insert q (enqueue e topic payload q).1 topic
        (entries q topic ++ fresh_entry e topic payload ∷ []) (λ u. entries-insert q _ topic u _)
        (All-append P (entries q topic) _ (all topic) (p, tt)) all

  pub dequeue-Entrywise :
      (e : Env) (topic : String) (d : Duration) (q : Queue)
      → ((x : QueueEntry)
          → P x
          → available e.now x.job ≡ true
          → P (record { job = leased e.now d x.job }))
      → Entrywise q
      → Entrywise (dequeue e topic d q).1
  dequeue-Entrywise e topic d q keep all = elim (dequeue-First e topic d q) [
    | inl (_, p) ↦ rw p all
    | inr (f, _, _, es) ↦
        let parts = All-parts f.before (f.hit ∷ f.behind) (subst (All P) f.split (all topic)) in
        Entrywise-insert q (dequeue e topic d q).1 topic _ es
          (All-append P f.before _ parts.0 (keep f.hit parts.1.0 f.is_available, parts.1.1)) all
  ]

  abbrev AllSome : Option (List QueueEntry) → Type 0
  AllSome none = Unit
  AllSome (some es) = All P es

  AllSome-after_entry :
      (e : QueueEntry) (o : Option (List QueueEntry)) → P e → AllSome o → AllSome (after_entry e o)
  AllSome-after_entry e none p h = tt
  AllSome-after_entry e (some es) p h = (p, h)

  remove_job-AllSome : (id : String) (es : List QueueEntry) → All P es → AllSome (remove_job id es)
  unfolding remove_job
  remove_job-AllSome id [] p = tt
  remove_job-AllSome id (e ∷ es) p = elim (Bool-cases (e.job.id == id)) [
    | inl hit ↦ rw hit p.1
    | inr miss ↦ rw miss (AllSome-after_entry e _ p.0 (remove_job-AllSome id es p.1))
  ]

  pub ack-Entrywise : (id : String) (q : Queue) → Entrywise q → Entrywise (ack id q).1
  unfolding ack
  ack-Entrywise id q all = elim (Option-cases (lookup id q.index)) [
    | inl p ↦ rw (p, ack) all
    | inr (ref, p) ↦ elim (Option-cases (remove_job id (entries q ref.topic))) [
      | inl r ↦ rw (p, ack) (rw (r, ack) all)
      | inr (es, r) ↦
          rw (p, ack)
            (rw (r, ack)
              (Entrywise-insert q _ ref.topic es (λ u. entries-insert q _ ref.topic u es)
                (subst AllSome r (remove_job-AllSome id (entries q ref.topic) (all ref.topic)))
                all))
    ]
  ]

  module _ (id : String) (retry_at : Time)
      (keep : (x : QueueEntry)
        → P x
        → x.job.id ≡ id
        → P (record { job = record x.job { lease_expires_at = retry_at } })) where
    release_job-AllSome : (es : List QueueEntry) → All P es → AllSome (release_job id retry_at es)
    unfolding release_job
    release_job-AllSome [] p = tt
    release_job-AllSome (e ∷ es) p = elim (Bool-cases (e.job.id == id)) [
      | inl hit ↦ rw hit (keep e p.0 (ground arith), p.1)
      | inr miss ↦ rw miss (AllSome-after_entry e _ p.0 (release_job-AllSome es p.1))
    ]

    pub nack-Entrywise : (q : Queue) → Entrywise q → Entrywise (nack id retry_at q).1
    unfolding nack
    nack-Entrywise q all = elim (Option-cases (lookup id q.index)) [
      | inl p ↦ rw (p, nack) all
      | inr (ref, p) ↦ elim (Option-cases (release_job id retry_at (entries q ref.topic))) [
        | inl r ↦ rw (p, nack) (rw (r, nack) all)
        | inr (es, r) ↦
            rw (p, nack)
              (rw (r, nack)
                (Entrywise-insert q _ ref.topic es (λ u. entries-insert q _ ref.topic u es)
                  (subst AllSome r (release_job-AllSome (entries q ref.topic) (all ref.topic)))
                  all))
      ]
    ]
