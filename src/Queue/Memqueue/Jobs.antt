-- ===== src/Queue/Memqueue/Jobs.antt =====
-- What never changes of the jobs of a queue: each call in terms of the list of jobs of each topic.
use flames.Prelude.{
  String, pos, ◌≡◌, refl, ap, ◌∙◌, true, Option-cases, Bool-cases, none, some, List, [], ◌∷◌, ◌++◌,
  map, arith, inl, inr, ◌⊎◌, ◌==◌, string_eq, if◌then◌else◌,
}
use mathlib.Core.List.{map-append}
use flames.Dict.{lookup, insert, erase}
use flames.Runtime.{Env, Time, Duration, Bytes, zero_time, new_id}
use flames.Providererr.{not_found}
use flames.Result.{ok, err}
use flames.Queue.Memqueue.{
  QueueEntry, TopicRef, Queue, entries, leased, enqueue, dequeue, ack, nack, remove_job,
  release_job,
}
use flames.Queue.Memqueue.Identities.{Identity, Lacks, drop_job, contains}
use flames.Queue.Memqueue.Delivery.{First, dequeue-First, entries-insert}

abbrev pub identity : QueueEntry → Identity
identity e = record {
  id = e.job.id;
  topic = e.job.topic;
  payload = e.job.payload;
  enqueued_at = e.job.enqueued_at;
}

abbrev pub created : Env → String → Bytes → Identity
created e topic payload = record {
  id = new_id e.random;
  topic = topic;
  payload = payload;
  enqueued_at = e.now;
}

abbrev pub fresh_entry : Env → String → Bytes → QueueEntry
fresh_entry e topic payload = record {
  job = record {
    id = new_id e.random;
    topic = topic;
    payload = payload;
    lease_expires_at = zero_time;
    enqueued_at = e.now;
    dequeue_count = pos 0;
  };
}

-- The jobs of a topic, in the order of the slice.
abbrev pub jobs : Queue → String → List Identity
jobs q t = map identity (entries q t)

map-split :
    (now : Time) (d : Duration) (es : List QueueEntry) (f : First now es)
    → map identity (f.before ++ record { job = leased now d f.hit.job } ∷ f.behind)
      ≡ map identity es
map-split now d es f = rw (f.split, map-append, map-append)

-- `Dequeue` changes no job's identity, and neither adds, drops nor reorders a job.
pub jobs-dequeue :
    (e : Env) (topic : String) (d : Duration) (q : Queue) (u : String)
    → jobs (dequeue e topic d q).1 u ≡ jobs q u
jobs-dequeue e topic d q u = elim (dequeue-First e topic d q) [
  | inl (_, p) ↦ rw p
  | inr (f, _, _, p) ↦ elim (string_eq.dec topic u) [
    | yes same ↦
        ap (map identity) (p u) ∙ ground (arith, map-split e.now d (entries q topic) f, same)
    | no other ↦ ap (map identity) (p u) ∙ ground arith
  ]
]

-- `Enqueue` puts the new job at the end of its topic.
pub jobs-enqueue :
    (e : Env) (topic : String) (payload : Bytes) (q : Queue) (u : String)
    → jobs (enqueue e topic payload q).1 u
      ≡ (if topic == u then jobs q u ++ created e topic payload ∷ [] else jobs q u)
unfolding enqueue
jobs-enqueue e topic payload q u = elim (string_eq.dec topic u) [
  | yes same ↦
      ap (map identity) (entries-insert q _ topic u _)
      ∙ ground
          (arith, map-append identity (entries q topic) (fresh_entry e topic payload ∷ []), same)
  | no other ↦ ap (map identity) (entries-insert q _ topic u _) ∙ ground arith
]

remove_job-cases :
    (id : String) (es : List QueueEntry)
    → (Lacks id (map identity es) × (remove_job id es ≡ none))
      ⊎ ((rest : List QueueEntry) × (remove_job id es ≡ some rest)
          × (contains id (map identity es) ≡ true)
          × (map identity rest ≡ drop_job id (map identity es)))
unfolding remove_job drop_job
remove_job-cases id [] = inl (tt, refl)
remove_job-cases id (e ∷ es) = elim (Bool-cases (e.job.id == id)) [
  | inl hit ↦ inr (es, rw hit, rw hit, rw hit)
  | inr miss ↦ elim (remove_job-cases id es) [
    | inl (lacks, p) ↦ inl ((ground arith, lacks), rw (miss, p))
    | inr (rest, p, c, m) ↦
        inr (e ∷ rest, rw (miss, p), rw miss c, rw miss (ap (◌∷◌ (identity e)) m))
  ]
]

release_job-cases :
    (id : String) (retry_at : Time) (es : List QueueEntry)
    → (Lacks id (map identity es) × (release_job id retry_at es ≡ none))
      ⊎ ((rest : List QueueEntry) × (release_job id retry_at es ≡ some rest)
          × (map identity rest ≡ map identity es))
unfolding release_job
release_job-cases id retry_at [] = inl (tt, refl)
release_job-cases id retry_at (e ∷ es) = elim (Bool-cases (e.job.id == id)) [
  | inl hit ↦ inr (record { job = record e.job { lease_expires_at = retry_at } } ∷ es, rw hit, refl)
  | inr miss ↦ elim (release_job-cases id retry_at es) [
    | inl (lacks, p) ↦ inl ((ground arith, lacks), rw (miss, p))
    | inr (rest, p, m) ↦ inr (e ∷ rest, rw (miss, p), ap (◌∷◌ (identity e)) m)
  ]
]

-- `Nack` changes no job's identity, and neither adds, drops nor reorders a job.
pub jobs-nack :
    (id : String) (retry_at : Time) (q : Queue) (u : String)
    → jobs (nack id retry_at q).1 u ≡ jobs q u
unfolding nack
jobs-nack id retry_at q u = elim (Option-cases (lookup id q.index)) [
  | inl p ↦ rw (p, nack)
  | inr (ref, p) ↦ elim (release_job-cases id retry_at (entries q ref.topic)) [
    | inl (_, r) ↦ rw (p, nack) (rw (r, nack))
    | inr (es, r, m) ↦
        rw (p, nack)
          (rw (r, nack)
            (ap (map identity) (entries-insert q q.index ref.topic u es) ∙ ground (arith, m)))
  ]
]

-- Where the index has the job's topic, `Ack` removes the job there; elsewhere it fails.
pub ack-cases :
    (id : String) (q : Queue)
    → ((lookup id q.index ≡ none) × (ack id q ≡ (err (not_found "job" id), q)))
      ⊎ ((ref : TopicRef) × (lookup id q.index ≡ some ref) × Lacks id (jobs q ref.topic))
      ⊎ ((ref : TopicRef) × (lookup id q.index ≡ some ref)
          × ((ack id q).0 ≡ ok tt)
          × ((ack id q).1.index ≡ erase id q.index)
          × ((u : String)
              → jobs (ack id q).1 u
                ≡ (if ref.topic == u then drop_job id (jobs q u) else jobs q u)))
unfolding ack
ack-cases id q = elim (Option-cases (lookup id q.index)) [
  | inl p ↦ inl (p, rw (p, ack))
  | inr (ref, p) ↦ elim (remove_job-cases id (entries q ref.topic)) [
    | inl (lacks, _) ↦ inr (inl (ref, p, lacks))
    | inr (es, r, _, m) ↦ inr (
        inr (
          ref,
          p,
          rw (p, ack) (rw (r, ack)),
          rw (p, ack) (rw (r, ack)),
          λ u.
              rw (p, ack)
                (rw (r, ack)
                  (ap (map identity) (entries-insert q _ ref.topic u es) ∙ ground (arith, m))),
        ))
  ]
]

pub index-nack :
    (id : String) (retry_at : Time) (q : Queue) → (nack id retry_at q).1.index ≡ q.index
unfolding nack
index-nack id retry_at q = ground arith

pub index-dequeue :
    (e : Env) (topic : String) (d : Duration) (q : Queue) → (dequeue e topic d q).1.index ≡ q.index
unfolding dequeue
index-dequeue e topic d q = ground arith

pub index-enqueue :
    (e : Env) (topic : String) (payload : Bytes) (q : Queue)
    → (enqueue e topic payload q).1.index
      ≡ insert (new_id e.random) (record { topic = topic }) q.index
unfolding enqueue
index-enqueue e topic payload q = refl
