-- ===== src/Queue/Memqueue/Delivery.antt =====
-- Which job a `Dequeue` hands out, and what it leaves in the topic.
use flames.Prelude.{
  String, ◌≡◌, refl, true, false, Bool-cases, ap, none, some, List, [], ◌∷◌, ◌++◌, All, arith, inl,
  inr, ◌⊎◌, ◌==◌, string_eq, integer_eq, if◌then◌else◌,
}
use flames.Dict.{Dict, insert, lookup-insert}
use flames.Runtime.{Env, Time, Duration}
use flames.Providererr.{err_no_jobs}
use flames.Result.{ok, err}
use flames.Queue.Memqueue.{
  QueueEntry, TopicRef, Queue, entries, available, leased, take_available, dequeue,
}

-- Nothing in the list is available.
abbrev pub AllLeased : Time → List QueueEntry → Type 0
AllLeased now = All (λ e. available now e.job ≡ false)

-- The first available entry of a list, with what stands before and behind it.
pub record First (now : Time) (es : List QueueEntry) : Type 0 where
  pub before : List QueueEntry
  pub hit : QueueEntry
  pub behind : List QueueEntry
  pub split : es ≡ before ++ hit ∷ behind
  pub all_leased : AllLeased now before
  pub is_available : available now hit.job ≡ true

take_available-cases :
    (now : Time) (d : Duration) (es : List QueueEntry)
    → (AllLeased now es × (take_available now d es ≡ none))
      ⊎ ((f : First now es) × (take_available now d es
            ≡ some (
              leased now d f.hit.job,
              f.before ++ record { job = leased now d f.hit.job } ∷ f.behind,
            )))
unfolding take_available
take_available-cases now d [] = inl (tt, refl)
take_available-cases now d (e ∷ es) = elim (Bool-cases (available now e.job)) [
  | inl free ↦ inr (
    record {
      before = [];
      hit = e;
      behind = es;
      split = refl;
      all_leased = tt;
      is_available = free;
    },
    rw free,
  )
  | inr held ↦ elim (take_available-cases now d es) [
    | inl (none_free, p) ↦ inl ((held, none_free), rw (held, p))
    | inr (f, p) ↦ inr (
      record {
        before = e ∷ f.before;
        hit = f.hit;
        behind = f.behind;
        split = ap (◌∷◌ e) f.split;
        all_leased = (held, f.all_leased);
        is_available = f.is_available;
      },
      rw (held, p),
    )
  ]
]

pub entries-insert :
    (q : Queue) (i : Dict TopicRef) (t u : String) (es : List QueueEntry)
    → entries (record { topics = insert t es q.topics; index = i }) u
      ≡ (if t == u then es else entries q u)
unfolding entries
entries-insert q i t u es = ground (arith, lookup-insert t u es q.topics)

-- `Dequeue` returns `ErrNoJobs` and changes nothing exactly when every job of the topic is leased.
-- Otherwise it returns the first job that is not, with its new lease and its count, and changes
-- that entry alone: the jobs before it are all leased.
pub dequeue-First :
    (e : Env) (topic : String) (d : Duration) (q : Queue)
    → (AllLeased e.now (entries q topic) × (dequeue e topic d q ≡ (err err_no_jobs, q)))
      ⊎ ((f : First e.now (entries q topic)) × ((dequeue e topic d q).0
            ≡ ok (leased e.now d f.hit.job))
          × ((dequeue e topic d q).1.index ≡ q.index)
          × ((u : String)
              → entries (dequeue e topic d q).1 u ≡ (
                  if topic == u
                  then f.before ++ record { job = leased e.now d f.hit.job } ∷ f.behind
                  else entries q u)))
unfolding dequeue
dequeue-First e topic d q = elim (take_available-cases e.now d (entries q topic)) [
  | inl (none_free, p) ↦ inl (none_free, rw (p, dequeue))
  | inr (f, p) ↦ inr (
    f,
    rw (p, dequeue),
    rw (p, dequeue),
    λ u. rw (p, dequeue) (entries-insert q q.index topic u _),
  )
]
