-- ===== src/Queue/Memqueue/Acked.antt =====
-- What `Ack` does to a queue whose index and topics agree.
use flames.Prelude.{
  String, ◌≡◌, sym, ap, ◌∙◌, subst, ◌≢◌, true, none, some, All, arith, inl, inr, ◌⊎◌, ◌==◌,
  string_eq, if◌then◌else◌,
}
use flames.Dict.{lookup, erase, lookup-erase}
use flames.Providererr.{not_found}
use flames.Result.{ok, err}
use flames.Queue.Memqueue.{TopicRef, Queue, ack}
use flames.Queue.Memqueue.Identities.{
  Lacks, Distinct, drop_job, contains, All-combine, All-drop_job, drop_job-Lacks, drop_job-Distinct,
  drop_job_absent, contains-drop_job, not-contains,
}
use flames.Queue.Memqueue.Jobs.{jobs, ack-cases}
use flames.Queue.Memqueue.Valid.{IsHome, IsValid}

module _ (id : String) (ref : TopicRef) (q : Queue) (v : IsValid q)
    (h : lookup id q.index ≡ some ref) where
  -- Only the topic that the index names can hold the job.
  elsewhere-Lacks : (u : String) → ref.topic ≢ u → Lacks id (jobs q u)
  elsewhere-Lacks u other =
      All-combine {P = IsHome q.index u} {Q = IsHome q.index u}
        (λ j p _ e. other (ground (arith, p.1))) (jobs q u) (v.homed u) (v.homed u)

  drop_job_if :
      (u : String)
      → (if ref.topic == u then drop_job id (jobs q u) else jobs q u) ≡ drop_job id (jobs q u)
  drop_job_if u = elim (string_eq.dec ref.topic u) [
    | yes same ↦ ground arith
    | no other ↦ ground (arith, drop_job_absent id (jobs q u) (elsewhere-Lacks u other))
  ]

-- `Ack` of a valid queue: either the index has no such job, and it answers not-found and changes
-- nothing; or it succeeds, the index forgets the job, and the job alone leaves the topics.
pub ack-drop_job :
    (id : String) (q : Queue)
    → IsValid q
    → ((lookup id q.index ≡ none) × (ack id q ≡ (err (not_found "job" id), q)))
      ⊎ ((lookup id q.index ≢ none)
          × ((ack id q).0 ≡ ok tt)
          × ((ack id q).1.index ≡ erase id q.index)
          × ((u : String) → jobs (ack id q).1 u ≡ drop_job id (jobs q u)))
ack-drop_job id q v = elim (ack-cases id q) [
  | inl missing ↦ inl missing
  | inr (inl (ref, p, lacks)) ↦ absurd (not-contains id (jobs q ref.topic) lacks (v.found id ref p))
  | inr (inr (ref, p, done, index, js)) ↦
      inr (ground arith, done, index, λ u. js u ∙ drop_job_if id ref q v p u)
]

module _ (id : String) (q : Queue) (v : IsValid q) where
  dropped_homed : (u : String) → All (IsHome (erase id q.index) u) (drop_job id (jobs q u))
  dropped_homed u =
      All-combine {P = IsHome q.index u} {Q = λ j. j.id ≢ id}
        (λ j p ne. (p.0, ground (arith, lookup-erase id j.id q.index, p.1)))
        (drop_job id (jobs q u)) (All-drop_job (IsHome q.index u) id (jobs q u) (v.homed u))
        (drop_job-Lacks id (jobs q u) (v.distinct u))

  dropped_found :
      (other : String) (r : TopicRef)
      → lookup other (erase id q.index) ≡ some r
      → contains other (drop_job id (jobs q r.topic)) ≡ true
  dropped_found other r p = ground (
    arith,
    lookup-erase id other q.index,
    v.found other r,
    contains-drop_job id other (jobs q r.topic),
  )

  dropped-IsValid :
      (r : Queue)
      → r.index ≡ erase id q.index
      → ((u : String) → jobs r u ≡ drop_job id (jobs q u))
      → IsValid r
  dropped-IsValid r i js = record {
    homed = λ u. subst (λ m. All (IsHome m u) (jobs r u)) (sym i) (rw (js u) (dropped_homed u));
    distinct = λ u. subst Distinct (sym (js u)) (drop_job-Distinct id (jobs q u) (v.distinct u));
    found = λ other ref h.
        ap (contains other) (js ref.topic)
        ∙ dropped_found other ref (sym (ap (lookup other) i) ∙ h);
  }

pub ack-IsValid : (id : String) (q : Queue) → IsValid q → IsValid (ack id q).1
ack-IsValid id q v = elim (ack-drop_job id q v) [
  | inl (_, e) ↦ rw e v
  | inr (_, _, i, js) ↦ dropped-IsValid id q v (ack id q).1 i js
]
