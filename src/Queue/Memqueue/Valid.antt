-- ===== src/Queue/Memqueue/Valid.antt =====
-- The invariant of the two maps of a queue: the index and the topics agree, and no ID is twice in
-- a topic.
use flames.Prelude.{
  String, ◌≡◌, refl, sym, ap, ◌∙◌, subst, Bool, true, false, Option, Bool-cases, none, some, List,
  [], ◌∷◌, ◌++◌, All, All-append, arith, inl, inr, ◌==◌, string_eq, if◌then◌else◌,
}
use flames.Dict.{Dict, lookup, insert, lookup-nil, lookup-insert}
use flames.Runtime.{Env, Bytes, new_id}
use flames.Queue.Memqueue.{TopicRef, Queue, new, entries, enqueue}
use flames.Queue.Memqueue.Identities.{
  Identity, Lacks, Distinct, contains, All-combine, contains-append, append-Distinct,
}
use flames.Queue.Memqueue.Jobs.{jobs, created, jobs-enqueue, index-enqueue}

-- A job of a topic names the topic, and the index leads from its ID to it.
abbrev pub IsHome : Dict TopicRef → String → Identity → Type 0
IsHome index t j = (j.topic ≡ t) × (lookup j.id index ≡ some (record { topic = t }))

pub record IsValid (q : Queue) : Type 0 where
  pub homed : (t : String) → All (IsHome q.index t) (jobs q t)
  pub distinct : (t : String) → Distinct (jobs q t)
  pub found :
      (id : String) (ref : TopicRef)
      → lookup id q.index ≡ some ref
      → contains id (jobs q ref.topic) ≡ true

pub new-IsValid : IsValid new
unfolding entries
new-IsValid = record {
  homed = λ t. rw lookup-nil tt;
  distinct = λ t. rw lookup-nil tt;
  found = λ id ref h. absurd (
      subst (λ (o : Option TopicRef). elim o [ none ↦ Unit {0} | some _ ↦ ⊥ ]) h
        (rw lookup-nil tt));
}

fresh-Lacks :
    (index : Dict TopicRef) (t id : String) (js : List Identity)
    → lookup id index ≡ none
    → All (IsHome index t) js
    → Lacks id js
fresh-Lacks index t id js h home =
    All-combine {P = IsHome index t} {Q = IsHome index t} (λ j p _ e. ground arith) js home home

pub same-IsValid :
    (q r : Queue) → r.index ≡ q.index → ((u : String) → jobs r u ≡ jobs q u) → IsValid q → IsValid r
unfolding entries
same-IsValid q r i j v = record {
  homed = λ t. rw (i, j t) (v.homed t);
  distinct = λ t. rw (j t) (v.distinct t);
  found = λ id ref h. rw (j ref.topic) (v.found id ref (sym (ap (lookup id) i) ∙ h));
}

module _ (e : Env) (topic : String) (payload : Bytes) (q : Queue) (v : IsValid q) where
  abbrev index' : Dict TopicRef
  index' = insert (new_id e.random) (record { topic = topic }) q.index

  module _ (fresh : lookup (new_id e.random) q.index ≡ none) where
    old_homed : (u : String) → All (IsHome index' u) (jobs q u)
    old_homed u =
        All-combine {P = IsHome q.index u} {Q = IsHome q.index u}
          (λ j p _. (
            p.0,
            ground (
              arith,
              lookup-insert (new_id e.random) j.id (record { topic = topic }) q.index,
              p.1,
            ),
          ))
          (jobs q u) (v.homed u) (v.homed u)

    new_homed : IsHome index' topic (created e topic payload)
    new_homed = (
      refl,
      ground (
        arith,
        lookup-insert (new_id e.random) (new_id e.random) (record { topic = topic }) q.index,
      ),
    )

    homed_if :
        (b : Bool) (u : String)
        → (b ≡ true → topic ≡ u)
        → All (IsHome index' u) (if b then jobs q u ++ created e topic payload ∷ [] else jobs q u)
    homed_if true u h =
        All-append (IsHome index' u) (jobs q u) (created e topic payload ∷ []) (old_homed u)
          (subst (λ t. IsHome index' t (created e topic payload)) (h refl) new_homed, tt)
    homed_if false u h = old_homed u

    enqueue_homed : (u : String) → All (IsHome index' u) (jobs (enqueue e topic payload q).1 u)
    enqueue_homed u =
        rw (jobs-enqueue e topic payload q u) (homed_if (topic == u) u (λ p. ground arith))

    enqueue-Distinct : (u : String) → Distinct (jobs (enqueue e topic payload q).1 u)
    enqueue-Distinct u = rw (jobs-enqueue e topic payload q u) (elim (Bool-cases (topic == u)) [
      | inl same ↦ rw same (
          append-Distinct (jobs q u) _ (v.distinct u)
            (fresh-Lacks q.index u _ (jobs q u) fresh (v.homed u)))
      | inr other ↦ rw other (v.distinct u)
    ])

    enqueue_found :
        (id : String) (ref : TopicRef)
        → lookup id index' ≡ some ref
        → contains id (jobs (enqueue e topic payload q).1 ref.topic) ≡ true
    enqueue_found id ref h = rw (jobs-enqueue e topic payload q ref.topic) (
        ground (
          arith,
          lookup-insert (new_id e.random) id (record { topic = topic }) q.index,
          v.found id ref,
          contains-append id (jobs q ref.topic) (created e topic payload ∷ []),
        ))

    pub enqueue-IsValid : IsValid (enqueue e topic payload q).1
    enqueue-IsValid = record {
      homed = λ u. rw (index-enqueue e topic payload q) (enqueue_homed u);
      distinct = enqueue-Distinct;
      found = λ id ref h.
          enqueue_found id ref (sym (ap (lookup id) (index-enqueue e topic payload q)) ∙ h);
    }
