-- ===== src/Queue/Memqueue/Identities.antt =====
-- Lists of jobs, of which only what never changes is kept: the specification that the queue's slices
-- are held against.
use flames.Prelude.{
  String, ◌≡◌, refl, ◌≢◌, Bool, true, false, ◌||◌, List, [], ◌∷◌, ◌++◌, All, All-append, arith,
  ◌==◌, string_eq, if◌then◌else◌,
}
use flames.Runtime.{Time, Bytes}

-- The part of a job that no call changes.
pub record Identity : Type 0 where
  pub id : String
  pub topic : String
  pub payload : Bytes
  pub enqueued_at : Time

abbrev pub Lacks : String → List Identity → Type 0
Lacks id = All (λ j. j.id ≢ id)

abbrev pub Distinct : List Identity → Type 0
Distinct [] = Unit
Distinct (j ∷ js) = Lacks j.id js × Distinct js

unfoldable pub drop_job : String → List Identity → List Identity
drop_job id [] = []
drop_job id (j ∷ js) = if j.id == id then js else j ∷ drop_job id js

abbrev pub contains : String → List Identity → Bool
contains id [] = false
contains id (j ∷ js) = j.id == id || contains id js

module _ {P Q R : Identity → Type 0} (combine : (j : Identity) → P j → Q j → R j) where
  pub All-combine : (js : List Identity) → All P js → All Q js → All R js
  All-combine [] p q = tt
  All-combine (j ∷ js) p q = (combine j p.0 q.0, All-combine js p.1 q.1)

pub All-drop_job :
    (P : Identity → Type 0) (id : String) (js : List Identity) → All P js → All P (drop_job id js)
unfolding drop_job
All-drop_job P id [] p = tt
All-drop_job P id (j ∷ js) p = ground (arith, All-drop_job P id js p.1)

pub drop_job-Lacks : (id : String) (js : List Identity) → Distinct js → Lacks id (drop_job id js)
unfolding drop_job
drop_job-Lacks id [] d = tt
drop_job-Lacks id (j ∷ js) d = ground (arith, drop_job-Lacks id js d.1)

pub drop_job-Distinct : (id : String) (js : List Identity) → Distinct js → Distinct (drop_job id js)
unfolding drop_job
drop_job-Distinct id [] d = tt
drop_job-Distinct id (j ∷ js) d =
    ground (arith, drop_job-Distinct id js d.1, All-drop_job (λ k. k.id ≢ j.id) id js)

pub drop_job_absent : (id : String) (js : List Identity) → Lacks id js → drop_job id js ≡ js
unfolding drop_job
drop_job_absent id [] l = refl
drop_job_absent id (j ∷ js) l = ground (arith, drop_job_absent id js l.1)

pub contains-drop_job :
    (id other : String) (js : List Identity)
    → other ≢ id
    → contains other js ≡ true
    → contains other (drop_job id js) ≡ true
unfolding drop_job
contains-drop_job id other [] h c = c
contains-drop_job id other (j ∷ js) h c = ground (arith, contains-drop_job id other js h)

pub not-contains : (id : String) (js : List Identity) → Lacks id js → contains id js ≢ true
not-contains id [] l h = cc
not-contains id (j ∷ js) l h = not-contains id js l.1 (ground arith)

pub contains-append :
    (id : String) (xs ys : List Identity)
    → contains id (xs ++ ys) ≡ (contains id xs || contains id ys)
contains-append id [] ys = refl
contains-append id (x ∷ xs) ys = ground (arith, contains-append id xs ys)

pub append-Distinct :
    (xs : List Identity) (j : Identity) → Distinct xs → Lacks j.id xs → Distinct (xs ++ j ∷ [])
append-Distinct [] j d l = (tt, tt)
append-Distinct (x ∷ xs) j d l =
    (All-append (λ k. k.id ≢ x.id) xs (j ∷ []) d.0 (ground arith, tt), append-Distinct xs j d.1 l.1)
