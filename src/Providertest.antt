-- ===== src/Providertest.antt =====
-- What the conformance suites of providertest/ use of Go's `testing`: a subtest on one store reports
-- texts, and may give up. A report is its format, without the values that are put into it.
pub mod Queuetest
pub mod Cachetest
pub mod Blobtest
pub mod Ingresstest
pub mod Statetest
use flames.Prelude.{String, ◌≡◌, Bool, true, false, Option, none, some, List, [], ◌∷◌, ◌++◌, All}
use flames.Providererr.{Error, errors_is}
use flames.Result.{Result, ok, err, Exec}

-- Part of a subtest: what it reports, its value unless the subtest has given up, and the store.
abbrev pub Check : Type 0 → Type 0 → Type 0
Check S A = S → List String × Option A × S

module _ {S A : Type 0} where
  abbrev pub give : A → Check S A
  give a s = ([], some a, s)

  -- A call of the store; a caller that ignores the error ignores it here too.
  abbrev pub try : Exec S A → Check S (Result A)
  try m s = ([], some (m s).0, (m s).1)

  -- if err != nil { t.Fatalf(format, err) }
  abbrev pub must : String → Exec S A → Check S A
  must format m s = elim (m s).0 [
    | ok a ↦ ([], some a, (m s).1)
    | err _ ↦ (format ∷ [], none, (m s).1)
  ]

  -- `id, _ := call`, where a failing call returns the zero value
  abbrev pub value_or : A → Exec S A → Check S A
  value_or zero m s = elim (m s).0 [
    | ok a ↦ ([], some a, (m s).1)
    | err _ ↦ ([], some zero, (m s).1)
  ]

module _ {S : Type 0} where
  -- if !holds { t.Errorf(format, …) }
  abbrev pub expect : Bool → String → Check S (Unit {0})
  expect true format s = ([], some tt, s)
  expect false format s = (format ∷ [], some tt, s)

  -- if !holds { t.Fatalf(format, …) }
  abbrev pub require : Bool → String → Check S (Unit {0})
  require true format s = ([], some tt, s)
  require false format s = (format ∷ [], none, s)

  -- for … { if err := call; err != nil { t.Fatalf(format, err) } }
  abbrev pub must_each : String → List (Exec S (Unit {0})) → Check S (Unit {0})
  must_each format [] s = ([], some tt, s)
  must_each format (m ∷ ms) s = elim (m s).0 [
    | ok _ ↦ must_each format ms (m s).1
    | err _ ↦ (format ∷ [], none, (m s).1)
  ]

-- A test of `v` after `v, _ := call`; the zero value that comes with an error fails it.
abbrev pub value_holds : {A : Type 0} → (A → Bool) → Result A → Bool
value_holds p (ok a) = p a
value_holds p (err _) = false

-- `errors.Is(err, target)` for the error of a call
abbrev pub fails_with : {A : Type 0} → Error → Result A → Bool
fails_with target (ok _) = false
fails_with target (err x) = errors_is x target

module _ {S A B : Type 0} where
  abbrev pub proceed : List String → Option A → (A → Check S B) → Check S B
  proceed reports none f s = (reports, none, s)
  proceed reports (some a) f s = let (later, b, s') = f a s in (reports ++ later, b, s')

  infixl 10 ◌>>=◌ ◌>>◌
  abbrev pub ◌>>=◌ : Check S A → (A → Check S B) → Check S B
  ◌>>=◌ m f s = proceed (m s).0 (m s).1 f (m s).2

  abbrev pub ◌>>◌ : Check S A → Check S B → Check S B
  m >> n = m >>= λ _. n

-- The name of a subtest of `t.Run`, and its reports.
abbrev pub Outcome : Type 0
Outcome = String × List String

abbrev pub subtest : {S A : Type 0} → String → Check S A → S → Outcome
subtest name check s = (name, (check s).0)

abbrev pub AllPass : List Outcome → Type 0
AllPass = All (λ o. o.1 ≡ [])
