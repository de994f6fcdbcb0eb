-- ===== src/Dict.antt =====
-- Go's maps with string keys: an association list with at most one entry for a key. `for k, v :=
-- range m` visits every entry once in an order that the language leaves open; a `Range` is one such
-- choice of an order.
use mathlib.Core.List.{mem-cons_self, mem-cons_of_mem}
use flames.Prelude.{
  String, ◌≡◌, refl, ◌≢◌, Option, none, some, List, [], ◌∷◌, map, Mem, Perm, arith, ◌==◌, string_eq,
  if◌then◌else◌,
}

abbrev pub Dict {ℓ} : Type ℓ → Type ℓ
Dict V = List (String × V)

module _ {ℓ} {V : Type ℓ} where
  -- `v, ok := m[key]`
  unfoldable pub lookup : String → Dict V → Option V
  lookup key [] = none
  lookup key ((other, value) ∷ rest) =
      let found = lookup key rest in if other == key then some value else found

  -- `m[key] = v`
  unfoldable pub insert : String → V → Dict V → Dict V
  insert key new [] = (key, new) ∷ []
  insert key new ((other, value) ∷ rest) =
      let behind = insert key new rest in
      if other == key then (key, new) ∷ rest else (other, value) ∷ behind

  -- `delete(m, k)`
  unfoldable pub erase : String → Dict V → Dict V
  erase k [] = []
  erase k ((j, v) ∷ m) = let rest = erase k m in if j == k then rest else (j, v) ∷ rest

  abbrev pub NodupKeys : Dict V → Type ℓ
  NodupKeys [] = Unit
  NodupKeys ((k, _) ∷ m) = (lookup k m ≡ none) × NodupKeys m

  pub lookup-nil : (k : String) → lookup k [] ≡ none
  unfolding lookup
  lookup-nil k = refl

  pub lookup-insert :
      (key wanted : String) (new : V) (m : Dict V)
      → lookup wanted (insert key new m) ≡ (if key == wanted then some new else lookup wanted m)
  unfolding insert lookup
  lookup-insert key wanted new [] = refl
  lookup-insert key wanted new (entry ∷ rest) = ground (arith, lookup-insert key wanted new rest)

  pub lookup-erase :
      (k j : String) (m : Dict V) → lookup j (erase k m) ≡ (if k == j then none else lookup j m)
  unfolding lookup erase
  lookup-erase k j [] = ground arith
  lookup-erase k j ((i, w) ∷ m) = ground (arith, lookup-erase k j m)

  pub lookup-insert_self : (k : String) (v : V) (m : Dict V) → lookup k (insert k v m) ≡ some v
  lookup-insert_self k v m = ground (arith, lookup-insert k k v m)

  pub lookup-insert_ne :
      (k j : String) (v : V) (m : Dict V) → k ≢ j → lookup j (insert k v m) ≡ lookup j m
  lookup-insert_ne k j v m h = ground (arith, lookup-insert k j v m)

  pub insert-NodupKeys : (k : String) (v : V) (m : Dict V) → NodupKeys m → NodupKeys (insert k v m)
  unfolding insert
  insert-NodupKeys k v [] u = (lookup-nil k, tt)
  insert-NodupKeys k v ((j, w) ∷ m) u =
      ground (arith, insert-NodupKeys k v m u.1, lookup-insert k j v m)

  pub erase-NodupKeys : (k : String) (m : Dict V) → NodupKeys m → NodupKeys (erase k m)
  unfolding erase
  erase-NodupKeys k [] u = tt
  erase-NodupKeys k ((j, w) ∷ m) u = ground (arith, erase-NodupKeys k m u.1, lookup-erase k j m)

-- The values, as a `range` loop over them meets them.
abbrev pub values {ℓ} : {V : Type ℓ} → Dict V → List V
values = map (λ e. e.1)

-- One order of a `range` loop.
pub record Range {ℓ} (V : Type ℓ) : Type ℓ where
  pub visit : Dict V → Dict V
  pub visit-perm : (m : Dict V) → Perm (visit m) m

module _ {ℓ} {V : Type ℓ} where
  -- An entry is in the list exactly when the map has it.
  pub mem_of_lookup : (k : String) (v : V) (m : Dict V) → lookup k m ≡ some v → Mem (k, v) m
  unfolding lookup
  mem_of_lookup k v [] h = cc
  mem_of_lookup k v ((j, w) ∷ m) h = elim (string_eq.dec j k) [
    | yes p ↦ let e : ◌≡◌ {A = String × V} (k, v) (j, w) = ground arith in rw e mem-cons_self
    | no p ↦ mem-cons_of_mem (j, w) (mem_of_lookup k v m (ground arith))
  ]
