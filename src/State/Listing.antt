-- ===== src/State/Listing.antt =====
-- The loops of the listing methods: append what passes the filter, stop when the limit is reached.
use flames.Prelude.{
  ℕ, zero, suc, ◌+◌, ◌≤ℤ◌, ℤ, pos, negsuc, ltb_ℤ, leb_ℤ, ◌≡◌, refl, sym, Bool, not, ◌&&◌, List, [],
  ◌∷◌, ◌++◌, length, take, filter, arith, length-append, if◌then◌else◌,
}
use mathlib.Core.List.{append-nil, append_assoc}

module _ {A : Type 0} (skips : A → Bool) where
  -- for _, x := range xs { if skips { continue }; append; if limit reached { break } }
  unfoldable pub collect : ℤ → List A → List A → List A
  collect limit result [] = result
  collect limit result (x ∷ xs) =
      let skipped = collect limit result xs in
      let result' = result ++ x ∷ [] in
      let rest = collect limit result' xs in
      if skips x
      then skipped
      else if ltb_ℤ (pos 0) limit && leb_ℤ limit (pos (length result'))
      then result'
      else rest

  abbrev pub keeps : A → Bool
  keeps x = not (skips x)

  collect_all :
      (limit : ℤ) (result xs : List A)
      → limit ≤ℤ pos 0
      → collect limit result xs ≡ result ++ filter keeps xs
  unfolding collect
  collect_all limit result [] h = sym (append-nil result)
  collect_all limit result (x ∷ xs) h = ground (
    arith,
    collect_all limit result xs h,
    collect_all limit (result ++ x ∷ []) xs h,
    append_assoc result (x ∷ []) (filter keeps xs),
  )

  collect_room :
      (n room : ℕ) (result xs : List A)
      → length result + suc room ≡ n
      → collect (pos n) result xs ≡ result ++ take (suc room) (filter keeps xs)
  unfolding collect
  collect_room n room result [] h = sym (append-nil result)
  collect_room n zero result (x ∷ xs) h =
      ground (arith, length-append result (x ∷ []), collect_room n zero result xs h)
  collect_room n (suc room) result (x ∷ xs) h = ground (
    arith,
    length-append result (x ∷ []),
    collect_room n (suc room) result xs h,
    collect_room n room (result ++ x ∷ []) xs,
    append_assoc result (x ∷ []) (take (suc room) (filter keeps xs)),
  )

-- What a limit leaves of a list: zero and negative limits are no limit.
abbrev pub up_to {ℓ} : {A : Type ℓ} → ℤ → List A → List A
up_to (pos (suc n)) xs = take (suc n) xs
up_to _ xs = xs

-- The loop collects what passes its test, in order, and stops at the limit: the result is the first
-- `limit` elements of the filtered list, or all of them if the limit is not positive.
pub collect-up_to :
    {A : Type 0} (skips : A → Bool) (limit : ℤ) (xs : List A)
    → collect skips limit [] xs ≡ up_to limit (filter (keeps skips) xs)
collect-up_to skips (pos zero) xs = collect_all skips (pos zero) [] xs (omega arith)
collect-up_to skips (pos (suc n)) xs = collect_room skips (suc n) n [] xs (omega arith)
collect-up_to skips (negsuc n) xs = collect_all skips (negsuc n) [] xs (omega arith)

length-take_congr :
    {A : Type 0} (n : ℕ) (xs ys : List A)
    → length xs ≡ length ys
    → length (take n xs) ≡ length (take n ys)
length-take_congr zero xs ys p = refl
length-take_congr (suc n) [] [] p = refl
length-take_congr (suc n) (x ∷ xs) (y ∷ ys) p =
    omega (arith, length-take_congr n xs ys (omega arith))
length-take_congr (suc n) [] (y ∷ ys) p = absurd (omega arith)
length-take_congr (suc n) (x ∷ xs) [] p = absurd (omega arith)

pub length-up_to :
    {A : Type 0} (limit : ℤ) (xs ys : List A)
    → length xs ≡ length ys
    → length (up_to limit xs) ≡ length (up_to limit ys)
length-up_to (pos (suc n)) xs ys p = length-take_congr (suc n) _ _ p
length-up_to (pos zero) xs ys p = p
length-up_to (negsuc n) xs ys p = p
