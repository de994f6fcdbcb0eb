-- ===== src/Tests/Data.antt =====
-- The inputs that the runs share.
use flames.Prelude.{refl, ◌<◌, string_eq, arith, ℕ, pos, [], ◌∷◌}
use mathlib.Core.List.Perm
use flames.Dict.{Range}
use flames.Runtime.{Env, Bytes, IsEnv}

abbrev pub sixteen : ℕ → Bytes
sixteen b = b ∷ b ∷ b ∷ b ∷ b ∷ b ∷ b ∷ b ∷ b ∷ b ∷ b ∷ b ∷ b ∷ b ∷ b ∷ b ∷ []

-- A call at a time, with random bytes that are all the same.
abbrev pub at : ℕ → ℕ → Env
at now b = record { now = pos now; random = sixteen b }

pub at-IsEnv : (now b : ℕ) → 0 < now → b < 256 → IsEnv (at now b)
at-IsEnv now b h k = record {
  clock_set = omega arith;
  buffer_full = refl;
  random_bytes = (k, (k, (k, (k, (k, (k, (k, (k, (k, (k, (k, (k, (k, (k, (k, (k, tt))))))))))))))));
}

-- A loop that visits a map in the order it stands in.
abbrev pub in_order : {V : Type 0} → Range V
in_order = record { visit = λ m. m; visit-perm = λ m. Perm.refl m }
