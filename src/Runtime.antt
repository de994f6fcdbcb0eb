-- ===== src/Runtime.antt =====
-- What the program uses of Go's standard library: `time`, byte slices, `crypto/rand` with
-- `encoding/hex` (the two `newID` functions), and the machine's `int`.
pub mod Hex
use Prim.Native.Char.{code}
use native.Mathlib.Decide.{ℕ_discrete}
use flames.Prelude.{
  Eq, ℕ, suc, ◌-◌, ◌*◌, ◌^◌, String, ◌≡◌, Bool, List, [], ◌∷◌, All, length, ◌<◌, ◌<ℤ◌, ℤ, pos,
  negsuc, ltb_ℤ, ◌+ℤ◌, ◌-ℤ◌, ◌==◌, integer_eq, if◌then◌else◌,
}
use flames.Runtime.Hex.{encode_to_string}

-- A `time.Time` is its distance in nanoseconds from Go's zero time, a `time.Duration` a number of
-- nanoseconds. They are unbounded here: Go's run out centuries away from the zero time.
abbrev pub Time : Type 0
Time = ℤ

abbrev pub Duration : Type 0
Duration = ℤ

abbrev pub milliseconds : ℕ → Duration
milliseconds n = pos (n * 10 ^ 6)

abbrev pub zero_time : Time
zero_time = pos 0

abbrev pub is_zero : Time → Bool
is_zero t = t == zero_time

abbrev pub before : Time → Time → Bool
before t u = ltb_ℤ t u

abbrev pub after : Time → Time → Bool
after t u = ltb_ℤ u t

abbrev pub Bytes : Type 0
Bytes = List ℕ

-- `[]byte(text)`, for a text of ASCII characters
unfoldable pub to_bytes : String → Bytes
to_bytes String.[] = []
to_bytes (String.◌∷◌ c s) = code c ∷ to_bytes s

bytes-discrete : Discrete Bytes
bytes-discrete = hlevel ℕ_discrete

-- `bytes.Equal`
instance unfoldable pub bytes_eq : Eq Bytes
unfolding bytes-discrete ℕ_discrete
bytes_eq = record { dec = bytes-discrete }

-- Go's `int` wraps around at 2 ^ 63.
abbrev pub max_int : ℕ
max_int = 2 ^ 63 - 1

unfoldable pub int_succ : ℤ → ℤ
int_succ n = if n == pos max_int then negsuc max_int else n +ℤ pos 1

-- What the runtime supplies to one call: the clock, and the sixteen bytes of `rand.Read`.
pub record Env : Type 0 where
  pub now : Time
  pub random : Bytes

-- The clock stands after the zero time, and `rand.Read` fills the buffer.
pub record IsEnv (e : Env) : Type 0 where
  pub clock_set : zero_time <ℤ e.now
  pub buffer_full : length e.random ≡ 16
  pub random_bytes : All (λ b. b < 256) e.random

-- `newID`
unfoldable pub new_id : Bytes → String
new_id b = encode_to_string b
