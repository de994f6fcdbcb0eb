-- ===== src/Runtime/Hex.antt =====
-- `hex.EncodeToString`, two digits for each byte, and its inverse.
use Prim.Native.Char.{Char, code}
use Prim.Native.String.{char_at}
use flames.Prelude.{
  ℕ, zero, suc, ◌+◌, ◌-◌, ◌*◌, ◌/◌, ◌%◌, ◌<◌, String, ◌≡◌, ◌≢◌, refl, Bool, true, ◌&&◌, List, [],
  ◌∷◌, All, arith, leb, if◌then◌else◌, ap, sym, ◌∙◌, length,
}

abbrev hex_table : String
hex_table = "0123456789abcdef"

digit : ℕ → Char
digit v = char_at hex_table v

unfoldable pub encode_to_string : List ℕ → String
unfolding digit
encode_to_string [] = String.[]
encode_to_string (b ∷ bs) =
    String.◌∷◌ (digit (b / 16)) (String.◌∷◌ (digit (b % 16)) (encode_to_string bs))

-- Reading the digits back.
value : Char → ℕ
value c = if leb (code c) b'9' then code c - b'0' else code c - b'a' + 10

unfoldable pub decode_string : String → List ℕ
unfolding value
decode_string (String.◌∷◌ c (String.◌∷◌ d s)) = (value c * 16 + value d) ∷ decode_string s
decode_string _ = []

value_table : ℕ → Bool
value_table zero = true
value_table (suc n) = leb (value (digit n)) n && leb n (value (digit n)) && value_table n

value_table_sound : (k n : ℕ) → value_table k ≡ true → n < k → value (digit n) ≡ n
unfolding value_table
value_table_sound zero n t h = absurd (omega arith)
value_table_sound (suc k) n t h = ground (arith, value_table_sound k n)

value-digit : (n : ℕ) → n < 16 → value (digit n) ≡ n
unfolding value_table value digit
value-digit n h = value_table_sound 16 n refl h

-- Decoding the text of a byte string gives the bytes back.
pub decode_string-encode_to_string :
    (bs : List ℕ) → All (λ b. b < 256) bs → decode_string (encode_to_string bs) ≡ bs
unfolding encode_to_string decode_string
decode_string-encode_to_string [] h = refl
decode_string-encode_to_string (b ∷ bs) h = ground (
  arith,
  value-digit (b / 16) (omega arith),
  value-digit (b % 16) (omega arith),
  decode_string-encode_to_string bs h.1,
)

-- So two byte strings with the same text are the same.
pub encode_to_string_injective :
    (bs cs : List ℕ)
    → All (λ b. b < 256) bs
    → All (λ b. b < 256) cs
    → encode_to_string bs ≡ encode_to_string cs
    → bs ≡ cs
encode_to_string_injective bs cs h k e =
    sym (decode_string-encode_to_string bs h)
    ∙ ap decode_string e
    ∙ decode_string-encode_to_string cs k

pub encode_to_string-ne-empty : (bs : List ℕ) → 0 < length bs → encode_to_string bs ≢ ""
unfolding encode_to_string
encode_to_string-ne-empty [] h = absurd (omega arith)
encode_to_string-ne-empty (b ∷ bs) h = λ e. cc
