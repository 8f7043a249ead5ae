-- ===== src/Prelude/Numbers.antt =====
-- `std::from_chars` and `std::to_string` of the unsigned types, over the bytes of a text.
use devilz_den.Prelude.Tests.{ltb, leb, if◌then◌else◌, Text}
use Prim.Native.Nat.{ℕ, zero, suc, ◌+◌, ◌-◌, ◌*◌, ◌/◌, ◌%◌}
use mathlib.Core.Bool.{◌&&◌}
use mathlib.Core.List.{[], ◌∷◌}
use mathlib.Core.Option.{Option, none, some}

-- The value of a digit character, below the base.
unfoldable pub digit_value : ℕ → ℕ → Option ℕ
digit_value base c =
    let v =
      if leb b'0' c && leb c b'9'
      then c - b'0'
      else if leb b'a' c && leb c b'z'
      then c - b'a' + 10
      else if leb b'A' c && leb c b'Z'
      then c - b'A' + 10
      else 99 in
    if ltb v base then some v else none

-- The longest prefix of digits: how many there are, their value, and the rest of the text.
unfoldable pub digit_prefix : ℕ → Text → ℕ → ℕ → ℕ × ℕ × Text
digit_prefix base [] n acc = (n, acc, [])
digit_prefix base (c ∷ cs) n acc = elim (digit_value base c) [
  | none ↦ (n, acc, c ∷ cs)
  | some v ↦ digit_prefix base cs (suc n) (acc * base + v)
]

-- `std::from_chars`: `none` for `invalid_argument` and `result_out_of_range`; otherwise the value
-- and what stands behind the digits.
unfoldable pub from_chars : ℕ → ℕ → Text → Option (ℕ × Text)
unfolding digit_prefix
from_chars base max cs =
    let (n, v, rest) = digit_prefix base cs 0 0 in
    if ltb 0 n && leb v max then some (v, rest) else none

print_digits : ℕ → ℕ → Text → Text
print_digits zero n acc = acc
print_digits (suc fuel) n acc =
    let more = print_digits fuel (n / 10) ((b'0' + n % 10) ∷ acc) in
    if ltb n 10 then (b'0' + n) ∷ acc else more

-- `std::to_string` of an unsigned number of at most 64 bits, which has at most 20 digits.
unfoldable pub to_string : ℕ → Text
unfolding print_digits
to_string n = print_digits 20 n []

print_hex : ℕ → ℕ → Text → Text
print_hex zero n acc = acc
print_hex (suc fuel) n acc =
    let digit = if ltb (n % 16) 10 then b'0' + n % 16 else b'A' + (n % 16 - 10) in
    let more = print_hex fuel (n / 16) (digit ∷ acc) in if ltb n 16 then digit ∷ acc else more

-- A number of at most 64 bits in the upper case hexadecimal of a stream, at most 16 digits.
unfoldable pub to_hex : ℕ → Text
unfolding print_hex
to_hex n = print_hex 16 n []
