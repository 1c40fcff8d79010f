-- ===== src/Fingerprint.antt =====
-- src/store/utils.ts: simpleHash, on the UTF-16 codes of a text. An integer of 32 bits is the
-- remainder by 2 ^ 32, so a negative one is above 2 ^ 31.
pub mod Digits
mod Tests
use shipyard_cp.Base.{
  ℕ, zero, suc, ◌+◌, ◌-◌, ◌*◌, ◌/◌, ◌%◌, List, [], ◌∷◌, ◌++◌, map, ltb, if◌then◌else◌, length,
  nat_eqb, string_eqb,
}

-- The number of integers of 32 bits.
abbrev pub width : ℕ
width = 0x1_0000_0000

-- hash = ((hash << 5) - hash) + char; hash = hash & hash
unfoldable pub hash_step : ℕ → ℕ → ℕ
hash_step hash char = (hash * 32 % width + (width - hash) + char) % width

unfoldable pub hash_from : ℕ → List ℕ → ℕ
hash_from hash [] = hash
hash_from hash (c ∷ cs) = hash_from (hash_step hash c) cs

-- Math.abs of the integer that a remainder stands for.
unfoldable pub math_abs : ℕ → ℕ
math_abs hash = if ltb hash 0x8000_0000 then hash else width - hash

-- toString(16): the digits, the first one first. Eight are enough for what math_abs gives.
unfoldable pub hex_digits : (fuel : ℕ) → ℕ → List ℕ
hex_digits zero n = []
hex_digits (suc fuel) n =
    let rest = hex_digits fuel (n / 16) in if ltb n 16 then n ∷ [] else rest ++ n % 16 ∷ []

-- padStart(8, '0')
abbrev pub zeros : ℕ → List ℕ
zeros zero = []
zeros (suc n) = 0 ∷ zeros n

unfoldable pub pad_start : ℕ → List ℕ → List ℕ
pad_start n ds = zeros (n - length ds) ++ ds

-- The code of a digit: 0 to 9, and then a to f.
abbrev pub hex_char : ℕ → ℕ
hex_char d = if ltb d 10 then 48 + d else 87 + d

unfoldable pub simple_hash : List ℕ → List ℕ
unfolding hash_from math_abs hex_digits pad_start
simple_hash codes = map hex_char (pad_start 8 (hex_digits 8 (math_abs (hash_from 0 codes))))
