-- ===== src/Fingerprint/Digits.antt =====
-- The value and the digits of the hash (utils.ts, simpleHash).
use shipyard_cp.Base.{
  ℕ, zero, suc, ◌+◌, ◌-◌, ◌*◌, ◌/◌, ◌%◌, ◌^◌, ◌≤◌, ◌<◌, ◌≡◌, refl, ap, ◌∙◌, inl, inr, List, [], ◌∷◌,
  ◌++◌, map, arith, ltb, Bool-cases, length, length-append, All, All-append, ltb→lt, nat_eqb,
  string_eqb,
}
use native.Mathlib.Nat.{pow-suc}
use shipyard_cp.Fingerprint.{
  width, hash_step, hash_from, math_abs, hex_digits, zeros, pad_start, hex_char, simple_hash,
}

-- The polynomial in 31 whose coefficients are the codes, over the natural numbers.
unfoldable pub poly_from : ℕ → List ℕ → ℕ
poly_from h [] = h
poly_from h (c ∷ cs) = poly_from (31 * h + c) cs

step_poly : (h c : ℕ) → hash_step (h % width) c ≡ (31 * h + c) % width
unfolding hash_step
step_poly h c = omega arith

from_poly : (h : ℕ) (cs : List ℕ) → hash_from (h % width) cs ≡ poly_from h cs % width
unfolding hash_from poly_from
from_poly h [] = refl
from_poly h (c ∷ cs) = rw (step_poly h c) (from_poly (31 * h + c) cs)

poly_bound : (h : ℕ) (cs : List ℕ) → hash_from (h % width) cs < width
poly_bound h cs = rw (from_poly h cs) (omega arith)

abs_bound : (n : ℕ) → n < width → math_abs n ≤ 0x8000_0000
unfolding math_abs
abs_bound n h = ground arith

-- The number that some digits write.
abbrev pub value_from : ℕ → List ℕ → ℕ
value_from v [] = v
value_from v (d ∷ ds) = value_from (16 * v + d) ds

value_from-append :
    (v : ℕ) (xs : List ℕ) (d : ℕ) → value_from v (xs ++ d ∷ []) ≡ 16 * value_from v xs + d
value_from-append v [] d = refl
value_from-append v (x ∷ xs) d = value_from-append (16 * v + x) xs d

quotient_bound : (fuel n : ℕ) → n < 16 ^ suc fuel → n / 16 < 16 ^ fuel
quotient_bound fuel n h =
    let split : 16 ^ suc fuel ≡ 16 ^ fuel * 16 = pow-suc 16 fuel in omega (arith, h, split)

digits_value : (fuel n : ℕ) → n < 16 ^ fuel → value_from 0 (hex_digits fuel n) ≡ n
unfolding hex_digits
digits_value zero n h = omega arith
digits_value (suc fuel) n h = elim (Bool-cases (ltb n 16)) [
  | inl small ↦ rw small (omega arith)
  | inr large ↦ rw large (
      value_from-append 0 (hex_digits fuel (n / 16)) (n % 16)
      ∙ omega (arith, digits_value fuel (n / 16) (quotient_bound fuel n h)))
]

digits_length : (fuel n : ℕ) → length (hex_digits fuel n) ≤ fuel
unfolding hex_digits
digits_length zero n = omega arith
digits_length (suc fuel) n =
    ground
      (arith, digits_length fuel (n / 16), length-append (hex_digits fuel (n / 16)) (n % 16 ∷ []))

digits_below : (fuel n : ℕ) → All (λ d. d < 16) (hex_digits fuel n)
unfolding hex_digits
digits_below zero n = tt
digits_below (suc fuel) n = elim (Bool-cases (ltb n 16)) [
  | inl small ↦ rw small (ltb→lt n 16 small, tt)
  | inr large ↦ rw large (
      All-append (λ d. d < 16) (hex_digits fuel (n / 16)) (n % 16 ∷ []) (digits_below fuel (n / 16))
        (omega arith, tt))
]

zeros_below : (n : ℕ) (ds : List ℕ) → All (λ d. d < 16) ds → All (λ d. d < 16) (zeros n ++ ds)
zeros_below zero ds h = h
zeros_below (suc n) ds h = (omega arith, zeros_below n ds h)

zeros_value : (n : ℕ) (ds : List ℕ) → value_from 0 (zeros n ++ ds) ≡ value_from 0 ds
zeros_value zero ds = refl
zeros_value (suc n) ds = zeros_value n ds

length-zeros : (n : ℕ) → length (zeros n) ≡ n
length-zeros zero = refl
length-zeros (suc n) = ap suc (length-zeros n)

-- The hash of a text is eight hexadecimal digits, each the character of a number below 16. The number that they write, at most 2 ^ 31, is the
-- absolute value of the integer of 32 bits that the polynomial in 31 of the text's codes, over the
-- natural numbers, wraps to.
pub hash_digits :
    (codes : List ℕ)
    → (ds : List ℕ) × (simple_hash codes ≡ map hex_char ds)
      × (length ds ≡ 8)
      × All (λ d. d < 16) ds
      × (value_from 0 ds ≡ math_abs (poly_from 0 codes % width))
      × (value_from 0 ds ≤ 0x8000_0000)
unfolding simple_hash pad_start
hash_digits codes =
    let n = math_abs (hash_from 0 codes) in
    let bound : n ≤ 0x8000_0000 = abs_bound (hash_from 0 codes) (poly_bound 0 codes) in
    let value : value_from 0 (pad_start 8 (hex_digits 8 n)) ≡ n =
      zeros_value (8 - length (hex_digits 8 n)) (hex_digits 8 n)
      ∙ digits_value 8 n (omega (arith, bound)) in
    (
      pad_start 8 (hex_digits 8 n),
      refl,
      length-append (zeros (8 - length (hex_digits 8 n))) (hex_digits 8 n)
          ∙ omega (arith, length-zeros (8 - length (hex_digits 8 n)), digits_length 8 n),
      zeros_below (8 - length (hex_digits 8 n)) (hex_digits 8 n) (digits_below 8 n),
      value ∙ ap math_abs (from_poly 0 codes),
      omega (arith, value, bound),
    )
