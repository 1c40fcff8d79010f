-- ===== src/Fingerprint/Tests.antt =====
-- The hash of concrete texts (utils.ts).
use shipyard_cp.Base.{
  ℕ, ◌%◌, ◌≤◌, ◌<◌, All, ◌≡◌, refl, List, [], ◌∷◌, map, length, nat_eqb, string_eqb,
}
use shipyard_cp.Text.{codes}
use shipyard_cp.Fingerprint.{
  width, hash_step, hash_from, math_abs, hex_digits, pad_start, hex_char, simple_hash,
}
use shipyard_cp.Fingerprint.Digits.{poly_from, value_from, hash_digits}

-- "a" is hashed to 00000061.
one_letter : simple_hash (97 ∷ []) ≡ 48 ∷ 48 ∷ 48 ∷ 48 ∷ 48 ∷ 48 ∷ 54 ∷ 49 ∷ []
unfolding simple_hash hash_from hash_step math_abs hex_digits pad_start
one_letter = refl

hash_digits_example :
    (ds : List ℕ) × (simple_hash (codes "t:dev") ≡ map hex_char ds)
    × (length ds ≡ 8)
    × All (λ d. d < 16) ds
    × (value_from 0 ds ≡ math_abs (poly_from 0 (codes "t:dev") % width))
    × (value_from 0 ds ≤ 0x8000_0000)
hash_digits_example = hash_digits (codes "t:dev")
