-- ===== src/Publish/Tokens.antt =====
-- The comparison of tokens in constant time decides their equality (publish-orchestrator.ts).
use shipyard_cp.Base.{
  ℕ, zero, suc, ◌/◌, ◌%◌, ◌≤◌, max, ◌≡◌, refl, sym, ap, ◌↔◌, true, List, [], ◌∷◌, String, arith,
  ==_iff, length, nat_eqb, string_eqb,
}
use Prim.Native.Nat.{bit_or, bit_xor, digits, differ, bit_or-bitwise, bit_xor-bitwise}
use shipyard_cp.Text.{codes}
use shipyard_cp.Publish.{compare_codes, tokens_match}

differ_zero : (x y : ℕ) → differ x y ≡ 0 → x ≡ y
differ_zero zero y h = sym h
differ_zero (suc x) zero h = h
differ_zero (suc x) (suc y) h = ap suc (differ_zero x y h)

differ_same : (x : ℕ) → differ x x ≡ 0
differ_same zero = refl
differ_same (suc x) = differ_same x

xor_digits-zero : (n a b : ℕ) → a ≤ n → digits (λ y. y) differ n a b ≡ 0 → a ≡ b
xor_digits-zero zero zero b p h = sym h
xor_digits-zero zero (suc a) b p h = absurd (omega arith)
xor_digits-zero (suc n) zero b p h = sym h
xor_digits-zero (suc n) (suc a) b p h = omega (
  arith,
  h,
  xor_digits-zero n (suc a / 2) (b / 2) (omega arith) (omega (arith, h)),
  differ_zero (suc a % 2) (b % 2) (omega (arith, h)),
)

xor_digits-same : (n a : ℕ) → a ≤ n → digits (λ y. y) differ n a a ≡ 0
xor_digits-same zero zero p = refl
xor_digits-same zero (suc a) p = absurd (omega arith)
xor_digits-same (suc n) zero p = refl
xor_digits-same (suc n) (suc a) p =
    omega (arith, xor_digits-same n (suc a / 2) (omega arith), differ_same (suc a % 2))

or_digits-zero : (n a b : ℕ) → a ≤ n → digits (λ y. y) max n a b ≡ 0 → (a ≡ 0) × (b ≡ 0)
or_digits-zero zero zero b p h = (refl, h)
or_digits-zero zero (suc a) b p h = absurd (omega arith)
or_digits-zero (suc n) zero b p h = (refl, h)
or_digits-zero (suc n) (suc a) b p h =
    let r = or_digits-zero n (suc a / 2) (b / 2) (omega arith) (omega (arith, h)) in
    (omega (arith, h, r.0), omega (arith, h, r.1))

bit_xor-zero : (a b : ℕ) → bit_xor a b ≡ 0 → a ≡ b
bit_xor-zero a b h = xor_digits-zero a a b (omega arith) (omega (arith, h, bit_xor-bitwise a b))

bit_xor-same : (a : ℕ) → bit_xor a a ≡ 0
bit_xor-same a = omega (arith, bit_xor-bitwise a a, xor_digits-same a a (omega arith))

bit_or-zero : (a b : ℕ) → bit_or a b ≡ 0 → (a ≡ 0) × (b ≡ 0)
bit_or-zero a b h = or_digits-zero a a b (omega arith) (omega (arith, h, bit_or-bitwise a b))

compare_codes-zero : (es ps : List ℕ) (r : ℕ) → compare_codes es ps r ≡ 0 → r ≡ 0
unfolding compare_codes
compare_codes-zero [] ps r h = h
compare_codes-zero (e ∷ es) [] r h = h
compare_codes-zero (e ∷ es) (p ∷ ps) r h =
    (bit_or-zero r (bit_xor e p) (compare_codes-zero es ps (bit_or r (bit_xor e p)) h)).0

compare_codes-equal :
    (es ps : List ℕ) (r : ℕ) → length es ≡ length ps → compare_codes es ps r ≡ 0 → es ≡ ps
unfolding compare_codes
compare_codes-equal [] [] r l h = refl
compare_codes-equal [] (p ∷ ps) r l h = absurd (omega (arith, l))
compare_codes-equal (e ∷ es) [] r l h = absurd (omega (arith, l))
compare_codes-equal (e ∷ es) (p ∷ ps) r l h =
    let z = compare_codes-zero es ps (bit_or r (bit_xor e p)) h in
    let q = bit_xor-zero e p ((bit_or-zero r (bit_xor e p) z).1) in
    let qs = compare_codes-equal es ps (bit_or r (bit_xor e p)) (omega (arith, l)) h in
    rw (q, qs) refl

compare_codes-same : (es : List ℕ) → compare_codes es es 0 ≡ 0
unfolding compare_codes
compare_codes-same [] = refl
compare_codes-same (e ∷ es) = rw (bit_xor-same e) (compare_codes-same es)

-- Two tokens match exactly if their codes are the same, so the loop that compares them without
-- leaving early, by exclusive or and or, decides equality.
pub tokens_match_iff :
    (expected provided : String)
    → (tokens_match expected provided ≡ true) ↔ (codes expected ≡ codes provided)
unfolding tokens_match
tokens_match_iff expected provided = (
  λ h.
      compare_codes-equal (codes expected) (codes provided) 0
        ((==_iff (length (codes expected)) (length (codes provided))).0 (ground arith))
        ((==_iff (compare_codes (codes expected) (codes provided) 0) 0).0 (ground arith)),
  λ h.
      rw (h, compare_codes-same (codes provided))
        (ground (arith, ==_iff (length (codes provided)) (length (codes provided)))),
)
