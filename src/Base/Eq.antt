-- ===== src/Base/Eq.antt =====
-- Equality tests, one for each type that has an instance: `===` of the source.
use Prim.Native.Nat.{ℕ}
use Prim.Native.String.{String}
use mathlib.Core.Path.{◌≡◌, refl, ap}
use mathlib.Core.Logic.{◌↔◌, ◌≢◌}
use mathlib.Core.Bool.{Bool, true, false}
use text.Mathlib.Text.{◌==◌ as str_eq}
use text.Mathlib.TextEquality.{eq_iff}
use native.Mathlib.Omega.{arith}
use shipyard_cp.Base.Compare.{◌==◌, ==_iff}

pub record Eqb {ℓ} (A : Type ℓ) : Type ℓ where
  pub beq : A → A → Bool
  pub beq_iff : (a b : A) → (beq a b ≡ true) ↔ (a ≡ b)

abbrev pub eqb {ℓ} : {A : Type ℓ} ⦃e : Eqb A⦄ → A → A → Bool
eqb ⦃e⦄ = e.beq

pub eqb_iff {ℓ} : {A : Type ℓ} ⦃e : Eqb A⦄ (a b : A) → (eqb a b ≡ true) ↔ (a ≡ b)
eqb_iff ⦃e⦄ a b = e.beq_iff a b

pub eqb_refl {ℓ} : {A : Type ℓ} ⦃e : Eqb A⦄ (a : A) → eqb a a ≡ true
eqb_refl ⦃e⦄ a = (e.beq_iff a a).1 refl

-- An enumeration is compared by the number of its constructor.
pub code_iff {ℓ} :
    {A : Type ℓ} (code : A → ℕ) (inj : (a b : A) → code a ≡ code b → a ≡ b) (a b : A)
    → ((code a == code b) ≡ true) ↔ (a ≡ b)
code_iff code inj a b = (
  (λ h. inj a b ((==_iff (code a) (code b)).0 h)),
  (λ h. (==_iff (code a) (code b)).1 (ap code h)),
)

abbrev pub Eqb_of_code {ℓ} :
    {A : Type ℓ} (code : A → ℕ) → ((a b : A) → code a ≡ code b → a ≡ b) → Eqb A
Eqb_of_code code inj = record { beq = λ a b. code a == code b; beq_iff = code_iff code inj }

instance abbrev pub nat_eqb : Eqb ℕ
nat_eqb = record { beq = ◌==◌; beq_iff = ==_iff }

instance abbrev pub string_eqb : Eqb String
string_eqb = record { beq = str_eq; beq_iff = eq_iff }

-- Two texts that the test tells apart are not equal.
pub str_ne : {s t : String} → str_eq s t ≡ false → s ≢ t
str_ne {s} {t} h e = ground (arith, eq_iff s t)
