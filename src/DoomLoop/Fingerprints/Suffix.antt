-- ===== src/DoomLoop/Fingerprints/Suffix.antt =====
-- The end of the history, under the push and the trim of checkLoop (doom-loop-detector.ts).
use shipyard_cp.Base.{
  ℕ, zero, suc, ◌+◌, ◌-◌, ◌≤◌, min, ◌≡◌, refl, sym, ap, ◌∙◌, inl, inr, Bool, true, List, [], ◌∷◌,
  ◌++◌, arith, ltb, if◌then◌else◌, tests, Bool-cases, length, length-append, drop, length-drop,
  keep, all, nat_eqb, string_eqb,
}
use shipyard_cp.DoomLoop.{FingerprintHistoryEntry}
use mathlib.Core.Path.{subst}
use mathlib.Core.List.{append_assoc}
use shipyard_cp.DoomLoop.Fingerprints.{push_trim}

all-drop :
    (p : FingerprintHistoryEntry → Bool) (d : ℕ) (xs : List FingerprintHistoryEntry)
    → all p xs ≡ true
    → all p (drop d xs) ≡ true
all-drop p zero xs h = h
all-drop p (suc d) [] h = h
all-drop p (suc d) (x ∷ xs) h = all-drop p d xs (ground arith)

-- The last `k` entries of the history, or more, all match.
pub record EndsIn (p : FingerprintHistoryEntry → Bool) (k : ℕ) (h : List FingerprintHistoryEntry)
    : Type 0 where
  pub before : List FingerprintHistoryEntry
  pub recent : List FingerprintHistoryEntry
  pub split : h ≡ before ++ recent
  pub enough : k ≤ length recent
  pub matching : all p recent ≡ true

drop-EndsIn :
    (p : FingerprintHistoryEntry → Bool) (d k : ℕ) (xs ys : List FingerprintHistoryEntry)
    → k ≤ length ys
    → all p ys ≡ true
    → EndsIn p (min k (length xs + length ys - d)) (drop d (xs ++ ys))
drop-EndsIn p zero k xs ys e m = record {
  before = xs;
  recent = ys;
  split = refl;
  enough = omega arith;
  matching = m;
}
drop-EndsIn p (suc d) k [] ys e m = record {
  before = [];
  recent = drop (suc d) ys;
  split = refl;
  enough = omega (arith, length-drop (suc d) ys);
  matching = all-drop p (suc d) ys m;
}
drop-EndsIn p (suc d) k (x ∷ xs) ys e m =
    let r = drop-EndsIn p d k xs ys e m in
    record {
      before = r.before;
      recent = r.recent;
      split = r.split;
      enough = omega (arith, r.enough);
      matching = r.matching;
    }

all-concat :
    (p : FingerprintHistoryEntry → Bool) (xs : List FingerprintHistoryEntry)
    (e : FingerprintHistoryEntry)
    → all p xs ≡ true
    → p e ≡ true
    → all p (xs ++ e ∷ []) ≡ true
all-concat p [] e h t = ground arith
all-concat p (x ∷ xs) e h t = ground (arith, all-concat p xs e)

pub weaken :
    (p : FingerprintHistoryEntry → Bool) (j k : ℕ) (h : List FingerprintHistoryEntry)
    → j ≤ k
    → EndsIn p k h
    → EndsIn p j h
weaken p j k h le r = record {
  before = r.before;
  recent = r.recent;
  split = r.split;
  enough = omega (arith, r.enough);
  matching = r.matching;
}

-- push_trim after the push.
abbrev trim : ℕ → List FingerprintHistoryEntry → List FingerprintHistoryEntry
trim window h = if ltb window (length h) then drop (length h - window) h else h

trim-EndsIn :
    (p : FingerprintHistoryEntry → Bool) (window k : ℕ) (xs ys : List FingerprintHistoryEntry)
    → k ≤ length ys
    → all p ys ≡ true
    → EndsIn p (min k window) (trim window (xs ++ ys))
trim-EndsIn p window k xs ys e m = elim (Bool-cases (ltb window (length (xs ++ ys)))) [
  | inl t ↦ rw t (
      weaken p (min k window) (min k (length xs + length ys - (length (xs ++ ys) - window)))
        (drop (length (xs ++ ys) - window) (xs ++ ys)) (omega (tests, t, length-append xs ys))
        (drop-EndsIn p (length (xs ++ ys) - window) k xs ys e m))
  | inr f ↦
      rw f (record { before = xs; recent = ys; split = refl; enough = omega arith; matching = m })
]

pub push-EndsIn :
    (p : FingerprintHistoryEntry → Bool) (window k : ℕ) (h : List FingerprintHistoryEntry)
    (e : FingerprintHistoryEntry)
    → p e ≡ true
    → EndsIn p k h
    → EndsIn p (min (suc k) window) (push_trim window h e)
push-EndsIn p window k h e t r =
    subst (λ l. EndsIn p (min (suc k) window) (trim window l)) (sym same)
      (trim-EndsIn p window (suc k) r.before (r.recent ++ e ∷ [])
        (omega (arith, r.enough, length-append r.recent (e ∷ [])))
        (all-concat p r.recent e r.matching t))
  where
    same : h ++ e ∷ [] ≡ r.before ++ (r.recent ++ e ∷ [])
    same = ap (λ l. l ++ e ∷ []) r.split ∙ append_assoc r.before r.recent (e ∷ [])

length-keep-all :
    (p : FingerprintHistoryEntry → Bool) (xs : List FingerprintHistoryEntry)
    → all p xs ≡ true
    → length (keep p xs) ≡ length xs
length-keep-all p [] h = refl
length-keep-all p (x ∷ xs) h = ground (arith, length-keep-all p xs)

keep-append-le :
    (p : FingerprintHistoryEntry → Bool) (xs ys : List FingerprintHistoryEntry)
    → length (keep p ys) ≤ length (keep p (xs ++ ys))
keep-append-le p [] ys = omega arith
keep-append-le p (x ∷ xs) ys = ground (arith, keep-append-le p xs ys)

pub matching_count :
    (p : FingerprintHistoryEntry → Bool) (k : ℕ) (h : List FingerprintHistoryEntry)
    → EndsIn p k h
    → k ≤ length (keep p h)
matching_count p k h r = omega (
  arith,
  r.enough,
  ap (λ l. length (keep p l)) r.split,
  keep-append-le p r.before r.recent,
  length-keep-all p r.recent r.matching,
)
