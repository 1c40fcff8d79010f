-- ===== src/DoomLoop/Transitions/Shapes.antt =====
-- The simple and the complex loop of a report (doom-loop-detector.ts, detectLoop).
use shipyard_cp.Base.{
  ℕ, zero, suc, ◌-◌, ◌≤◌, min, max, ◌≡◌, refl, sym, ap, ◌∙◌, inl, inr, true, false, none, some,
  List, [], ◌∷◌, ◌++◌, String, str_eq, eq_iff, eq_refl, arith, Bool-cases, length, List-cases, take,
  drop, length-drop, nat_eqb, string_eqb,
}
use mathlib.Core.Path.{subst}
use shipyard_cp.JsMap.{get, set}
use shipyard_cp.DoomLoop.{DoomLoopDetector, simple}
use shipyard_cp.DoomLoop.Transitions.{
  find_loop, find_shape, detect_loop, get_transition_history, found, detect_complex_loop, positions,
  last_of,
}

take-append-drop : (n : ℕ) (xs : List String) → take n xs ++ drop n xs ≡ xs
take-append-drop zero xs = refl
take-append-drop (suc n) [] = refl
take-append-drop (suc n) (x ∷ xs) = ap (◌∷◌ x) (take-append-drop n xs)

length-take : (n : ℕ) (xs : List String) → length (take n xs) ≡ min n (length xs)
length-take zero xs = omega arith
length-take (suc n) [] = omega arith
length-take (suc n) (x ∷ xs) = omega (arith, length-take n xs)

-- The last of some positions, counted from `i`, is that of another `start`.
AtLast : ℕ → String → List String → ℕ → Type 0
AtLast i start ss l = (rest : List String) × (i ≤ l) × (drop (l - i) ss ≡ start ∷ rest)

shift :
    (i : ℕ) (start s : String) (ss : List String) (l : ℕ)
    → AtLast (suc i) start ss l
    → AtLast i start (s ∷ ss) l
unfolding AtLast
shift i start s ss l (rest, below, at) =
    let e : l - i ≡ suc (l - suc i) = omega (arith, below) in (rest, omega (arith, below), rw e at)

at_here :
    (i : ℕ) (start s : String) (ss : List String) (js : List ℕ)
    → str_eq s start ≡ true
    → ((k : ℕ) (ks : List ℕ) → js ≡ k ∷ ks → AtLast (suc i) start ss (last_of k ks))
    → AtLast i start (s ∷ ss) (last_of i js)
unfolding AtLast
at_here i start s ss [] same ih =
    let e : i - i ≡ 0 = omega arith in
    (ss, omega arith, rw e (ap (λ x. x ∷ ss) ((eq_iff s start).0 same)))
at_here i start s ss (k ∷ ks) same ih = shift i start s ss (last_of k ks) (ih k ks refl)

at_last :
    (i : ℕ) (start : String) (ss : List String) (j : ℕ) (js : List ℕ)
    → positions i start ss ≡ j ∷ js
    → AtLast i start ss (last_of j js)
at_last i start [] j js h = cc
at_last i start (s ∷ ss) j js h = elim (Bool-cases (str_eq s start)) [
  | inl same ↦
      let first : i ≡ j = ground arith in
      let others : positions (suc i) start ss ≡ js = ground arith in
      rw (← first)
        (at_here i start s ss js same (λ k ks e. at_last (suc i) start ss k ks (others ∙ e)))
  | inr other ↦ shift i start s ss (last_of j js) (at_last (suc i) start ss j js (ground arith))
]

first_position :
    (start : String) (ss : List String) → positions 0 start (start ∷ ss) ≡ 0 ∷ positions 1 start ss
first_position start ss = rw (eq_refl start)

IsCycle : String → List String → List String → Type 0
IsCycle start ss states =
    (rest : List String) × (start ∷ ss ≡ states ++ start ∷ rest) × (3 ≤ length states)

cut :
    (start : String) (ss : List String) (l : ℕ)
    → 3 ≤ l - 0
    → AtLast 1 start ss l
    → IsCycle start ss (take (l - 0) (start ∷ ss))
unfolding IsCycle AtLast
cut start ss l long (rest, below, at) =
    let e : l - 0 ≡ suc (l - 1) = omega (arith, below) in
    rw e (
      rest,
      ap (◌∷◌ start) (sym (take-append-drop (l - 1) ss) ∙ ap (◌++◌ (take (l - 1) ss)) at),
      omega (arith, long, ap length at, length-drop (l - 1) ss, length-take (l - 1) ss),
    )

cut_of :
    (start : String) (ss states : List String) (j : ℕ) (js : List ℕ)
    → positions 1 start ss ≡ j ∷ js
    → detect_complex_loop (start ∷ ss) ≡ some states
    → (states ≡ take (last_of j js - 0) (start ∷ ss)) × (3 ≤ last_of j js - 0)
unfolding detect_complex_loop
cut_of start ss states j js after h =
    (ground (arith, first_position start ss), ground (arith, first_position start ss))

-- A complex loop is a cycle: its states, three or more, begin the sequence of the job's states,
-- and the state that comes next is the one that they began with.
pub complex_returns :
    (start : String) (ss states : List String)
    → detect_complex_loop (start ∷ ss) ≡ some states
    → (rest : List String) × (start ∷ ss ≡ states ++ start ∷ rest) × (3 ≤ length states)
unfolding detect_complex_loop IsCycle
complex_returns start ss states h = elim (List-cases (positions 1 start ss)) [
  | inl none_after ↦ absurd (ground (arith, first_position start ss))
  | inr (j, js, after) ↦
      let (same, long) = cut_of start ss states j js after h in
      subst (IsCycle start ss) (sym same)
        (cut start ss (last_of j js) long (at_last 1 start ss j js after))
]

find_retry :
    (n : ℕ) (a b stage : String) (t t' now : ℕ)
    → str_eq a b ≡ false
    → 2 ≤ n
    → find_loop n
        (record { from_state = a; to_state = a; stage = stage; timestamp = t }
          ∷ record { from_state = a; to_state = b; stage = stage; timestamp = t' }
          ∷ [])
        now
      ≡ some (found simple (a ∷ b ∷ []) none now)
unfolding find_loop find_shape get set
find_retry n a b stage t t' now ne max = ground (arith, eq_refl a, eq_refl b)

-- A retry in place followed by a move forward, a -> a -> b, is reported as a simple loop, though
-- the job has left no state that it then came back to.
pub retry_reported :
    (d : DoomLoopDetector) (job a b : String) (stage : String) (t t' detected now : ℕ)
    → str_eq a b ≡ false
    → 2 ≤ d.max_repeats
    → get_transition_history d job
      ≡ record { from_state = a; to_state = a; stage = stage; timestamp = t }
        ∷ record { from_state = a; to_state = b; stage = stage; timestamp = t' }
        ∷ []
    → (detect_loop d job detected now).1 ≡ some (found simple (a ∷ b ∷ []) none detected)
unfolding detect_loop
retry_reported d job a b stage t t' detected now ne max h =
    ground (arith, find_retry d.max_repeats a b stage t t' detected ne max)
