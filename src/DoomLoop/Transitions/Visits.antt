-- ===== src/DoomLoop/Transitions/Visits.antt =====
-- How often a job visits a state (doom-loop-detector.ts, detectLoop).
use shipyard_cp.Base.{
  ℕ, suc, ◌+◌, ◌≤◌, ◌<◌, ◌≡◌, refl, ◌≢◌, inl, inr, none, some, List, [], ◌∷◌, String, str_eq,
  eq_iff, eq_refl, arith, ltb, if◌then◌else◌, Bool-cases, Option-cases, value_or, length, nat_eqb,
  string_eqb,
}
use shipyard_cp.JsMap.{JsMap, get, get-set, UniqueKeys, set-UniqueKeys}
use shipyard_cp.DoomLoop.{DoomLoopDetector, TransitionRecord, LoopDetectionResult, state_repeat}
use shipyard_cp.DoomLoop.Transitions.{
  state_sequence, count_visit, count_visits, over_visited, find_loop, find_shape, detect_loop,
  get_transition_history, found,
}

-- The number of times that a state stands in a sequence.
abbrev pub visits : String → List String → ℕ
visits s [] = 0
visits s (t ∷ ts) = let rest = visits s ts in if str_eq t s then suc rest else rest

count_visits_lem :
    (m : JsMap ℕ) (ss : List String) (s : String)
    → value_or (get (count_visits m ss) s) 0 ≡ value_or (get m s) 0 + visits s ss
count_visits_lem m [] s = omega arith
count_visits_lem m (t ∷ ts) s = ground (
  arith,
  count_visits_lem (count_visit m t) ts s,
  get-set m t s (value_or (get m t) 0 + 1),
  eq_iff t s,
)

-- A state that is reported was counted so often; if none is, every count is within the limit.
over_visited-none :
    (n : ℕ) (m : JsMap ℕ) (s : String) → over_visited n m ≡ none → value_or (get m s) 0 ≤ n
unfolding get
over_visited-none n [] s h = omega arith
over_visited-none n ((t, c) ∷ m) s h = ground (arith, over_visited-none n m s)

over_visited-some :
    (n : ℕ) (m : JsMap ℕ) (s : String) (c : ℕ)
    → UniqueKeys m
    → over_visited n m ≡ some (s, c)
    → (value_or (get m s) 0 ≡ c) × (n < c)
unfolding get
over_visited-some n [] s c u h = cc
over_visited-some n ((t, b) ∷ m) s c u h = elim (Bool-cases (ltb n b)) [
  | inl over ↦ ground (arith, eq_refl s)
  | inr under ↦ ground (arith, over_visited-some n m s c u.1, eq_iff t s)
]

count_visits-UniqueKeys :
    (m : JsMap ℕ) (ss : List String) → UniqueKeys m → UniqueKeys (count_visits m ss)
count_visits-UniqueKeys m [] u = u
count_visits-UniqueKeys m (t ∷ ts) u =
    count_visits-UniqueKeys (count_visit m t) ts (set-UniqueKeys m t (value_or (get m t) 0 + 1) u)

counted : (ss : List String) (s : String) → value_or (get (count_visits [] ss) s) 0 ≡ visits s ss
unfolding get
counted ss s = omega (arith, count_visits_lem [] ss s)

shape_no_repeat :
    (ss : List String) (now : ℕ) (r : LoopDetectionResult)
    → find_shape ss now ≡ some r
    → r.loop_type ≢ state_repeat
unfolding find_shape
shape_no_repeat ss now r h e = ground arith

repeat_of_find :
    (n : ℕ) (history : List TransitionRecord) (now : ℕ) (r : LoopDetectionResult)
    → find_loop n history now ≡ some r
    → r.loop_type ≡ state_repeat
    → (s : String) × (r.states ≡ s ∷ [])
      × (r.repeat_count ≡ some (visits s (state_sequence history)))
      × (n < visits s (state_sequence history))
unfolding find_loop
repeat_of_find n history now r h e =
    let ss = state_sequence history in
    elim (Option-cases (over_visited n (count_visits [] ss))) [
      | inl none_over ↦ absurd (ground (arith, shape_no_repeat ss now r))
      | inr (p, over) ↦
          let facts =
            over_visited-some n (count_visits [] ss) p.0 p.1 (count_visits-UniqueKeys [] ss tt)
              over in
          (
            p.0,
            ground arith,
            ground (arith, facts, counted ss p.0),
            ground (arith, facts, counted ss p.0),
          )
    ]

find_of_repeat :
    (n : ℕ) (history : List TransitionRecord) (now : ℕ) (s : String)
    → 2 ≤ length history
    → n < visits s (state_sequence history)
    → (r : LoopDetectionResult) × (find_loop n history now ≡ some r) × (r.loop_type ≡ state_repeat)
unfolding find_loop
find_of_repeat n history now s long many =
    let ss = state_sequence history in
    elim (Option-cases (over_visited n (count_visits [] ss))) [
      | inl none_over ↦
          absurd (
            omega (arith, many, counted ss s, over_visited-none n (count_visits [] ss) s none_over))
      | inr (p, over) ↦ (found state_repeat (p.0 ∷ []) (some p.1) now, ground arith, refl)
    ]

-- A report that a job repeats a state names a state that the job has visited more often than
-- max_repeats, and the number of its visits.
pub repeat_sound :
    (d : DoomLoopDetector) (job : String) (detected now : ℕ) (r : LoopDetectionResult)
    → (detect_loop d job detected now).1 ≡ some r
    → r.loop_type ≡ state_repeat
    → let ss = state_sequence (get_transition_history d job) in
      (s : String) × (r.states ≡ s ∷ [])
      × (r.repeat_count ≡ some (visits s ss))
      × (d.max_repeats < visits s ss)
unfolding detect_loop
repeat_sound d job detected now r h e =
    repeat_of_find d.max_repeats (get_transition_history d job) detected r (ground arith) e

-- A job with two transitions or more that has visited some state more often than max_repeats is
-- reported for repeating a state.
pub repeat_detected :
    (d : DoomLoopDetector) (job s : String) (detected now : ℕ)
    → 2 ≤ length (get_transition_history d job)
    → d.max_repeats < visits s (state_sequence (get_transition_history d job))
    → (r : LoopDetectionResult) × ((detect_loop d job detected now).1 ≡ some r)
      × (r.loop_type ≡ state_repeat)
unfolding detect_loop
repeat_detected d job s detected now long many =
    let (r, h, e) =
      find_of_repeat d.max_repeats (get_transition_history d job) detected s long many in
    (r, ground (arith, h), e)
