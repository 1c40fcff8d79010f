-- ===== src/DoomLoop/Transitions.antt =====
-- doom-loop-detector.ts: loops in the state transitions of a job. States are texts that are no
-- array indices, so Object.entries lists them in the order of insertion.
pub mod Visits
pub mod Shapes
use shipyard_cp.Base.{
  ℕ, suc, ◌+◌, ◌-◌, ◌*◌, Bool, false, ◌&&◌, Option, none, some, List, [], ◌∷◌, ◌++◌, map, String,
  str_eq, ltb, leb, ◌==◌, if◌then◌else◌, is_some, value_or, length, take, drop, nat_eqb, string_eqb,
}
use shipyard_cp.JsMap.{JsMap, JsSet, get, set, delete, add}
use shipyard_cp.DoomLoop.{
  DoomLoopDetector, TransitionRecord, LoopDetectionResult, LoopType, simple, complex, state_repeat,
}

unfoldable pub get_transition_history : DoomLoopDetector → String → List TransitionRecord
get_transition_history d job_id = value_or (get d.transition_history job_id) []

unfoldable pub track_transition :
    DoomLoopDetector → (job_id from_state to_state stage : String) → (now : ℕ) → DoomLoopDetector
unfolding get_transition_history
track_transition d job_id from_state to_state stage now = record d {
  transition_history = set d.transition_history job_id (
      get_transition_history d job_id
      ++ record { from_state = from_state; to_state = to_state; stage = stage; timestamp = now }
        ∷ []);
}

-- stateSequence: the first from_state, and then each to_state.
abbrev pub state_sequence : List TransitionRecord → List String
state_sequence [] = []
state_sequence (r ∷ rs) = r.from_state ∷ map (λ t. t.to_state) (r ∷ rs)

-- stateVisits[state] = (stateVisits[state] ?? 0) + 1
abbrev pub count_visit : JsMap ℕ → String → JsMap ℕ
count_visit visits state = set visits state (value_or (get visits state) 0 + 1)

abbrev pub count_visits : JsMap ℕ → List String → JsMap ℕ
count_visits visits [] = visits
count_visits visits (s ∷ ss) = count_visits (count_visit visits s) ss

-- The first state in stateVisits that was visited more than max_repeats times.
abbrev pub over_visited : ℕ → JsMap ℕ → Option (String × ℕ)
over_visited max_repeats [] = none
over_visited max_repeats ((state, count) ∷ m) =
    let rest = over_visited max_repeats m in
    if ltb max_repeats count then some (state, count) else rest

-- new Set(stateSequence)
abbrev unique_states : JsSet → List String → JsSet
unique_states seen [] = seen
unique_states seen (s ∷ ss) = unique_states (add seen s) ss

-- startStatePositions
abbrev pub positions : ℕ → String → List String → List ℕ
positions i start [] = []
positions i start (s ∷ ss) =
    let rest = positions (suc i) start ss in if str_eq s start then i ∷ rest else rest

-- The first and the last position, where there are two or more.
abbrev pub last_of : ℕ → List ℕ → ℕ
last_of i [] = i
last_of i (j ∷ js) = last_of j js

abbrev ends_of : List ℕ → Option (ℕ × ℕ)
ends_of [] = none
ends_of (i ∷ []) = none
ends_of (i ∷ j ∷ js) = some (i, last_of j js)

abbrev loop_between : List String → Option (ℕ × ℕ) → Option (List String)
loop_between sequence none = none
loop_between sequence (some (first, last)) =
    if leb 3 (last - first) then some (take (last - first) (drop first sequence)) else none

unfoldable pub detect_complex_loop : List String → Option (List String)
detect_complex_loop [] = none
detect_complex_loop (start ∷ ss) =
    if ltb (length (start ∷ ss)) 5
    then none
    else loop_between (start ∷ ss) (ends_of (positions 0 start (start ∷ ss)))

abbrev pub found : LoopType → List String → Option ℕ → ℕ → LoopDetectionResult
found loop_type states repeat_count now = record {
  loop_type = loop_type;
  states = states;
  repeat_count = repeat_count;
  detected_at = now;
}

-- The second and the third test of detectLoop.
unfoldable pub find_shape : List String → ℕ → Option LoopDetectionResult
find_shape sequence now =
    let unique = unique_states [] sequence in
    if length unique == 2 && leb 3 (length sequence)
    then some (found simple unique none now)
    else elim (detect_complex_loop sequence) [
      | none ↦ none
      | some states ↦ some (found complex states none now)
    ]

-- The three tests of detectLoop, in their order.
unfoldable pub find_loop : ℕ → List TransitionRecord → ℕ → Option LoopDetectionResult
find_loop max_repeats history now =
    let sequence = state_sequence history in
    if ltb (length history) 2
    then none
    else elim (over_visited max_repeats (count_visits [] sequence)) [
      | some (state, count) ↦ some (found state_repeat (state ∷ []) (some count) now)
      | none ↦ find_shape sequence now
    ]

-- The clock is read for the result, and again for the start of the cooldown.
unfoldable pub detect_loop :
    DoomLoopDetector → String → (detected now : ℕ) → DoomLoopDetector × Option LoopDetectionResult
detect_loop d job_id detected now =
    elim (find_loop d.max_repeats (get_transition_history d job_id) detected) [
      | none ↦ (d, none)
      | some r ↦ (
        record d {
          loop_results = set d.loop_results job_id r;
          cooldown_start = set d.cooldown_start job_id now;
        },
        some r,
      )
    ]

-- now - cooldownStart < cooldownMs, where the clock may have gone back.
unfoldable pub is_in_cooldown : DoomLoopDetector → String → (now : ℕ) → Bool
is_in_cooldown d job_id now = elim (get d.cooldown_start job_id) [
  | none ↦ false
  | some start ↦ ltb now (start + d.cooldown_minutes * 60 * 1000)
]

-- The recommended action, with the values that its reason is printed from.
pub data RecommendedAction : Type 0 where
  continue : RecommendedAction
  escalate : LoopType → List String → RecommendedAction
  block : (states : List String) (repeat_count : Option ℕ) (threshold : ℕ) → RecommendedAction

abbrev action_for : DoomLoopDetector → LoopDetectionResult → LoopType → RecommendedAction
action_for d r simple = escalate simple r.states
action_for d r complex = escalate complex r.states
action_for d r state_repeat = block r.states r.repeat_count d.max_repeats

unfoldable pub get_recommended_action :
    DoomLoopDetector → String → (checked now : ℕ) → DoomLoopDetector × RecommendedAction
unfolding is_in_cooldown
get_recommended_action d job_id checked now = elim (get d.loop_results job_id) [
  | none ↦ (d, continue)
  | some r ↦ (
    if is_in_cooldown d job_id checked
        then d
        else record d { cooldown_start = set d.cooldown_start job_id now },
    action_for d r r.loop_type,
  )
]

unfoldable pub clear_history : DoomLoopDetector → String → DoomLoopDetector
clear_history d job_id = record d {
  transition_history = delete d.transition_history job_id;
  loop_results = delete d.loop_results job_id;
  cooldown_start = delete d.cooldown_start job_id;
}

pub record LoopStats : Type 0 where
  pub detected : Bool
  pub loop_type : Option LoopType
  pub state_visit_counts : JsMap ℕ

unfoldable pub get_loop_stats : DoomLoopDetector → String → LoopStats
unfolding get_transition_history
get_loop_stats d job_id = record {
  detected = is_some (get d.loop_results job_id);
  loop_type = elim (get d.loop_results job_id) [ none ↦ none | some r ↦ some r.loop_type ];
  state_visit_counts = count_visits [] (map (λ t. t.to_state) (get_transition_history d job_id));
}
