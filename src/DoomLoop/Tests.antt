-- ===== src/DoomLoop/Tests.antt =====
-- The doom-loop detector at concrete jobs (doom-loop-detector.ts).
use shipyard_cp.Base.{
  ℕ, ◌<◌, ◌≡◌, refl, some, List, [], ◌∷◌, String, arith, nat_eqb, string_eqb, str_ne,
}
use shipyard_cp.JsMap.{get, set}
use shipyard_cp.DoomLoop.{
  DoomLoopDetector, TransitionRecord, LoopDetectionResult, state_repeat, new_detector,
  default_doom_loop_config, default_loop_fingerprint_config,
}
use shipyard_cp.DoomLoop.Fingerprints.{block, check_loop}
use shipyard_cp.DoomLoop.Fingerprints.Sticky.{Check, run_check, checks, clears, run, block_sticky}
use shipyard_cp.DoomLoop.Fingerprints.Repeats.{check_all, repeats_blocked}
use shipyard_cp.DoomLoop.Transitions.{
  detect_loop, get_transition_history, state_sequence, find_loop, found,
}
use shipyard_cp.DoomLoop.Transitions.Visits.{visits, repeat_sound, repeat_detected}

abbrev fresh : DoomLoopDetector
fresh = new_detector default_doom_loop_config default_loop_fingerprint_config

abbrev check : String → ℕ → Check
check stage now = record {
  stage = stage;
  fingerprint = "f";
  task_id = "t";
  job_id = "j";
  now = now;
}

abbrev blocked : DoomLoopDetector
blocked = record fresh { blocked_fingerprints = "f" ∷ [] }

abbrev twice : DoomLoopDetector
twice = record fresh {
  fingerprint_history =
      record { fingerprint = "f"; stage = "dev"; task_id = "t"; job_id = "i"; timestamp = 0 }
      ∷ record { fingerprint = "f"; stage = "dev"; task_id = "t"; job_id = "j"; timestamp = 1 }
      ∷ [];
}

block_sticky_example :
    (run_check
      (run (run_check blocked (check "dev" 0)).0 (checks (check "plan" 1) ∷ clears "g" ∷ []))
      (check "acceptance" 2)).1.action
    ≡ block
unfolding check_loop
block_sticky_example =
    block_sticky blocked (check "dev" 0) (check "acceptance" 2)
      (checks (check "plan" 1) ∷ clears "g" ∷ []) refl (tt, (str_ne refl, tt)) refl

repeats_blocked_example :
    (run_check
      (check_all fresh (check "dev" 0 ∷ check "dev" 1 ∷ check "dev" 2 ∷ []))
      (check "dev" 3)).1.action
    ≡ block
repeats_blocked_example =
    repeats_blocked fresh "f" "dev" (check "dev" 0 ∷ check "dev" 1 ∷ check "dev" 2 ∷ [])
      (check "dev" 3) ((refl, refl), ((refl, refl), ((refl, refl), tt))) (refl, refl) (omega arith)
      (omega arith)

abbrev moved : String → String → ℕ → TransitionRecord
moved a b t = record { from_state = a; to_state = b; stage = "dev"; timestamp = t }

abbrev with_history : List TransitionRecord → DoomLoopDetector
with_history h = record fresh { transition_history = ("j", h) ∷ [] }

abbrev stuck : DoomLoopDetector
stuck = with_history (moved "a" "a" 0 ∷ moved "a" "a" 1 ∷ moved "a" "a" 2 ∷ [])

abbrev stuck_result : LoopDetectionResult
stuck_result = found state_repeat ("a" ∷ []) (some 4) 9

repeat_sound_example :
    (s : String) × (stuck_result.states ≡ s ∷ [])
    × (stuck_result.repeat_count
        ≡ some (visits s (state_sequence (get_transition_history stuck "j"))))
    × (3 < visits s (state_sequence (get_transition_history stuck "j")))
unfolding detect_loop get_transition_history find_loop get set
repeat_sound_example = repeat_sound stuck "j" 9 10 stuck_result refl refl

repeat_detected_example :
    (r : LoopDetectionResult) × ((detect_loop stuck "j" 9 10).1 ≡ some r)
    × (r.loop_type ≡ state_repeat)
unfolding get_transition_history get
repeat_detected_example = repeat_detected stuck "j" "a" 9 10 (omega arith) (omega arith)

abbrev cycle : List String
cycle = "a" ∷ "b" ∷ "c" ∷ []
