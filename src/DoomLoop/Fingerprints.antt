-- ===== src/DoomLoop/Fingerprints.antt =====
-- doom-loop-detector.ts: repeated fingerprints in a window of recent jobs.
pub mod Window
pub mod Sticky
pub mod Suffix
pub mod Repeats
use shipyard_cp.Base.{
  ℕ, ◌-◌, Bool, not, ◌&&◌, List, [], ◌∷◌, ◌++◌, String, str_eq, ltb, leb, if◌then◌else◌, length,
  drop, keep, includes, nat_eqb, string_eqb,
}
use shipyard_cp.JsMap.{JsSet, add, remove}
use shipyard_cp.DoomLoop.{DoomLoopDetector, FingerprintHistoryEntry}

pub data LoopAction : Type 0 where
  nothing warn block : LoopAction

pub record LoopCheckResult : Type 0 where
  pub fingerprint : String
  pub occurrence_count : ℕ
  pub window_size : ℕ
  pub action : LoopAction

abbrev pub matches : String → String → FingerprintHistoryEntry → Bool
matches fingerprint stage e = str_eq e.fingerprint fingerprint && str_eq e.stage stage

-- push, then splice(0, length - windowSize) if the history is longer than the window.
abbrev pub push_trim :
    ℕ → List FingerprintHistoryEntry → FingerprintHistoryEntry → List FingerprintHistoryEntry
push_trim window history e =
    let pushed = history ++ e ∷ [] in
    if ltb window (length pushed) then drop (length pushed - window) pushed else pushed

unfoldable pub get_fingerprint_occurrence_count :
    DoomLoopDetector → (fingerprint stage : String) → ℕ
get_fingerprint_occurrence_count d fingerprint stage =
    length (keep (matches fingerprint stage) d.fingerprint_history)

-- The tests of checkLoop, on the count: the new state and the action.
unfoldable pub decide_action : DoomLoopDetector → String → ℕ → DoomLoopDetector × LoopAction
decide_action d fingerprint count =
    if includes d.blocked_fingerprints fingerprint
    then (d, block)
    else if leb d.loop_block_threshold count
    then (record d { blocked_fingerprints = add d.blocked_fingerprints fingerprint }, block)
    else if leb d.loop_warn_threshold count && not (includes d.warning_issued fingerprint)
    then (record d { warning_issued = add d.warning_issued fingerprint }, warn)
    else (d, nothing)

abbrev pub pushed :
    DoomLoopDetector → (stage fingerprint task_id job_id : String) → ℕ → DoomLoopDetector
pushed d stage fingerprint task_id job_id now = record d {
  fingerprint_history = push_trim d.loop_window_size d.fingerprint_history (record {
    fingerprint = fingerprint;
    stage = stage;
    task_id = task_id;
    job_id = job_id;
    timestamp = now;
  });
}

unfoldable pub check_loop :
    DoomLoopDetector
    → (stage fingerprint task_id job_id : String) → (now : ℕ) → DoomLoopDetector × LoopCheckResult
unfolding decide_action get_fingerprint_occurrence_count
check_loop d stage fingerprint task_id job_id now =
    let p = pushed d stage fingerprint task_id job_id now in
    let count = get_fingerprint_occurrence_count p fingerprint stage in
    let (d', action) = decide_action p fingerprint count in
    (
      d',
      record {
        fingerprint = fingerprint;
        occurrence_count = count;
        window_size = d.loop_window_size;
        action = action;
      },
    )

unfoldable pub is_fingerprint_blocked : DoomLoopDetector → String → Bool
is_fingerprint_blocked d fingerprint = includes d.blocked_fingerprints fingerprint

unfoldable pub has_warning_been_issued : DoomLoopDetector → String → Bool
has_warning_been_issued d fingerprint = includes d.warning_issued fingerprint

unfoldable pub get_fingerprint_history_length : DoomLoopDetector → ℕ
get_fingerprint_history_length d = length d.fingerprint_history

unfoldable pub get_fingerprint_history_for_stage :
    DoomLoopDetector → String → List FingerprintHistoryEntry
get_fingerprint_history_for_stage d stage = keep (λ e. str_eq e.stage stage) d.fingerprint_history

unfoldable pub clear_fingerprint_state : DoomLoopDetector → String → DoomLoopDetector
clear_fingerprint_state d fingerprint = record d {
  blocked_fingerprints = remove d.blocked_fingerprints fingerprint;
  warning_issued = remove d.warning_issued fingerprint;
}

unfoldable pub clear_all_fingerprint_state : DoomLoopDetector → DoomLoopDetector
clear_all_fingerprint_state d = record d {
  fingerprint_history = [];
  warning_issued = [];
  blocked_fingerprints = [];
}
