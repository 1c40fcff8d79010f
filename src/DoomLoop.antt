-- ===== src/DoomLoop.antt =====
-- src/domain/doom-loop: the state of the DoomLoopDetector. Its operations stand in the children
-- Transitions and Fingerprints, and their laws below those.
pub mod Transitions
pub mod Fingerprints
mod Tests
use shipyard_cp.Base.{ℕ, ◌*◌, Option, List, [], String, nat_eqb, string_eqb}
use shipyard_cp.JsMap.{JsMap, JsSet}

pub record DoomLoopConfig : Type 0 where
  pub max_repeats : ℕ
  pub window_minutes : ℕ
  pub cooldown_minutes : ℕ

pub record LoopFingerprintConfig : Type 0 where
  pub loop_window_size : ℕ
  pub loop_warn_threshold : ℕ
  pub loop_block_threshold : ℕ

-- DEFAULT_DOOM_LOOP_CONFIG
abbrev pub default_doom_loop_config : DoomLoopConfig
default_doom_loop_config = record { max_repeats = 3; window_minutes = 30; cooldown_minutes = 5 }

-- DEFAULT_LOOP_FINGERPRINT_CONFIG
abbrev pub default_loop_fingerprint_config : LoopFingerprintConfig
default_loop_fingerprint_config = record {
  loop_window_size = 20;
  loop_warn_threshold = 3;
  loop_block_threshold = 4;
}

pub record TransitionRecord : Type 0 where
  pub from_state : String
  pub to_state : String
  pub stage : String
  pub timestamp : ℕ

pub data LoopType : Type 0 where
  simple complex state_repeat : LoopType

pub record LoopDetectionResult : Type 0 where
  pub loop_type : LoopType
  pub states : List String
  pub repeat_count : Option ℕ
  pub detected_at : ℕ

pub record FingerprintHistoryEntry : Type 0 where
  pub fingerprint : String
  pub stage : String
  pub task_id : String
  pub job_id : String
  pub timestamp : ℕ

pub record DoomLoopDetector : Type 0 where
  pub config : DoomLoopConfig
  pub open config use *
  pub fingerprint_config : LoopFingerprintConfig
  pub open fingerprint_config use *
  pub transition_history : JsMap (List TransitionRecord)
  pub loop_results : JsMap LoopDetectionResult
  pub cooldown_start : JsMap ℕ
  pub fingerprint_history : List FingerprintHistoryEntry
  pub warning_issued : JsSet
  pub blocked_fingerprints : JsSet

-- The constructor, for configurations that are complete.
abbrev pub new_detector : DoomLoopConfig → LoopFingerprintConfig → DoomLoopDetector
new_detector config fingerprint_config = record {
  config = config;
  fingerprint_config = fingerprint_config;
  transition_history = [];
  loop_results = [];
  cooldown_start = [];
  fingerprint_history = [];
  warning_issued = [];
  blocked_fingerprints = [];
}
