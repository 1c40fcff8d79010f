-- ===== src/DoomLoop/Fingerprints/Window.antt =====
-- The window of recent fingerprints (doom-loop-detector.ts, checkLoop).
use shipyard_cp.Base.{
  ℕ, ◌-◌, ◌≤◌, ◌≡◌, List, [], ◌∷◌, ◌++◌, String, arith, length, length-append, length-drop, keep,
  length-keep-le, nat_eqb, string_eqb,
}
use shipyard_cp.DoomLoop.{DoomLoopDetector, FingerprintHistoryEntry}
use shipyard_cp.DoomLoop.Fingerprints.Sticky.{Check, run_check}
use shipyard_cp.DoomLoop.Fingerprints.{
  matches, push_trim, get_fingerprint_occurrence_count, decide_action, pushed, check_loop,
}

abbrev pub entry : Check → FingerprintHistoryEntry
entry c = record {
  fingerprint = c.fingerprint;
  stage = c.stage;
  task_id = c.task_id;
  job_id = c.job_id;
  timestamp = c.now;
}

length-push_trim :
    (window : ℕ) (h : List FingerprintHistoryEntry) (e : FingerprintHistoryEntry)
    → length (push_trim window h e) ≤ window
length-push_trim window h e =
    ground
      (arith, length-append h (e ∷ []), length-drop (length (h ++ e ∷ []) - window) (h ++ e ∷ []))

decide_keeps :
    (d : DoomLoopDetector) (f : String) (n : ℕ)
    → ((decide_action d f n).0.fingerprint_history ≡ d.fingerprint_history)
      × ((decide_action d f n).0.fingerprint_config ≡ d.fingerprint_config)
unfolding decide_action
decide_keeps d f n = ground arith

-- What a check does to the history, and what it keeps.
pub check_history :
    (d : DoomLoopDetector) (c : Check)
    → ((run_check d c).0.fingerprint_history
        ≡ push_trim d.loop_window_size d.fingerprint_history (entry c))
      × ((run_check d c).0.fingerprint_config ≡ d.fingerprint_config)
      × ((run_check d c).1.occurrence_count
          ≡ length (
              keep
                (matches c.fingerprint c.stage)
                (push_trim d.loop_window_size d.fingerprint_history (entry c))))
unfolding check_loop get_fingerprint_occurrence_count
check_history d c = ground (
  arith,
  decide_keeps (pushed d c.stage c.fingerprint c.task_id c.job_id c.now) c.fingerprint (
      length (
        keep (matches c.fingerprint c.stage)
          (push_trim d.loop_window_size d.fingerprint_history (entry c)))),
)

-- After every check the history fits the window, and the count that is reported is the number of
-- entries of that fingerprint and stage in it, at most the window's size.
pub check_window :
    (d : DoomLoopDetector) (c : Check)
    → let r = run_check d c in
      (length r.0.fingerprint_history ≤ d.loop_window_size)
      × (r.1.occurrence_count ≡ get_fingerprint_occurrence_count r.0 c.fingerprint c.stage)
      × (r.1.occurrence_count ≤ d.loop_window_size)
unfolding get_fingerprint_occurrence_count
check_window d c =
    let h = check_history d c in
    let trimmed = push_trim d.loop_window_size d.fingerprint_history (entry c) in
    let fits = length-push_trim d.loop_window_size d.fingerprint_history (entry c) in
    (
      rw h.0 fits,
      rw (h.0, h.2),
      rw h.2 (omega (arith, fits, length-keep-le (matches c.fingerprint c.stage) trimmed)),
    )
