-- ===== src/DoomLoop/Fingerprints/Sticky.antt =====
-- Blocks and warnings over sequences of calls (doom-loop-detector.ts, checkLoop).
use shipyard_cp.Base.{
  ℕ, ◌≡◌, ◌≢◌, true, List, [], ◌∷◌, String, eq_iff, eq_refl, arith, All, nat_eqb, string_eqb,
}
use shipyard_cp.JsMap.{includes-add, includes-remove}
use shipyard_cp.DoomLoop.{DoomLoopDetector}
use shipyard_cp.DoomLoop.Fingerprints.{
  LoopCheckResult, warn, block, check_loop, clear_fingerprint_state, is_fingerprint_blocked,
  has_warning_been_issued,
}

-- A check of a job.
pub record Check : Type 0 where
  pub stage : String
  pub fingerprint : String
  pub task_id : String
  pub job_id : String
  pub now : ℕ

abbrev pub run_check : DoomLoopDetector → Check → DoomLoopDetector × LoopCheckResult
run_check d c = check_loop d c.stage c.fingerprint c.task_id c.job_id c.now

-- Checks, and clearings of a fingerprint.
pub data Call : Type 0 where
  checks : Check → Call
  clears : String → Call

pub step : DoomLoopDetector → Call → DoomLoopDetector
step d (checks c) = (run_check d c).0
step d (clears f) = clear_fingerprint_state d f

pub run : DoomLoopDetector → List Call → DoomLoopDetector
run d [] = d
run d (c ∷ cs) = run (step d c) cs

abbrev pub Leaves : String → Call → Type 0
Leaves f (checks c) = Unit
Leaves f (clears g) = g ≢ f

step_blocked :
    (d : DoomLoopDetector) (f : String) (c : Call)
    → is_fingerprint_blocked d f ≡ true
    → Leaves f c
    → is_fingerprint_blocked (step d c) f ≡ true
unfolding step check_loop is_fingerprint_blocked clear_fingerprint_state
step_blocked d f (checks c) b l =
    ground (arith, includes-add d.blocked_fingerprints c.fingerprint f)
step_blocked d f (clears g) b l =
    ground (arith, includes-remove d.blocked_fingerprints g f, eq_iff g f)

run_blocked :
    (d : DoomLoopDetector) (f : String) (cs : List Call)
    → is_fingerprint_blocked d f ≡ true
    → All (Leaves f) cs
    → is_fingerprint_blocked (run d cs) f ≡ true
unfolding run
run_blocked d f [] b l = b
run_blocked d f (c ∷ cs) b l = run_blocked (step d c) f cs (step_blocked d f c b l.0) l.1

block_marks :
    (d : DoomLoopDetector) (c : Check)
    → (run_check d c).1.action ≡ block
    → is_fingerprint_blocked (run_check d c).0 c.fingerprint ≡ true
unfolding check_loop is_fingerprint_blocked
block_marks d c h =
    ground (
      arith,
      includes-add d.blocked_fingerprints c.fingerprint c.fingerprint,
      eq_refl c.fingerprint,
    )

blocked_blocks :
    (d : DoomLoopDetector) (c : Check)
    → is_fingerprint_blocked d c.fingerprint ≡ true
    → (run_check d c).1.action ≡ block
unfolding check_loop is_fingerprint_blocked
blocked_blocks d c h = ground arith

-- Once a check answers block, every later check of that fingerprint does, in whatever stage and
-- after whatever calls, unless the fingerprint was cleared.
pub block_sticky :
    (d : DoomLoopDetector) (c later : Check) (cs : List Call)
    → (run_check d c).1.action ≡ block
    → All (Leaves c.fingerprint) cs
    → later.fingerprint ≡ c.fingerprint
    → (run_check (run (run_check d c).0 cs) later).1.action ≡ block
block_sticky d c later cs h l same =
    blocked_blocks (run (run_check d c).0 cs) later
      (rw same (run_blocked (run_check d c).0 c.fingerprint cs (block_marks d c h) l))

step_warned :
    (d : DoomLoopDetector) (f : String) (c : Call)
    → has_warning_been_issued d f ≡ true
    → Leaves f c
    → has_warning_been_issued (step d c) f ≡ true
unfolding step check_loop has_warning_been_issued clear_fingerprint_state
step_warned d f (checks c) b l = ground (arith, includes-add d.warning_issued c.fingerprint f)
step_warned d f (clears g) b l = ground (arith, includes-remove d.warning_issued g f, eq_iff g f)

run_warned :
    (d : DoomLoopDetector) (f : String) (cs : List Call)
    → has_warning_been_issued d f ≡ true
    → All (Leaves f) cs
    → has_warning_been_issued (run d cs) f ≡ true
unfolding run
run_warned d f [] b l = b
run_warned d f (c ∷ cs) b l = run_warned (step d c) f cs (step_warned d f c b l.0) l.1

warn_marks :
    (d : DoomLoopDetector) (c : Check)
    → (run_check d c).1.action ≡ warn
    → has_warning_been_issued (run_check d c).0 c.fingerprint ≡ true
unfolding check_loop has_warning_been_issued
warn_marks d c h =
    ground (arith, includes-add d.warning_issued c.fingerprint c.fingerprint, eq_refl c.fingerprint)

warned_silent :
    (d : DoomLoopDetector) (c : Check)
    → has_warning_been_issued d c.fingerprint ≡ true
    → (run_check d c).1.action ≢ warn
unfolding check_loop has_warning_been_issued
warned_silent d c h w = ground arith

-- After a check has answered warn, no later check of that fingerprint does, in whatever stage and
-- after whatever calls, unless the fingerprint was cleared.
pub warn_once :
    (d : DoomLoopDetector) (c later : Check) (cs : List Call)
    → (run_check d c).1.action ≡ warn
    → All (Leaves c.fingerprint) cs
    → later.fingerprint ≡ c.fingerprint
    → (run_check (run (run_check d c).0 cs) later).1.action ≢ warn
warn_once d c later cs h l same =
    warned_silent (run (run_check d c).0 cs) later
      (rw same (run_warned (run_check d c).0 c.fingerprint cs (warn_marks d c h) l))
