-- ===== src/DoomLoop/Fingerprints/Repeats.antt =====
-- Repeats of one fingerprint (doom-loop-detector.ts, checkLoop).
use shipyard_cp.Base.{
  ℕ, suc, ◌+◌, ◌≤◌, min, ◌≡◌, refl, sym, ap, ◌∙◌, true, List, [], ◌∷◌, String, eq_refl, arith,
  length, keep, All, nat_eqb, string_eqb,
}
use shipyard_cp.DoomLoop.Fingerprints.Window.{entry, check_history, check_window}
use shipyard_cp.DoomLoop.{DoomLoopDetector}
use mathlib.Core.List.{append-nil}
use shipyard_cp.DoomLoop.Fingerprints.Sticky.{Check, run_check}
use shipyard_cp.DoomLoop.Fingerprints.{block, matches, get_fingerprint_occurrence_count, check_loop}
use shipyard_cp.DoomLoop.Fingerprints.Suffix.{EndsIn, weaken, push-EndsIn, matching_count}

pub check_all : DoomLoopDetector → List Check → DoomLoopDetector
check_all d [] = d
check_all d (c ∷ cs) = check_all (run_check d c).0 cs

abbrev pub Same : (fingerprint stage : String) → Check → Type 0
Same f s c = (c.fingerprint ≡ f) × (c.stage ≡ s)

entry-matches : (f s : String) (c : Check) → Same f s c → matches f s (entry c) ≡ true
entry-matches f s c h = rw (h.0, h.1, eq_refl f) (eq_refl s)

check-EndsIn :
    (d : DoomLoopDetector) (f s : String) (k : ℕ) (c : Check)
    → Same f s c
    → EndsIn (matches f s) k d.fingerprint_history
    → EndsIn (matches f s) (min (suc k) d.loop_window_size) (run_check d c).0.fingerprint_history
check-EndsIn d f s k c h r = rw (check_history d c).0 (
    push-EndsIn (matches f s) d.loop_window_size k d.fingerprint_history (entry c)
      (entry-matches f s c h) r)

config_kept :
    (d : DoomLoopDetector) (cs : List Check)
    → (check_all d cs).fingerprint_config ≡ d.fingerprint_config
unfolding check_all
config_kept d [] = refl
config_kept d (c ∷ cs) = config_kept (run_check d c).0 cs ∙ (check_history d c).1

check_all-EndsIn :
    (d : DoomLoopDetector) (f s : String) (w k : ℕ) (cs : List Check)
    → d.loop_window_size ≡ w
    → All (Same f s) cs
    → EndsIn (matches f s) (min k w) d.fingerprint_history
    → EndsIn (matches f s) (min (k + length cs) w) (check_all d cs).fingerprint_history
unfolding check_all
check_all-EndsIn d f s w k [] e h r = weaken _ _ _ _ (omega arith) r
check_all-EndsIn d f s w k (c ∷ cs) e h r =
    weaken _ (min (k + length (c ∷ cs)) w) (min (suc k + length cs) w) _ (omega arith) (
      check_all-EndsIn (run_check d c).0 f s w (suc k) cs
        (ap (λ g. g.loop_window_size) (check_history d c).1 ∙ e) h.1
        (weaken _ (min (suc k) w) (min (suc (min k w)) d.loop_window_size) _ (omega (arith, e))
          (check-EndsIn d f s (min k w) c h.0 r)))

reached_blocks :
    (d : DoomLoopDetector) (c : Check)
    → d.loop_block_threshold ≤ (run_check d c).1.occurrence_count
    → (run_check d c).1.action ≡ block
unfolding check_loop
reached_blocks d c h = ground arith

after_repeats :
    (d : DoomLoopDetector) (f s : String) (cs : List Check)
    → All (Same f s) cs
    → EndsIn (matches f s) (min (length cs) d.loop_window_size) (check_all d cs).fingerprint_history
after_repeats d f s cs hs = weaken _ _ (min (0 + length cs) d.loop_window_size) _ (omega arith) (
    check_all-EndsIn d f s d.loop_window_size 0 cs refl hs (record {
      before = d.fingerprint_history;
      recent = [];
      split = sym (append-nil _);
      enough = omega arith;
      matching = refl;
    }))

counted_recent :
    (d : DoomLoopDetector) (f s : String) (k : ℕ) (c : Check)
    → Same f s c
    → EndsIn (matches f s) k (run_check d c).0.fingerprint_history
    → k ≤ (run_check d c).1.occurrence_count
unfolding get_fingerprint_occurrence_count
counted_recent d f s k c h r =
    let after = (run_check d c).0.fingerprint_history in
    omega (
      arith,
      (check_window d c).1,
      ap (λ g. length (keep (matches g c.stage) after)) h.0,
      ap (λ g. length (keep (matches f g) after)) h.1,
      matching_count (matches f s) k after r,
    )

-- Where the block threshold fits the window, a check that ends at least that many checks in a row
-- (checkLoop) of one fingerprint in one stage answers block, whatever was checked before them.
pub repeats_blocked :
    (d : DoomLoopDetector) (f s : String) (cs : List Check) (c : Check)
    → All (Same f s) cs
    → Same f s c
    → d.loop_block_threshold ≤ d.loop_window_size
    → d.loop_block_threshold ≤ suc (length cs)
    → (run_check (check_all d cs) c).1.action ≡ block
repeats_blocked d f s cs c hs h fits many =
    let e = check_all d cs in
    let k = min (suc (min (length cs) d.loop_window_size)) e.loop_window_size in
    reached_blocks e c (
      omega (
        arith,
        fits,
        many,
        ap (λ g. g.loop_block_threshold) (config_kept d cs),
        ap (λ g. g.loop_window_size) (config_kept d cs),
        counted_recent e f s k c h (
            check-EndsIn e f s (min (length cs) d.loop_window_size) c h
              (after_repeats d f s cs hs)),
      ))
