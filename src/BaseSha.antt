-- ===== src/BaseSha.antt =====
-- src/domain/integration-check/base-sha-validator.ts. The format of a SHA is tested on the codes of
-- the text.
use shipyard_cp.Base.{
  ℕ, Bool, true, false, not, ◌&&◌, ◌||◌, Option, none, some, String, str_eq, leb, if◌then◌else◌,
  value_or, length, all, nat_eqb, string_eqb,
}
use shipyard_cp.Text.{codes}
use shipyard_cp.RepoPolicy.{is_given}

pub record BaseShaCheckInput : Type 0 where
  pub original_base_sha : Option String
  pub current_base_sha : String
  pub integration_head_sha : Option String
  pub is_fast_forward : Option Bool
  pub has_conflicts : Option Bool

pub data BaseShaReason : Type 0 where
  base_sha_changed original_base_sha_missing : BaseShaReason

pub data BaseShaAction : Type 0 where
  proceed rebase resolve_conflicts blocked : BaseShaAction

pub record BaseShaCheckResult : Type 0 where
  pub valid : Bool
  pub can_proceed : Bool
  pub reason : Option BaseShaReason
  pub needs_rebase : Option Bool
  pub can_fast_forward : Option Bool
  pub needs_merge : Option Bool
  pub has_conflicts : Option Bool
  pub action : BaseShaAction

abbrev pub is_unchanged : BaseShaCheckInput → Bool
is_unchanged i = str_eq (value_or i.original_base_sha "") i.current_base_sha

abbrev missing : BaseShaCheckResult
missing = record {
  valid = false;
  can_proceed = false;
  reason = some original_base_sha_missing;
  needs_rebase = none;
  can_fast_forward = none;
  needs_merge = none;
  has_conflicts = none;
  action = blocked;
}

abbrev changed : (conflicts : Bool) → BaseShaCheckResult
changed conflicts = record {
  valid = false;
  can_proceed = false;
  reason = some base_sha_changed;
  needs_rebase = some true;
  can_fast_forward = none;
  needs_merge = none;
  has_conflicts = if conflicts then some true else none;
  action = if conflicts then resolve_conflicts else rebase;
}

abbrev negated : Option Bool → Option Bool
negated none = none
negated (some b) = some (not b)

abbrev unchanged : Option Bool → BaseShaCheckResult
unchanged is_fast_forward = record {
  valid = true;
  can_proceed = true;
  reason = none;
  needs_rebase = some false;
  can_fast_forward = is_fast_forward;
  needs_merge = negated is_fast_forward;
  has_conflicts = none;
  action = proceed;
}

unfoldable pub validate_base_sha : BaseShaCheckInput → BaseShaCheckResult
validate_base_sha i =
    if not (is_given i.original_base_sha)
    then missing
    else if is_unchanged i
    then unchanged i.is_fast_forward
    else changed (value_or i.has_conflicts false)

-- A digit of a base of sixteen.
abbrev is_hex : ℕ → Bool
is_hex c = leb b'a' c && leb c b'f' || leb b'A' c && leb c b'F' || leb b'0' c && leb c b'9'

unfoldable pub is_valid_sha_format : String → Bool
is_valid_sha_format sha =
    all is_hex (codes sha) && leb 7 (length (codes sha)) && leb (length (codes sha)) 40

pub data RebaseAction : Type 0 where
  no_rebase rebase resolve_conflicts : RebaseAction

unfoldable pub get_rebase_action : BaseShaCheckInput → RebaseAction
get_rebase_action i =
    if not (is_given i.original_base_sha) || not (is_unchanged i)
    then (if value_or i.has_conflicts false
        then RebaseAction.resolve_conflicts
        else RebaseAction.rebase)
    else no_rebase
