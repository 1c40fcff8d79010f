-- ===== src/RepoPolicy.antt =====
-- src/domain/repo-policy/repo-policy-service.ts and RepoPolicy of src/types/task.ts. A pattern of a
-- branch with stars is the expression that the code makes of it, in which a dot too stands for any
-- character; patterns with other special characters are not modelled.
use shipyard_cp.Base.{
  ℕ, ◌≡◌, refl, Bool, true, false, not, ◌&&◌, ◌||◌, Option, none, some, List, [], ◌∷◌, String,
  str_eq, arith, ◌==◌, if◌then◌else◌, value_or, any, Eqb, eqb, Eqb_of_code, nat_eqb, string_eqb,
}
use Prim.Native.String.{◌++◌ as append}
use shipyard_cp.Text.{codes}

pub data UpdateStrategy : Type 0 where
  direct_push pull_request fast_forward_only : UpdateStrategy

pub data PushActor : Type 0 where
  bot human any_actor : PushActor

pub data MergeMethod : Type 0 where
  merge squash rebase : MergeMethod

abbrev strategy_code : UpdateStrategy → ℕ
strategy_code direct_push = 0
strategy_code pull_request = 1
strategy_code fast_forward_only = 2

abbrev strategy_inj : (a b : UpdateStrategy) → strategy_code a ≡ strategy_code b → a ≡ b
strategy_inj direct_push direct_push h = refl
strategy_inj pull_request pull_request h = refl
strategy_inj fast_forward_only fast_forward_only h = refl
strategy_inj direct_push pull_request h = absurd (omega arith)
strategy_inj direct_push fast_forward_only h = absurd (omega arith)
strategy_inj pull_request direct_push h = absurd (omega arith)
strategy_inj pull_request fast_forward_only h = absurd (omega arith)
strategy_inj fast_forward_only direct_push h = absurd (omega arith)
strategy_inj fast_forward_only pull_request h = absurd (omega arith)

instance abbrev pub strategy_eqb : Eqb UpdateStrategy
strategy_eqb = Eqb_of_code strategy_code strategy_inj

pub record RepoPolicy : Type 0 where
  pub update_strategy : UpdateStrategy
  pub main_push_actor : PushActor
  pub require_ci_pass : Bool
  pub integration_branch_prefix : Option String
  pub protected_branches : Option (List String)
  pub allowed_merge_methods : Option (List MergeMethod)

-- DEFAULT_REPO_POLICY
abbrev pub default_repo_policy : RepoPolicy
default_repo_policy = record {
  update_strategy = fast_forward_only;
  main_push_actor = bot;
  require_ci_pass = true;
  integration_branch_prefix = none;
  protected_branches = none;
  allowed_merge_methods = none;
}

-- main_push_actor !== 'any' && actor !== main_push_actor, for an actor that is bot or human
abbrev pub is_denied : PushActor → (actor : PushActor) → Bool
is_denied any_actor actor = false
is_denied bot bot = false
is_denied human human = false
is_denied _ _ = true

abbrev pub actor_name : PushActor → String
actor_name bot = "bot"
actor_name human = "human"
actor_name any_actor = "any"

-- The texts that are left after a prefix without the end of a line.
abbrev tails : List ℕ → List (List ℕ)
tails [] = [] ∷ []
tails (c ∷ s) = (c ∷ s) ∷ (if c == 10 then [] else tails s)

abbrev is_nil : List ℕ → Bool
is_nil [] = true
is_nil (c ∷ s) = false

-- '^' + pattern.replace(/\*/g, '.*') + '$', tested on a branch
unfoldable pub glob_test : List ℕ → List ℕ → Bool
glob_test [] s = is_nil s
glob_test (p ∷ ps) s =
    if p == b'*'
    then any (λ t. glob_test ps t) (tails s)
    else elim s [ [] ↦ false | c ∷ cs ↦ (c == p || p == b'.' && not (c == 10)) && glob_test ps cs ]

abbrev matches_pattern : String → String → Bool
matches_pattern branch pattern =
    if any (λ c. c == b'*') (codes pattern)
    then glob_test (codes pattern) (codes branch)
    else str_eq branch pattern

unfoldable pub is_protected_branch : String → List String → Bool
unfolding glob_test
is_protected_branch branch patterns = any (matches_pattern branch) patterns

-- policy.protected_branches ?? ['main']
abbrev pub protected_of : RepoPolicy → List String
protected_of policy = value_or policy.protected_branches ("main" ∷ [])

pub record RepoPolicyCheckInput : Type 0 where
  pub policy : RepoPolicy
  pub actor : PushActor
  pub target_branch : String
  pub is_fast_forward : Bool
  pub ci_passed : Bool

pub data PushDenial : Type 0 where
  human_push_not_allowed ci_not_passed not_fast_forward pr_required : PushDenial
  protected_branch : PushDenial

abbrev has_some : Option (List String) → Bool
has_some none = false
has_some (some []) = false
has_some (some (x ∷ xs)) = true

-- The reason of a push that is not allowed.
unfoldable pub validate_push : RepoPolicyCheckInput → Option PushDenial
unfolding is_protected_branch
validate_push i =
    let is_protected = is_protected_branch i.target_branch (protected_of i.policy) in
    if is_denied i.policy.main_push_actor i.actor
    then some human_push_not_allowed
    else if i.policy.require_ci_pass && not i.ci_passed
    then some ci_not_passed
    else if eqb i.policy.update_strategy pull_request && is_protected
    then some pr_required
    else if is_protected
    then (if eqb i.policy.update_strategy fast_forward_only && not i.is_fast_forward
        then some not_fast_forward
        else if has_some i.policy.protected_branches
        then some protected_branch
        else none)
    else none

abbrev pub get_default_integration_branch : RepoPolicy → (task_id : String) → String
get_default_integration_branch policy task_id =
    append (value_or policy.integration_branch_prefix "cp/integrate/") task_id

abbrev method_eqb : MergeMethod → MergeMethod → Bool
method_eqb merge merge = true
method_eqb squash squash = true
method_eqb rebase rebase = true
method_eqb _ _ = false

abbrev pub can_merge_method : RepoPolicy → MergeMethod → Bool
can_merge_method policy method = elim policy.allowed_merge_methods [
  | none ↦ true
  | some methods ↦ any (method_eqb method) methods
]

pub record MergeAllowed : Type 0 where
  pub allowed : Bool
  pub method : Option MergeMethod

abbrev first_method : List MergeMethod → MergeAllowed
first_method [] = record { allowed = false; method = none }
first_method (m ∷ ms) = record { allowed = true; method = some m }

unfoldable pub is_merge_allowed : RepoPolicy → (target_branch : String) → MergeAllowed
unfolding is_protected_branch
is_merge_allowed policy target_branch =
    if is_protected_branch target_branch (protected_of policy)
    then first_method (value_or policy.allowed_merge_methods (merge ∷ []))
    else record { allowed = true; method = some merge }

-- An optional text, of which an empty one counts as missing.
abbrev pub is_given : Option String → Bool
is_given none = false
is_given (some s) = not (str_eq s "")

abbrev pub can_fast_forward : String → Option String → Option String → Bool
can_fast_forward base_sha integration_head_sha main_sha =
    is_given integration_head_sha && is_given main_sha && str_eq (value_or main_sha "") base_sha

pub record IntegrationPolicyInput : Type 0 where
  pub policy : RepoPolicy
  pub task_id : String
  pub base_sha : String
  pub integration_head_sha : Option String
  pub main_sha : Option String
  pub checks_passed : Bool

pub record IntegrationPolicyResult : Type 0 where
  pub allowed : Bool
  pub integration_branch : String
  pub can_ff : Bool
  pub requires_pr : Bool
  pub reason : Option String

unfoldable pub validate_integration_policy : IntegrationPolicyInput → IntegrationPolicyResult
validate_integration_policy i =
    let branch = get_default_integration_branch i.policy i.task_id in
    if i.policy.require_ci_pass && not i.checks_passed
    then record {
      allowed = false;
      integration_branch = branch;
      can_ff = false;
      requires_pr = false;
      reason = some "CI checks must pass before integration";
    }
    else record {
      allowed = true;
      integration_branch = branch;
      can_ff = can_fast_forward i.base_sha i.integration_head_sha i.main_sha;
      requires_pr = eqb i.policy.update_strategy pull_request;
      reason = none;
    }

pub record PublishPolicyInput : Type 0 where
  pub policy : RepoPolicy
  pub actor : PushActor
  pub target_branch : String
  pub checks_passed : Bool
  pub is_fast_forward : Bool

pub record PublishPolicyResult : Type 0 where
  pub allowed : Bool
  pub strategy : UpdateStrategy
  pub reason : Option String
  pub warnings : List String

abbrev denied : UpdateStrategy → String → PublishPolicyResult
denied strategy reason = record {
  allowed = false;
  strategy = strategy;
  reason = some reason;
  warnings = [];
}

-- No warnings are an empty list.
unfoldable pub validate_publish_policy : PublishPolicyInput → PublishPolicyResult
unfolding is_protected_branch
validate_publish_policy i =
    let strategy = i.policy.update_strategy in
    let is_protected = is_protected_branch i.target_branch (protected_of i.policy) in
    if is_denied i.policy.main_push_actor i.actor
    then denied strategy (
        append "Only "
          (append (actor_name i.policy.main_push_actor) (append " can push to " i.target_branch)))
    else if i.policy.require_ci_pass && not i.checks_passed
    then denied strategy "CI checks must pass before publish"
    else if is_protected
    then (if eqb strategy pull_request
        then record (denied pull_request "PR required for protected branches") {
          warnings = "Create a PR instead of direct publish" ∷ [];
        }
        else if eqb strategy fast_forward_only && not i.is_fast_forward
        then denied fast_forward_only "Only fast-forward pushes allowed to protected branches"
        else record {
          allowed = true;
          strategy = strategy;
          reason = none;
          warnings = append "Publishing to protected branch: " i.target_branch ∷ [];
        })
    else record { allowed = true; strategy = strategy; reason = none; warnings = [] }
