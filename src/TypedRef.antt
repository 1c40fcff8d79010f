-- ===== src/TypedRef.antt =====
-- src/domain/typed-ref/typed-ref-utils.ts and the pattern of src/domain/task/task-validator.ts. A
-- reference is the list of its codes. Words are ASCII by the pattern, so lower case is ASCII's.
pub mod RoundTrip
mod Tests
use shipyard_cp.Base.{
  ℕ, Bool, true, false, not, ◌&&◌, ◌||◌, Option, none, some, List, [], ◌∷◌, ◌++◌, map, leb, ◌==◌,
  if◌then◌else◌, any, all, nat_eqb, string_eqb,
}
use shipyard_cp.Text.{codes, lower, lower_code}

abbrev pub is_lower_word : ℕ → Bool
is_lower_word c = leb b'a' c && leb c b'z' || leb b'0' c && leb c b'9' || c == b'_' || c == b'-'

abbrev pub is_word : ℕ → Bool
is_word c = leb b'A' c && leb c b'Z' || is_lower_word c

-- A character that the dot of a pattern does not match.
abbrev pub is_line_end : ℕ → Bool
is_line_end c = c == 10 || c == 13 || c == 0x2028 || c == 0x2029

pub record TypedRefComponents : Type 0 where
  pub domain : List ℕ
  pub entity_type : List ℕ
  pub provider : List ℕ
  pub entity_id : List ℕ

abbrev pub put : ℕ → Option (List ℕ × List ℕ) → Option (List ℕ × List ℕ)
put c none = none
put c (some (w, s)) = some (c ∷ w, s)

-- A run of characters of the class, up to a colon, and what follows that.
unfoldable pub segment : (ℕ → Bool) → List ℕ → Option (List ℕ × List ℕ)
segment p [] = none
segment p (c ∷ s) =
    let rest = segment p s in if c == b':' then some ([], s) else if p c then put c rest else none

abbrev pub is_nil : List ℕ → Bool
is_nil [] = true
is_nil (c ∷ s) = false

-- The same for a run that is not empty.
abbrev pub given : Option (List ℕ × List ℕ) → Option (List ℕ × List ℕ)
given none = none
given (some (w, s)) = if is_nil w then none else some (w, s)

abbrev pub is_entity_id : List ℕ → Bool
is_entity_id s = not (is_nil s) && all (λ c. not (is_line_end c)) s

abbrev pub with_id : (domain entity_type provider entity_id : List ℕ) → Option TypedRefComponents
with_id d e p i =
    if is_entity_id i
    then some (record { domain = d; entity_type = e; provider = p; entity_id = i })
    else none

abbrev pub with_provider :
    (domain entity_type : List ℕ) → Option (List ℕ × List ℕ) → Option TypedRefComponents
with_provider d e none = none
with_provider d e (some (p, i)) = with_id d e p i

abbrev pub with_type :
    (ℕ → Bool) → (domain : List ℕ) → Option (List ℕ × List ℕ) → Option TypedRefComponents
with_type w d none = none
with_type w d (some (e, s)) = with_provider d e (given (segment w s))

abbrev pub with_domain : (ℕ → Bool) → Option (List ℕ × List ℕ) → Option TypedRefComponents
with_domain w none = none
with_domain w (some (d, s)) = with_type w d (given (segment w s))

-- A match of the pattern whose words are of the class.
unfoldable pub match_pattern : (ℕ → Bool) → List ℕ → Option TypedRefComponents
unfolding segment
match_pattern w s = with_domain w (given (segment w s))

unfoldable pub parse_typed_ref : List ℕ → Option TypedRefComponents
unfolding match_pattern
parse_typed_ref s = match_pattern is_word s

unfoldable pub build_typed_ref : TypedRefComponents → List ℕ
build_typed_ref c = c.domain ++ b':' ∷ (c.entity_type ++ b':' ∷ (c.provider ++ b':' ∷ c.entity_id))

abbrev pub same : List ℕ → List ℕ → Bool
same [] [] = true
same (c ∷ s) (d ∷ t) = c == d && same s t
same _ _ = false

abbrev valid_domains : List (List ℕ)
valid_domains = map codes ("agent-taskstate" ∷ "memx" ∷ "tracker" ∷ "shipyard" ∷ [])

-- ENTITY_TYPES_BY_DOMAIN
abbrev entity_types_by_domain : List (List ℕ × List (List ℕ))
entity_types_by_domain =
    (codes "agent-taskstate", map codes ("task" ∷ "decision" ∷ "question" ∷ []))
    ∷ (codes "memx", map codes ("evidence" ∷ "doc" ∷ "chunk" ∷ "contract" ∷ []))
    ∷ (codes "tracker", map codes ("issue" ∷ "pr" ∷ "project_item" ∷ "comment" ∷ []))
    ∷ (codes "shipyard", map codes ("task" ∷ "job" ∷ "workspace" ∷ "artifact" ∷ []))
    ∷ []

abbrev pub is_valid_domain : List ℕ → Bool
is_valid_domain d = any (same d) valid_domains

abbrev types_of : List ℕ → List (List ℕ × List (List ℕ)) → Option (List (List ℕ))
types_of d [] = none
types_of d ((k, types) ∷ table) = if same d k then some types else types_of d table

abbrev is_valid_type : List ℕ → Option (List (List ℕ)) → Bool
is_valid_type e none = true
is_valid_type e (some types) = any (same e) types

unfoldable pub is_valid_typed_ref : List ℕ → Bool
unfolding lower parse_typed_ref
is_valid_typed_ref s = elim (parse_typed_ref s) [
  | none ↦ false
  | some c ↦ is_valid_domain (lower c.domain)
]

pub data TypedRefError : Type 0 where
  ref_required no_match : TypedRefError
  invalid_domain : List ℕ → TypedRefError
  invalid_entity_type : (domain entity_type : List ℕ) → TypedRefError
  no_provider no_entity_id : TypedRefError

-- The errors of the two last checks cannot occur after a match.
unfoldable pub validate_typed_ref : List ℕ → Option TypedRefError
unfolding lower parse_typed_ref
validate_typed_ref s = if is_nil s then some ref_required else elim (parse_typed_ref s) [
  | none ↦ some no_match
  | some c ↦
      if not (is_valid_domain (lower c.domain))
      then some (invalid_domain (lower c.domain))
      else if not
          (is_valid_type (lower c.entity_type) (types_of (lower c.domain) entity_types_by_domain))
      then some (invalid_entity_type (lower c.domain) (lower c.entity_type))
      else if is_nil c.provider
      then some no_provider
      else if is_nil c.entity_id
      then some no_entity_id
      else none
]

abbrev pub lowered : TypedRefComponents → TypedRefComponents
lowered c = record {
  domain = lower c.domain;
  entity_type = lower c.entity_type;
  provider = lower c.provider;
  entity_id = c.entity_id;
}

abbrev pub normal : Option TypedRefComponents → Option (List ℕ)
normal none = none
normal (some c) =
    if is_valid_domain (lower c.domain) then some (build_typed_ref (lowered c)) else none

unfoldable pub normalize_typed_ref : List ℕ → Option (List ℕ)
unfolding lower parse_typed_ref build_typed_ref
normalize_typed_ref s = normal (parse_typed_ref s)

abbrev same_normal : Option (List ℕ) → Option (List ℕ) → Bool
same_normal (some a) (some b) = same a b
same_normal _ _ = false

unfoldable pub are_typed_refs_equal : List ℕ → List ℕ → Bool
unfolding normalize_typed_ref
are_typed_refs_equal a b = same_normal (normalize_typed_ref a) (normalize_typed_ref b)

abbrev pub get_entity_id : List ℕ → Option (List ℕ)
get_entity_id s = elim (parse_typed_ref s) [ none ↦ none | some c ↦ some c.entity_id ]

abbrev pub get_domain : List ℕ → Option (List ℕ)
get_domain s = elim (parse_typed_ref s) [ none ↦ none | some c ↦ some c.domain ]

unfoldable pub create_task_typed_ref : (provider task_id : List ℕ) → List ℕ
unfolding build_typed_ref
create_task_typed_ref provider task_id = build_typed_ref (record {
  domain = codes "agent-taskstate";
  entity_type = codes "task";
  provider = provider;
  entity_id = task_id;
})

unfoldable pub create_issue_typed_ref : (provider issue_id : List ℕ) → List ℕ
unfolding build_typed_ref
create_issue_typed_ref provider issue_id = build_typed_ref (record {
  domain = codes "tracker";
  entity_type = codes "issue";
  provider = provider;
  entity_id = issue_id;
})

-- validateTypedRef of the task validator: only lower case.
unfoldable pub validate_task_ref : Option (List ℕ) → Option TypedRefError
unfolding match_pattern
validate_task_ref none = some ref_required
validate_task_ref (some s) =
    if is_nil s
    then some ref_required
    else elim (match_pattern is_lower_word s) [ none ↦ some no_match | some c ↦ none ]
