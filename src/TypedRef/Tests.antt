-- ===== src/TypedRef/Tests.antt =====
-- References in mixed and in lower case (typed-ref-utils.ts).
use shipyard_cp.Base.{ℕ, ◌≡◌, refl, ◌↔◌, true, false, none, some, List, nat_eqb, string_eqb}
use shipyard_cp.Text.{codes, lower, lower_code}
use shipyard_cp.TypedRef.{
  TypedRefComponents, segment, match_pattern, parse_typed_ref, build_typed_ref, normalize_typed_ref,
  are_typed_refs_equal, is_valid_typed_ref, validate_task_ref, validate_typed_ref, no_match,
  create_task_typed_ref, invalid_entity_type,
}
use shipyard_cp.TypedRef.RoundTrip.{IsRef, parse-build_iff, normalize_idempotent}

abbrev text : List ℕ
text = codes "Memx:doc:Local:x:Y"

abbrev parts : TypedRefComponents
parts = record {
  domain = codes "Memx";
  entity_type = codes "doc";
  provider = codes "Local";
  entity_id = codes "x:Y";
}

parse-build_iff_example :
    (parse_typed_ref text ≡ some parts) ↔ (IsRef parts × (build_typed_ref parts ≡ text))
parse-build_iff_example = parse-build_iff text parts

normalize_idempotent_example :
    normalize_typed_ref (codes "memx:doc:local:x:Y") ≡ some (codes "memx:doc:local:x:Y")
unfolding normalize_typed_ref lower lower_code parse_typed_ref match_pattern segment build_typed_ref
normalize_idempotent_example = normalize_idempotent text (codes "memx:doc:local:x:Y") refl

-- The reference of a task need not be one that the utilities accept, nor the other way round.
patterns_differ :
    (is_valid_typed_ref text ≡ true)
    × (validate_task_ref (some text) ≡ some no_match)
    × (validate_task_ref (some (codes "a:b:c:d")) ≡ none)
    × (is_valid_typed_ref (codes "a:b:c:d") ≡ false)
unfolding is_valid_typed_ref validate_task_ref lower lower_code parse_typed_ref match_pattern
    segment
patterns_differ = (refl, refl, refl, refl)

types_by_domain :
    (validate_typed_ref (codes "memx:task:p:1")
      ≡ some (invalid_entity_type (codes "memx") (codes "task")))
    × (validate_typed_ref (create_task_typed_ref (codes "p") (codes "1")) ≡ none)
    × (are_typed_refs_equal text (codes "memx:DOC:local:x:Y") ≡ true)
unfolding validate_typed_ref create_task_typed_ref are_typed_refs_equal normalize_typed_ref
    build_typed_ref lower lower_code parse_typed_ref match_pattern segment
types_by_domain = (refl, refl, refl)
