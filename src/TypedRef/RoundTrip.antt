-- ===== src/TypedRef/RoundTrip.antt =====
-- Parsing after printing and printing after parsing (typed-ref-utils.ts).
use shipyard_cp.Base.{
  ℕ, ◌≡◌, refl, sym, ◌↔◌, inl, inr, Bool, true, false, not, ◌&&◌, Option, none, some, List, [], ◌∷◌,
  ◌++◌, arith, ◌==◌, ==_iff, if◌then◌else◌, Bool-cases, Option-cases, all, nat_eqb, string_eqb,
}
use mathlib.Core.Path.{subst}
use shipyard_cp.Text.{lower, lower_code, lower_code_idem}
use shipyard_cp.TypedRef.{
  TypedRefComponents, segment, put, given, is_nil, is_word, is_entity_id, with_provider, with_type,
  with_domain, match_pattern, parse_typed_ref, build_typed_ref, lowered, normal,
  normalize_typed_ref, is_valid_domain,
}

-- Components that a reference is made of.
pub record IsRef (c : TypedRefComponents) : Type 0 where
  pub domain_word : not (is_nil c.domain) && all is_word c.domain ≡ true
  pub type_word : not (is_nil c.entity_type) && all is_word c.entity_type ≡ true
  pub provider_word : not (is_nil c.provider) && all is_word c.provider ≡ true
  pub id_line : is_entity_id c.entity_id ≡ true

word_not_colon : (c : ℕ) → is_word c ≡ true → (c == b':') ≡ false
word_not_colon c h = ground arith

and_left : (a b : Bool) → a && b ≡ true → a ≡ true
and_left a b h = ground arith

and_right : (a b : Bool) → a && b ≡ true → b ≡ true
and_right a b h = ground arith

segment-word : (w s : List ℕ) → all is_word w ≡ true → segment is_word (w ++ b':' ∷ s) ≡ some (w, s)
unfolding segment
segment-word [] s h = refl
segment-word (c ∷ w) s h =
    let hc = and_left (is_word c) (all is_word w) h in
    rw (word_not_colon c hc, hc, segment-word w s (and_right (is_word c) (all is_word w) h)) refl

given-word :
    (w s : List ℕ)
    → not (is_nil w) && all is_word w ≡ true
    → given (segment is_word (w ++ b':' ∷ s)) ≡ some (w, s)
given-word w s h =
    let n = and_left (not (is_nil w)) (all is_word w) h in
    let a = and_right (not (is_nil w)) (all is_word w) h in
    rw (segment-word w s a) (ground (arith, n))

-- What is read of a text: a word with its colon, and the rest.
abbrev IsRead : List ℕ → Option (List ℕ × List ℕ) → Type 0
IsRead t none = Unit
IsRead t (some (w, s)) = (t ≡ w ++ b':' ∷ s) × (all is_word w ≡ true)

abbrev IsGiven : List ℕ → Option (List ℕ × List ℕ) → Type 0
IsGiven t none = Unit
IsGiven t (some (w, s)) = (t ≡ w ++ b':' ∷ s) × (not (is_nil w) && all is_word w ≡ true)

put-IsRead :
    (c : ℕ) (t : List ℕ) (o : Option (List ℕ × List ℕ))
    → is_word c ≡ true
    → IsRead t o
    → IsRead (c ∷ t) (put c o)
put-IsRead c t none h r = tt
put-IsRead c t (some (w, s)) h r = (rw (r.0) refl, rw (h, r.1) refl)

segment-IsRead : (t : List ℕ) → IsRead t (segment is_word t)
unfolding segment
segment-IsRead [] = tt
segment-IsRead (c ∷ t) = elim (Bool-cases (c == b':')) [
  | inl e ↦ rw (e, segment) (rw ((==_iff c b':').0 e) refl, refl)
  | inr e ↦ elim (Bool-cases (is_word c)) [
    | inl h ↦ rw (e, h, segment) (put-IsRead c t (segment is_word t) h (segment-IsRead t))
    | inr h ↦ rw (e, h, segment) tt
  ]
]

given-IsGiven : (t : List ℕ) (o : Option (List ℕ × List ℕ)) → IsRead t o → IsGiven t (given o)
given-IsGiven t none r = tt
given-IsGiven t (some ([], s)) r = tt
given-IsGiven t (some (c ∷ w, s)) r = r

segment-IsGiven : (t : List ℕ) → IsGiven t (given (segment is_word t))
segment-IsGiven t = given-IsGiven t (segment is_word t) (segment-IsRead t)

-- Components that are parsed are those of a reference, which is built from them.
abbrev IsParsed : List ℕ → Option TypedRefComponents → Type 0
IsParsed s none = Unit
IsParsed s (some c) = IsRef c × (build_typed_ref c ≡ s)

abbrev Word : List ℕ → Type 0
Word w = not (is_nil w) && all is_word w ≡ true

with_id-IsParsed :
    (d e p i : List ℕ) (b : Bool)
    → Word d
    → Word e
    → Word p
    → is_entity_id i ≡ b
    → IsParsed (d ++ b':' ∷ (e ++ b':' ∷ (p ++ b':' ∷ i))) (
        if b
        then some (record { domain = d; entity_type = e; provider = p; entity_id = i })
        else none)
unfolding build_typed_ref
with_id-IsParsed d e p i true hd he hp hi =
    (record { domain_word = hd; type_word = he; provider_word = hp; id_line = hi }, refl)
with_id-IsParsed d e p i false hd he hp hi = tt

with_provider-IsParsed :
    (d e t : List ℕ) (o : Option (List ℕ × List ℕ))
    → Word d
    → Word e
    → IsGiven t o
    → IsParsed (d ++ b':' ∷ (e ++ b':' ∷ t)) (with_provider d e o)
with_provider-IsParsed d e t none hd he g = tt
with_provider-IsParsed d e t (some (p, i)) hd he g =
    rw (g.0) (with_id-IsParsed d e p i (is_entity_id i) hd he g.1 refl)

with_type-IsParsed :
    (d t : List ℕ) (o : Option (List ℕ × List ℕ))
    → Word d
    → IsGiven t o
    → IsParsed (d ++ b':' ∷ t) (with_type is_word d o)
with_type-IsParsed d t none hd g = tt
with_type-IsParsed d t (some (e, s)) hd g =
    rw (g.0) (with_provider-IsParsed d e s (given (segment is_word s)) hd g.1 (segment-IsGiven s))

with_domain-IsParsed :
    (t : List ℕ) (o : Option (List ℕ × List ℕ)) → IsGiven t o → IsParsed t (with_domain is_word o)
with_domain-IsParsed t none g = tt
with_domain-IsParsed t (some (d, s)) g =
    rw (g.0) (with_type-IsParsed d s (given (segment is_word s)) g.1 (segment-IsGiven s))

parse-IsParsed : (s : List ℕ) → IsParsed s (parse_typed_ref s)
unfolding parse_typed_ref match_pattern
parse-IsParsed s = with_domain-IsParsed s (given (segment is_word s)) (segment-IsGiven s)

-- Parsing what is built from components gives them back.
pub parse-build : (c : TypedRefComponents) → IsRef c → parse_typed_ref (build_typed_ref c) ≡ some c
unfolding parse_typed_ref match_pattern build_typed_ref
parse-build c h =
    rw
      (
        given-word c.domain (c.entity_type ++ b':' ∷ (c.provider ++ b':' ∷ c.entity_id))
            h.domain_word,
        given-word c.entity_type (c.provider ++ b':' ∷ c.entity_id) h.type_word,
        given-word c.provider c.entity_id h.provider_word,
        h.id_line,
      )
      refl

-- A text parses to components exactly if they make up a reference and the text is the one that is
-- built from them.
pub parse-build_iff :
    (s : List ℕ) (c : TypedRefComponents)
    → (parse_typed_ref s ≡ some c) ↔ (IsRef c × (build_typed_ref c ≡ s))
parse-build_iff s c =
    (λ e. subst (λ o. IsParsed s o) e (parse-IsParsed s), λ p. rw (sym p.1) (parse-build c p.0))

lower_code_word : (c : ℕ) → is_word c ≡ true → is_word (lower_code c) ≡ true
unfolding lower_code
lower_code_word c h = ground arith

lower-all : (w : List ℕ) → all is_word w ≡ true → all is_word (lower w) ≡ true
unfolding lower
lower-all [] h = refl
lower-all (c ∷ w) h =
    rw
      (
        lower_code_word c (and_left (is_word c) (all is_word w) h),
        lower-all w (and_right (is_word c) (all is_word w) h),
      )
      refl

lower_idem : (w : List ℕ) → lower (lower w) ≡ lower w
unfolding lower
lower_idem [] = refl
lower_idem (c ∷ w) = rw (lower_code_idem c, lower_idem w) refl

lower-Word : (w : List ℕ) → Word w → Word (lower w)
unfolding lower
lower-Word [] h = h
lower-Word (c ∷ w) h = lower-all (c ∷ w) h

lowered-IsRef : (c : TypedRefComponents) → IsRef c → IsRef (lowered c)
lowered-IsRef c h = record {
  domain_word = lower-Word c.domain h.domain_word;
  type_word = lower-Word c.entity_type h.type_word;
  provider_word = lower-Word c.provider h.provider_word;
  id_line = h.id_line;
}

normalize-lowered :
    (c : TypedRefComponents)
    → IsRef c
    → is_valid_domain (lower c.domain) ≡ true
    → normalize_typed_ref (build_typed_ref (lowered c)) ≡ some (build_typed_ref (lowered c))
unfolding normalize_typed_ref
normalize-lowered c h v =
    rw
      (
        parse-build (lowered c) (lowered-IsRef c h),
        lower_idem c.domain,
        v,
        lower_idem c.entity_type,
        lower_idem c.provider,
      )
      refl

normal-again :
    (c : TypedRefComponents) (n : List ℕ)
    → IsRef c
    → normal (some c) ≡ some n
    → normalize_typed_ref n ≡ some n
unfolding normalize_typed_ref
normal-again c n h e = elim (Bool-cases (is_valid_domain (lower c.domain))) [
  | inl v ↦
      let q : build_typed_ref (lowered c) ≡ n = ground (arith, e, v) in
      rw (sym q) (normalize-lowered c h v)
  | inr v ↦ absurd (ground (arith, e, v))
]

-- Normalizing a normal form changes nothing.
pub normalize_idempotent :
    (s n : List ℕ) → normalize_typed_ref s ≡ some n → normalize_typed_ref n ≡ some n
unfolding normalize_typed_ref
normalize_idempotent s n e = elim (Option-cases (parse_typed_ref s)) [
  | inl p ↦ absurd (ground (arith, e, p))
  | inr (c, p) ↦ normal-again c n ((parse-build_iff s c).0 p).0 (ground (arith, e, p))
]
