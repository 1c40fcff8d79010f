-- ===== src/JsMap.antt =====
-- The language's `Map` and `Set` with string keys, as an association list and a list in the
-- order of insertion: a write to a key that is there keeps its place.
use shipyard_cp.Base.{
  ℕ, suc, ◌≤◌, ◌≡◌, refl, ap, ◌≢◌, inl, inr, Bool, true, false, not, ◌&&◌, ◌||◌, Option, none, some,
  List, [], ◌∷◌, ◌++◌, String, str_eq, eq_iff, eq_refl, arith, if◌then◌else◌, Bool-cases, is_some,
  length, length-append, keep, includes, nat_eqb, string_eqb,
}

abbrev pub JsMap {ℓ} : Type ℓ → Type ℓ
JsMap V = List (String × V)

module _ {ℓ} {V : Type ℓ} where
  -- m.get(k)
  unfoldable pub get : JsMap V → String → Option V
  get [] k = none
  get ((j, v) ∷ m) k = if str_eq j k then some v else get m k

  -- m.has(k)
  abbrev pub has : JsMap V → String → Bool
  has m k = is_some (get m k)

  -- m.set(k, v)
  unfoldable pub set : JsMap V → String → V → JsMap V
  set [] k v = (k, v) ∷ []
  set ((j, w) ∷ m) k v = if str_eq j k then (j, v) ∷ m else (j, w) ∷ set m k v

  -- m.delete(k)
  unfoldable pub delete : JsMap V → String → JsMap V
  delete [] k = []
  delete ((j, v) ∷ m) k = let rest = delete m k in if str_eq j k then rest else (j, v) ∷ rest

  -- m.size
  abbrev pub size : JsMap V → ℕ
  size m = length m

  -- m.values()
  abbrev pub values : JsMap V → List V
  values [] = []
  values ((k, v) ∷ m) = v ∷ values m

  -- A loop over the entries that deletes those which fail `p`.
  unfoldable pub keep_values : (V → Bool) → JsMap V → JsMap V
  keep_values p [] = []
  keep_values p ((k, v) ∷ m) = let rest = keep_values p m in if p v then (k, v) ∷ rest else rest

  -- A loop over the values that writes to the object under each key.
  unfoldable pub map_values : (V → V) → JsMap V → JsMap V
  map_values f [] = []
  map_values f ((k, v) ∷ m) = (k, f v) ∷ map_values f m

  pub get-set :
      (m : JsMap V) (k j : String) (v : V)
      → get (set m k v) j ≡ (if str_eq k j then some v else get m j)
  unfolding get set
  get-set [] k j v = refl
  get-set ((i, w) ∷ m) k j v = ground (arith, eq_iff k j, eq_iff i k, eq_iff i j, get-set m k j v)

  pub get-set_self : (m : JsMap V) (k : String) (v : V) → get (set m k v) k ≡ some v
  get-set_self m k v = rw (get-set m k k v, eq_refl k)

  pub get-set_ne : (m : JsMap V) (k j : String) (v : V) → j ≢ k → get (set m k v) j ≡ get m j
  get-set_ne m k j v ne = ground (arith, get-set m k j v, eq_iff k j)

  pub get-delete :
      (m : JsMap V) (k j : String) → get (delete m k) j ≡ (if str_eq k j then none else get m j)
  unfolding get delete
  get-delete [] k j = ground arith
  get-delete ((i, w) ∷ m) k j = ground (arith, eq_iff k j, eq_iff i k, eq_iff i j, get-delete m k j)

  pub get-map_values :
      (f : V → V) (m : JsMap V) (j : String)
      → get (map_values f m) j ≡ (elim (get m j) [ none ↦ none | some v ↦ some (f v) ])
  unfolding get map_values
  get-map_values f [] j = refl
  get-map_values f ((i, w) ∷ m) j = ground (arith, get-map_values f m j)

  pub size-set :
      (m : JsMap V) (k : String) (v : V)
      → size (set m k v) ≡ (if has m k then size m else suc (size m))
  unfolding get set
  size-set [] k v = refl
  size-set ((i, w) ∷ m) k v = ground (arith, size-set m k v)

  pub size-delete-le : (m : JsMap V) (k : String) → size (delete m k) ≤ size m
  unfolding delete
  size-delete-le [] k = omega arith
  size-delete-le ((i, w) ∷ m) k = ground (arith, size-delete-le m k)

  -- No key stands twice.
  abbrev pub UniqueKeys : JsMap V → Type 0
  UniqueKeys [] = Unit
  UniqueKeys ((k, v) ∷ m) = (has m k ≡ false) × UniqueKeys m

  has-set-false :
      (m : JsMap V) (k i : String) (v : V)
      → str_eq i k ≡ false
      → has m i ≡ false
      → has (set m k v) i ≡ false
  has-set-false m k i v ne h = ground (arith, get-set m k i v, eq_iff i k, eq_iff k i)

  pub set-UniqueKeys : (m : JsMap V) (k : String) (v : V) → UniqueKeys m → UniqueKeys (set m k v)
  unfolding get set
  set-UniqueKeys [] k v u = (refl, tt)
  set-UniqueKeys ((i, w) ∷ m) k v u = elim (Bool-cases (str_eq i k)) [
    | inl e ↦ ground (arith, u)
    | inr e ↦ ground (arith, has-set-false m k i v e u.0, set-UniqueKeys m k v u.1)
  ]

  has-delete-false : (m : JsMap V) (k i : String) → has m i ≡ false → has (delete m k) i ≡ false
  has-delete-false m k i h = ground (arith, get-delete m k i)

  pub delete-UniqueKeys : (m : JsMap V) (k : String) → UniqueKeys m → UniqueKeys (delete m k)
  unfolding delete
  delete-UniqueKeys [] k u = tt
  delete-UniqueKeys ((i, w) ∷ m) k u =
      ground (arith, has-delete-false m k i u.0, delete-UniqueKeys m k u.1)

  has-keep_values-false :
      (p : V → Bool) (m : JsMap V) (i : String) → has m i ≡ false → has (keep_values p m) i ≡ false
  unfolding get keep_values
  has-keep_values-false p [] i h = refl
  has-keep_values-false p ((j, w) ∷ m) i h = ground (arith, has-keep_values-false p m i)

  pub keep_values-UniqueKeys :
      (p : V → Bool) (m : JsMap V) → UniqueKeys m → UniqueKeys (keep_values p m)
  unfolding keep_values
  keep_values-UniqueKeys p [] u = tt
  keep_values-UniqueKeys p ((j, w) ∷ m) u =
      ground (arith, has-keep_values-false p m j u.0, keep_values-UniqueKeys p m u.1)

  -- What a sweep leaves under a key, where no key stands twice.
  pub get-keep_values :
      (p : V → Bool) (m : JsMap V) (j : String)
      → UniqueKeys m
      → get (keep_values p m) j
        ≡ (elim (get m j) [ none ↦ none | some v ↦ if p v then some v else none ])
  unfolding get keep_values
  get-keep_values p [] j u = refl
  get-keep_values p ((i, w) ∷ m) j u =
      ground (arith, get-keep_values p m j u.1, has-keep_values-false p m j, eq_iff i j)

  pub size-delete :
      (m : JsMap V) (k : String)
      → UniqueKeys m
      → size m ≡ (if has m k then suc (size (delete m k)) else size (delete m k))
  unfolding get delete
  size-delete [] k u = refl
  size-delete ((i, w) ∷ m) k u = ground (arith, size-delete m k u.1, eq_iff i k)

  -- A sweep keeps what stands under a key and passes the test.
  pub get-keep_values-some :
      (p : V → Bool) (m : JsMap V) (j : String) (v : V)
      → get m j ≡ some v
      → p v ≡ true
      → get (keep_values p m) j ≡ some v
  unfolding get keep_values
  get-keep_values-some p [] j v h t = cc
  get-keep_values-some p ((i, w) ∷ m) j v h t =
      ground (arith, get-keep_values-some p m j v, eq_iff i j)

  -- A sweep leaves only what passes the test, and counts what it drops.
  pub values-keep_values :
      (p : V → Bool) (m : JsMap V) → values (keep_values p m) ≡ keep p (values m)
  unfolding keep_values
  values-keep_values p [] = refl
  values-keep_values p ((i, w) ∷ m) = ground (arith, values-keep_values p m)

  pub length-values : (m : JsMap V) → length (values m) ≡ size m
  length-values [] = refl
  length-values ((i, w) ∷ m) = ap suc (length-values m)

-- A `Set` of strings, in the order of insertion.
abbrev pub JsSet : Type 0
JsSet = List String

-- s.add(k)
abbrev pub add : JsSet → String → JsSet
add s k = if includes s k then s else s ++ k ∷ []

-- s.delete(k)
abbrev pub remove : JsSet → String → JsSet
remove s k = keep (λ j. not (str_eq j k)) s

includes-concat :
    (s : JsSet) (k j : String) → includes (s ++ k ∷ []) j ≡ (includes s j || str_eq k j)
includes-concat [] k j = ground (arith, eq_iff k j)
includes-concat (i ∷ s) k j = ground (arith, includes-concat s k j)

pub includes-add : (s : JsSet) (k j : String) → includes (add s k) j ≡ (str_eq k j || includes s j)
includes-add s k j = ground (arith, includes-concat s k j, eq_iff k j)

pub includes-remove :
    (s : JsSet) (k j : String) → includes (remove s k) j ≡ (not (str_eq k j) && includes s j)
includes-remove [] k j = ground arith
includes-remove (i ∷ s) k j =
    ground (arith, includes-remove s k j, eq_iff k j, eq_iff i k, eq_iff i j)

pub length-add-le : (s : JsSet) (k : String) → length (add s k) ≤ suc (length s)
length-add-le s k = ground (arith, length-append s (k ∷ []))
