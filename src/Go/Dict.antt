-- ===== src/Go/Dict.antt =====
-- A Go map with string keys as an association list; a key stands in it once if it is built by
-- `put` and `remove`. Iteration order, which Go leaves open, is the order of the list.
use terraform_provider_viett.Prelude.{
  String, ◌≡◌, refl, Option, none, some, List, [], ◌∷◌, ◌++◌, arith, ◌==◌, eq_iff, if◌then◌else◌,
}

abbrev pub Dict {ℓ} : Type ℓ → Type ℓ
Dict V = List (String × V)

module _ {ℓ} {V : Type ℓ} where
  -- v, ok := m[key]
  unfoldable pub get : Dict V → String → Option V
  get [] key = none
  get ((k, v) ∷ m) key = if k == key then some v else get m key

  -- m[key] = v
  unfoldable pub put : Dict V → String → V → Dict V
  put [] key v = (key, v) ∷ []
  put ((k, w) ∷ m) key v =
      let rest = put m key v in if k == key then (key, v) ∷ m else (k, w) ∷ rest

  -- delete(m, key)
  unfoldable pub remove : Dict V → String → Dict V
  remove [] key = []
  remove ((k, v) ∷ m) key = let rest = remove m key in if k == key then rest else (k, v) ∷ rest

  -- the values in the order of iteration
  unfoldable pub values : Dict V → List V
  values [] = []
  values ((k, v) ∷ m) = v ∷ values m

  pub get-put :
      (m : Dict V) (key : String) (v : V) (j : String)
      → get (put m key v) j ≡ (if key == j then some v else get m j)
  unfolding get put
  get-put [] key v j = refl
  get-put ((k, w) ∷ m) key v j =
      ground (arith, get-put m key v j, eq_iff k key, eq_iff k j, eq_iff key j)

  pub get-remove :
      (m : Dict V) (key j : String) → get (remove m key) j ≡ (if key == j then none else get m j)
  unfolding get remove
  get-remove [] key j = ground arith
  get-remove ((k, w) ∷ m) key j =
      ground (arith, get-remove m key j, eq_iff k key, eq_iff k j, eq_iff key j)

  -- no key stands in the list twice
  abbrev pub IsUnique : Dict V → Type ℓ
  IsUnique [] = Unit
  IsUnique ((k, v) ∷ m) = (get m k ≡ none) × IsUnique m

  pub put-IsUnique : (m : Dict V) (key : String) (v : V) → IsUnique m → IsUnique (put m key v)
  unfolding put get
  put-IsUnique [] key v h = (refl, tt)
  put-IsUnique ((k, w) ∷ m) key v h =
      ground (arith, put-IsUnique m key v h.1, get-put m key v k, eq_iff k key, eq_iff key k)

  -- a new key comes last
  pub put-absent :
      (m : Dict V) (key : String) (v : V) → get m key ≡ none → put m key v ≡ m ++ ((key, v) ∷ [])
  unfolding put get
  put-absent [] key v h = refl
  put-absent ((k, w) ∷ m) key v h = ground (arith, put-absent m key v)

pub ruleset dict_laws = (get-put, get-remove)
