-- ===== src/Database/Sql.antt =====
-- ORDER BY a number DESC and LIMIT, as the SELECT statements of internal/database/postgres.go and
-- internal/audit/audit.go use them. Rows with equal keys may come in any order in SQL; here they
-- keep the order of the table.
use mathlib.Core.List.{Perm}
use mathlib.Core.List.Perm
use terraform_provider_viett.Prelude.{
  ℕ, zero, suc, ◌≤◌, ◌≡◌, refl, ap, ◌∙◌, List, [], ◌∷◌, ◌++◌, arith, ltb, if◌then◌else◌, length,
  All, All-map, inl, inr, Bool-cases,
}

module _ {A : Type 0} (key : A → ℕ) where
  unfoldable pub insert_desc : A → List A → List A
  insert_desc v [] = v ∷ []
  insert_desc v (u ∷ us) =
      let rest = insert_desc v us in if ltb (key v) (key u) then u ∷ rest else v ∷ u ∷ us

  unfoldable pub order_desc : List A → List A
  unfolding insert_desc
  order_desc [] = []
  order_desc (v ∷ vs) = insert_desc v (order_desc vs)

  -- every row comes before the rows of smaller or equal key
  abbrev pub IsDescending : List A → Type 0
  IsDescending [] = Unit
  IsDescending (v ∷ vs) = All (λ u. key u ≤ key v) vs × IsDescending vs

  abbrev Below : ℕ → List A → Type 0
  Below n = All (λ u. key u ≤ n)

  Below-insert_desc :
      (n : ℕ) (v : A) (vs : List A) → key v ≤ n → Below n vs → Below n (insert_desc v vs)
  unfolding insert_desc
  Below-insert_desc n v [] h b = (h, b)
  Below-insert_desc n v (u ∷ us) h b = elim (Bool-cases (ltb (key v) (key u))) [
    | inl e ↦ rw (e, insert_desc) (b.0, Below-insert_desc n v us h b.1)
    | inr e ↦ rw (e, insert_desc) (h, b)
  ]

  insert_desc-IsDescending :
      (v : A) (vs : List A) → IsDescending vs → IsDescending (insert_desc v vs)
  unfolding insert_desc
  insert_desc-IsDescending v [] d = (tt, d)
  insert_desc-IsDescending v (u ∷ us) d = elim (Bool-cases (ltb (key v) (key u))) [
    | inl e ↦
        rw (e, insert_desc)
          (Below-insert_desc (key u) v us (ground arith) d.0, insert_desc-IsDescending v us d.1)
    | inr e ↦
        let le : key u ≤ key v = ground arith in
        rw (e, insert_desc)
          ((le, All-map (λ x. key x ≤ key u) (λ x. key x ≤ key v) us (λ x h. omega arith) d.0), d)
  ]

  pub order_desc-IsDescending : (vs : List A) → IsDescending (order_desc vs)
  unfolding order_desc
  order_desc-IsDescending [] = tt
  order_desc-IsDescending (v ∷ vs) =
      insert_desc-IsDescending v (order_desc vs) (order_desc-IsDescending vs)

  insert_desc-perm : (v : A) (vs : List A) → Perm (insert_desc v vs) (v ∷ vs)
  unfolding insert_desc
  insert_desc-perm v [] = Perm.refl (v ∷ [])
  insert_desc-perm v (u ∷ us) = elim (Bool-cases (ltb (key v) (key u))) [
    | inl e ↦
        rw (e, insert_desc) (Perm.trans (Perm.cons u (insert_desc-perm v us)) (Perm.swap v u us))
    | inr e ↦ rw (e, insert_desc) (Perm.refl (v ∷ u ∷ us))
  ]

  pub order_desc-perm : (vs : List A) → Perm (order_desc vs) vs
  unfolding order_desc
  order_desc-perm [] = Perm.refl []
  order_desc-perm (v ∷ vs) =
      Perm.trans (insert_desc-perm v (order_desc vs)) (Perm.cons v (order_desc-perm vs))

  length-insert_desc : (v : A) (vs : List A) → length (insert_desc v vs) ≡ suc (length vs)
  unfolding insert_desc
  length-insert_desc v [] = refl
  length-insert_desc v (u ∷ us) = ground (arith, length-insert_desc v us)

  pub length-order_desc : (vs : List A) → length (order_desc vs) ≡ length vs
  unfolding order_desc
  length-order_desc [] = refl
  length-order_desc (v ∷ vs) = length-insert_desc v (order_desc vs) ∙ ap suc (length-order_desc vs)

-- LIMIT n
abbrev pub take {ℓ} : {A : Type ℓ} → ℕ → List A → List A
take zero xs = []
take (suc n) [] = []
take (suc n) (x ∷ xs) = x ∷ take n xs

-- what LIMIT leaves out
pub take_rest : {A : Type 0} (n : ℕ) (xs : List A) → (rest : List A) × (xs ≡ take n xs ++ rest)
take_rest zero xs = (xs, refl)
take_rest (suc n) [] = ([], refl)
take_rest (suc n) (x ∷ xs) = let (rest, e) = take_rest n xs in (rest, ap (λ ys. x ∷ ys) e)

All-take {ℓ κ} : {A : Type ℓ} (P : A → Type κ) (n : ℕ) (xs : List A) → All P xs → All P (take n xs)
All-take P zero xs h = tt
All-take P (suc n) [] h = tt
All-take P (suc n) (x ∷ xs) h = (h.0, All-take P n xs h.1)

pub take-IsDescending :
    {A : Type 0} (key : A → ℕ) (n : ℕ) (xs : List A)
    → IsDescending key xs
    → IsDescending key (take n xs)
take-IsDescending key zero xs d = tt
take-IsDescending key (suc n) [] d = tt
take-IsDescending key (suc n) (x ∷ xs) d =
    (All-take (λ u. key u ≤ key x) n xs d.0, take-IsDescending key n xs d.1)
