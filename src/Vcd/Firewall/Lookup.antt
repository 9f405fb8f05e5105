-- ===== src/Vcd/Firewall/Lookup.antt =====
-- The names and IDs of IP sets lead to each other.
use terraform_provider_viett.Prelude.{
  ◌≡◌, ◌≢◌, refl, sym, ap, ◌∙◌, String, Bool, true, false, Option, none, some, List, [], ◌∷◌, ◌==◌,
  ◌⊎◌, inl, inr, arith, eq_iff, eq_refl, IsIn, here, there,
}
use terraform_provider_viett.Go.{ok}
use terraform_provider_viett.Vcd.Firewall.{
  object_kind, ip_set, IpSet, or_else, id_of_name, name_of_id, found_or,
}

-- IP sets of which no two with different names have one ID, and whose IDs have the form of one
pub record AreIpSets (sets : List IpSet) : Type 0 where
  pub distinct : (s t : IpSet) → IsIn s sets → IsIn t sets → s.id ≡ t.id → s.name ≡ t.name
  pub kinds : (s : IpSet) → IsIn s sets → object_kind s.id ≡ ip_set

or_else-cases :
    (o : Option String) (b : Bool) (x y : String)
    → or_else o b x ≡ some y
    → (o ≡ some y) ⊎ ((b ≡ true) × (x ≡ y))
unfolding or_else
or_else-cases (some z) b x y h = inl h
or_else-cases none true x y h = inr (refl, ground (arith, h))
or_else-cases none false x y h = absurd (ground (arith, h))

or_else-some :
    (o : Option String) (b : Bool) (x : String) → (o ≢ none) ⊎ (b ≡ true) → or_else o b x ≢ none
unfolding or_else
or_else-some (some z) b x h = λ e. absurd (ground (arith, e))
or_else-some none true x h = λ e. absurd (ground (arith, e))
or_else-some none false x (inl h) = λ e. absurd (h refl)
or_else-some none false x (inr h) = λ e. absurd (ground (arith, h))

id_of_name_listed :
    (name id : String) (sets : List IpSet)
    → id_of_name name sets ≡ some id
    → (s : IpSet) × IsIn s sets × (s.name ≡ name) × (s.id ≡ id)
unfolding id_of_name
id_of_name_listed name id [] h = absurd (ground (arith, h))
id_of_name_listed name id (s ∷ sets) h =
    elim (or_else-cases (id_of_name name sets) (s.name == name) s.id id h) [
      | inl later ↦
          let (t, at, named, same) = id_of_name_listed name id sets later in
          (t, there at, named, same)
      | inr (now, same) ↦ (s, here, (eq_iff s.name name).0 now, same)
    ]

name_of_id_listed :
    (id name : String) (sets : List IpSet)
    → name_of_id id sets ≡ some name
    → (s : IpSet) × IsIn s sets × (s.id ≡ id) × (s.name ≡ name)
unfolding name_of_id
name_of_id_listed id name [] h = absurd (ground (arith, h))
name_of_id_listed id name (s ∷ sets) h =
    elim (or_else-cases (name_of_id id sets) (s.id == id) s.name name h) [
      | inl later ↦
          let (t, at, same, named) = name_of_id_listed id name sets later in
          (t, there at, same, named)
      | inr (now, named) ↦ (s, here, (eq_iff s.id id).0 now, named)
    ]

name_of_id-known : (s : IpSet) (sets : List IpSet) → IsIn s sets → name_of_id s.id sets ≢ none
unfolding name_of_id
name_of_id-known s [] at = elim at [ ]
name_of_id-known s (t ∷ sets) here =
    or_else-some (name_of_id s.id sets) (s.id == s.id) s.name (inr (eq_refl s.id))
name_of_id-known s (t ∷ sets) (there at) =
    or_else-some (name_of_id s.id sets) (t.id == s.id) t.name (inl (name_of_id-known s sets at))

found_or-some :
    (message : String) (o : Option String) (s : String) → found_or message o ≡ ok s → o ≡ some s
found_or-some message none s h = absurd (ground (arith, h))
found_or-some message (some x) s h = ground (arith, h)

module _ (message : String) (sets : List IpSet) (good : AreIpSets sets) where
  name_of_id-one : (s : IpSet) → IsIn s sets → name_of_id s.id sets ≡ some s.name
  name_of_id-one s at = by_found (name_of_id s.id sets) refl
    where
      by_found : (o : Option String) → name_of_id s.id sets ≡ o → name_of_id s.id sets ≡ some s.name
      by_found none e = absurd (name_of_id-known s sets at e)
      by_found (some name) e =
          let (t, t_at, same, named) = name_of_id_listed s.id name sets e in
          e ∙ ap some (sym named ∙ good.distinct t s t_at at same)

  -- an ID that was found for a name leads back to the name
  pub name_of_id-id_of_name :
      (name id : String)
      → found_or message (id_of_name name sets) ≡ ok id
      → found_or message (name_of_id id sets) ≡ ok name
  name_of_id-id_of_name name id h =
      let (s, at, named, same) =
        id_of_name_listed name id sets (found_or-some message (id_of_name name sets) id h) in
      ap (λ i. found_or message (name_of_id i sets)) (sym same)
      ∙ ap (found_or message) (name_of_id-one s at)
      ∙ ap ok named

  pub id_of_name-kind :
      (name id : String) → found_or message (id_of_name name sets) ≡ ok id → object_kind id ≡ ip_set
  id_of_name-kind name id h =
      let (s, at, named, same) =
        id_of_name_listed name id sets (found_or-some message (id_of_name name sets) id h) in
      ap object_kind (sym same) ∙ good.kinds s at
