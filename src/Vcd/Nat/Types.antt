-- ===== src/Vcd/Nat/Types.antt =====
-- The network of a NAT rule of vcd/nsxv_nat.go and its vNic.
use terraform_provider_viett.Prelude.{
  ℕ, String, ◌≡◌, sym, ap, ◌∙◌, ◌==◌, ◌⊎◌, arith, Bool-cases, inl, inr, eq_iff,
}
use terraform_provider_viett.Go.{Result, ok}
use terraform_provider_viett.Vcd.Nat.{
  VnicAnswer, vnic, no_vnic, vnic_refused, edge_network_type, or_subinterface,
  vnic_index_from_network_name_type, resource_network_type, network_result,
  network_name_type_from_vnic_index,
}

module _ (find : String → String → VnicAnswer) (network_at : ℕ → Result (String × String))
    (found_at : (name vnic_type : String) (n : ℕ)
      → find name vnic_type ≡ vnic n
      → network_at n ≡ ok (name, vnic_type)) where
  -- a vNic that was found under a type is read back as one of the type of network that this type stands for
  read_back :
      (name vnic_type : String) (n : ℕ)
      → find name vnic_type ≡ vnic n
      → network_name_type_from_vnic_index network_at n ≡ ok (name, resource_network_type vnic_type)
  unfolding network_name_type_from_vnic_index
  read_back name vnic_type n h = ap network_result (found_at name vnic_type n h)

  one_vnic : (a b : ℕ) → ok a ≡ ok b → a ≡ b
  one_vnic a b h = ground (arith, h)

  -- which of the two searches found the vNic
  or_subinterface-cases :
      (network_type : String) (first second : VnicAnswer) (n : ℕ)
      → or_subinterface network_type first second ≡ ok n
      → (first ≡ vnic n) ⊎ ((network_type ≡ "org") × (second ≡ vnic n))
  unfolding or_subinterface
  or_subinterface-cases network_type (vnic m) second n h = inl (ap vnic (one_vnic m n h))
  or_subinterface-cases network_type (vnic_refused e) second n h = absurd (ground (arith, h))
  or_subinterface-cases network_type (no_vnic e) (vnic m) n h =
      elim (Bool-cases (network_type == "org")) [
        | inl e ↦ inr ((eq_iff network_type "org").0 e, ap vnic (one_vnic m n (sym (rw e) ∙ h)))
        | inr e ↦ absurd (ground (arith, h, e))
      ]
  or_subinterface-cases network_type (no_vnic e) (no_vnic f) n h = absurd (ground (arith, h))
  or_subinterface-cases network_type (no_vnic e) (vnic_refused f) n h = absurd (ground (arith, h))

  -- If the edge gateway names the network and the type of each vNic that it finds: the vNic that is found for a
  -- network of type "ext" or "org" is read back as that network with that type, also when it is a subinterface.
  pub network_name_type-vnic_index :
      (name network_type : String) (n : ℕ)
      → (network_type ≡ "ext") ⊎ (network_type ≡ "org")
      → vnic_index_from_network_name_type find name network_type ≡ ok n
      → network_name_type_from_vnic_index network_at n ≡ ok (name, network_type)
  unfolding vnic_index_from_network_name_type edge_network_type resource_network_type
  network_name_type-vnic_index name network_type n known h =
      elim (or_subinterface-cases network_type (find name (edge_network_type network_type))
        (find name "subinterface") n h) [
          | inl first ↦
              read_back name (edge_network_type network_type) n first
              ∙ ap (λ t. ok (name, t)) (by_type known)
          | inr (org, second) ↦
              read_back name "subinterface" n second ∙ ap (λ t. ok (name, t)) (sym org)
        ]
    where
      by_type :
          (network_type ≡ "ext") ⊎ (network_type ≡ "org")
          → resource_network_type (edge_network_type network_type) ≡ network_type
      by_type (inl e) = ap (λ t. resource_network_type (edge_network_type t)) e ∙ sym e
      by_type (inr e) = ap (λ t. resource_network_type (edge_network_type t)) e ∙ sym e
