-- ===== src/Tests/Nat.antt =====
-- vcd/nsxv_nat.go with an edge gateway that has one network, on a subinterface.
use terraform_provider_viett.Prelude.{
  ℕ, String, ◌≡◌, refl, Bool, true, ◌==◌, arith, Bool-cases, inl, inr, eq_iff,
}
use terraform_provider_viett.Go.{external, Result, ok}
use terraform_provider_viett.Vcd.Nat.{
  VnicAnswer, vnic, no_vnic, vnic_index_from_network_name_type, network_name_type_from_vnic_index,
}
use terraform_provider_viett.Vcd.Nat.Types.{network_name_type-vnic_index}

abbrev answer : Bool → Bool → VnicAnswer
answer true true = vnic 10
answer a b = no_vnic (external "not found")

abbrev find : String → String → VnicAnswer
find name vnic_type = answer (name == "back") (vnic_type == "subinterface")

abbrev network_at : ℕ → Result (String × String)
network_at n = ok ("back", "subinterface")

answer-found :
    (name vnic_type : String) (n : ℕ)
    → find name vnic_type ≡ vnic n
    → network_at n ≡ ok (name, vnic_type)
answer-found name vnic_type n h = elim (Bool-cases (name == "back")) [
  | inl e ↦ elim (Bool-cases (vnic_type == "subinterface")) [
    | inl f ↦ ground (arith, (eq_iff name "back").0 e, (eq_iff vnic_type "subinterface").0 f)
    | inr f ↦ absurd (ground (arith, h, e, f))
  ]
  | inr e ↦ absurd (ground (arith, h, e))
]

network_name_type-vnic_index_example :
    network_name_type_from_vnic_index network_at 10 ≡ ok ("back", "org")
unfolding vnic_index_from_network_name_type
network_name_type-vnic_index_example =
    network_name_type-vnic_index find network_at answer-found "back" "org" 10 (inr refl) refl
