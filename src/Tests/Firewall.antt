-- ===== src/Tests/Firewall.antt =====
-- vcd/resource_vcd_nsxv_firewall_rule.go with an edge gateway that has one network and a VDC with one
-- network and one IP set. A number is written as that many strokes and one more.
use Prim.Native.String.{◌++◌ as append_text}
use text.Mathlib.TextLemmas.{nil-append, cons-append}
use terraform_provider_viett.Prelude.{
  ℕ, ◌+◌, ◌-◌, String, ◌≡◌, ◌≢◌, zero, suc, refl, sym, ap, ◌∙◌, inl, inr, Bool-cases, Bool, true,
  false, none, [], ◌∷◌, ◌==◌, arith, eq_iff, IsIn, here, there,
}
use terraform_provider_viett.Go.{external, Result, ok, err}
use terraform_provider_viett.Vcd.Firewall.{
  split, dash, object_kind, kind_of_parts, sub_kind, Endpoint, EndpointBlock, IpSet, found, EdgeApi,
  each,
}
use terraform_provider_viett.Vcd.Firewall.Endpoints.{get_firewall_rule_endpoint}
use terraform_provider_viett.Vcd.Firewall.Lookup.{AreIpSets}
use terraform_provider_viett.Vcd.Firewall.RoundTrip.{EdgeLaws}
use terraform_provider_viett.Vcd.Firewall.Rule.{
  FirewallRule, RuleFields, get_firewall_rule, set_firewall_rule_data,
}
use terraform_provider_viett.Vcd.Firewall.Stored.{set_firewall_rule_data-get_firewall_rule}

unfoldable strokes : ℕ → String
strokes zero = "1"
strokes (suc n) = append_text "1" (strokes n)

unfoldable count_all : String → ℕ
count_all String.[] = 0
count_all (String.◌∷◌ c s) = count_all s + 1

count_all-strokes : (n : ℕ) → count_all (strokes n) ≡ n + 1
unfolding count_all strokes
count_all-strokes zero = refl
count_all-strokes (suc n) = rw (cons-append, nil-append) (ground (arith, count_all-strokes n))

split-strokes : (n : ℕ) → split dash (strokes n) ≡ strokes n ∷ []
unfolding split strokes
split-strokes zero = refl
split-strokes (suc n) =
    rw (cons-append, nil-append) (rw (split-strokes n) (rw (cons-append, nil-append)))

abbrev vnic_at : Bool → Result ℕ
vnic_at true = ok 1
vnic_at false = err (external "no such network")

abbrev front_at : ℕ → Result String
front_at (suc zero) = ok "front"
front_at n = err (external "no such vNic")

abbrev either : Bool → String → Result String
either true s = ok s
either false s = err (external "no such network")

abbrev admins : IpSet
admins = record { id = "vdc:ipset-2"; name = "admins" }

abbrev network_urn : String
network_urn = "urn:vcloud:network:1"

abbrev edge : EdgeApi
edge = record {
  atoi = λ s. ok (count_all s - 1);
  itoa = strokes;
  vnic_of_network = λ name. vnic_at (name == "front");
  network_of_vnic = front_at;
  network_id = λ name. either (name == "dmz") network_urn;
  network_name = λ id. either (id == network_urn) "dmz";
  all_ip_sets = found (admins ∷ []);
}

vnic_back : (name : String) (n : ℕ) → vnic_at (name == "front") ≡ ok n → front_at n ≡ ok name
vnic_back name n h = elim (Bool-cases (name == "front")) [
  | inl e ↦ one_back name n ((eq_iff name "front").0 e) (sym (ap vnic_at e) ∙ h)
  | inr e ↦ absurd (ground (arith, sym (ap vnic_at e) ∙ h))
]
  where
    one_back : (s : String) (k : ℕ) → s ≡ "front" → ok 1 ≡ ok k → front_at k ≡ ok s
    one_back s k e h' = ap front_at (number k h') ∙ ap ok (sym e)
      where
        number : (m : ℕ) → ok 1 ≡ ok m → m ≡ 1
        number m q = ground (arith, q)

-- what is found under a name is that name's
either_back : (s t u v : String) → either (s == t) u ≡ ok v → (s ≡ t) × (u ≡ v)
either_back s t u v h = elim (Bool-cases (s == t)) [
  | inl e ↦ ((eq_iff s t).0 e, text_eq u v (sym (ap (λ b. either b u) e) ∙ h))
  | inr e ↦ absurd (refused_text v (sym (ap (λ b. either b u) e) ∙ h))
]
  where
    text_eq : (a b : String) → ok a ≡ ok b → a ≡ b
    text_eq a b q = ground (arith, q)

    refused_text : (b : String) → either false u ≡ ok b → ⊥
    refused_text b q = ground (arith, q)

edge-laws : EdgeLaws edge
unfolding split object_kind kind_of_parts
edge-laws = record {
  atoi-itoa = λ n. ap ok (ground (arith, count_all-strokes n));
  split-itoa = split-strokes;
  network-vnic = vnic_back;
  name-id = λ name id h.
      let (named, found_id) = either_back name "dmz" network_urn id h in
      ap (λ i. either (i == network_urn) "dmz") (sym found_id) ∙ ap ok (sym named);
  network_id-kind = λ name id h. ap object_kind (sym (either_back name "dmz" network_urn id h).1);
}

only_admins : (s : IpSet) → IsIn s (admins ∷ []) → s ≡ admins
only_admins s here = refl
only_admins s (there at) = elim at [ ]

admins-AreIpSets : AreIpSets (admins ∷ [])
unfolding split object_kind kind_of_parts sub_kind
admins-AreIpSets = record {
  distinct = λ s t a b same. ap (λ q. q.name) (only_admins s a ∙ sym (only_admins t b));
  kinds = λ s a. ap (λ q. object_kind q.id) (only_admins s a);
}

strokes-filled : (n : ℕ) → strokes n ≢ ""
unfolding count_all
strokes-filled n = λ e. absurd (ground (arith, sym (ap count_all e) ∙ count_all-strokes n))

abbrev inside : EndpointBlock
inside = record {
  exclude = false;
  ip_addresses = "10.0.0.1" ∷ [];
  gateway_interfaces = "vse" ∷ "front" ∷ [];
  vm_ids = "urn:vcloud:vm:7" ∷ [];
  org_networks = "dmz" ∷ [];
  ip_sets = "admins" ∷ [];
}

abbrev inside_endpoint : Endpoint
inside_endpoint = record {
  exclude = false;
  ip_addresses = "10.0.0.1" ∷ [];
  vnic_group_ids = "vse" ∷ "vnic-11" ∷ [];
  grouping_object_ids = "urn:vcloud:vm:7" ∷ network_urn ∷ "vdc:ipset-2" ∷ [];
}

abbrev allow : RuleFields
allow = record {
  name = "allow";
  rule_tag = 5;
  rule_type = "user";
  enabled = true;
  logging_enabled = false;
  action = "accept";
  services = record { protocol = "tcp"; port = "443"; source_port = "any" } ∷ [];
  source = inside ∷ [];
  destination = inside ∷ [];
}

abbrev allow_rule : FirewallRule
allow_rule = record {
  id = "";
  name = "allow";
  rule_tag = "111111";
  rule_type = "";
  enabled = true;
  logging_enabled = false;
  action = "accept";
  services = record { protocol = "tcp"; port = "443"; source_port = "any" } ∷ [];
  source = inside_endpoint;
  destination = inside_endpoint;
}

set_firewall_rule_data-get_firewall_rule_example :
    set_firewall_rule_data edge allow_rule allow ≡ (none, record allow { rule_type = "" })
unfolding get_firewall_rule get_firewall_rule_endpoint strokes each split object_kind kind_of_parts
set_firewall_rule_data-get_firewall_rule_example =
    set_firewall_rule_data-get_firewall_rule edge edge-laws (admins ∷ []) admins-AreIpSets refl
      allow allow_rule strokes-filled ((refl, tt), tt) ((refl, tt), tt) refl
