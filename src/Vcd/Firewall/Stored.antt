-- ===== src/Vcd/Firewall/Stored.antt =====
-- What is left of a firewall rule in the Terraform state.
use mathlib.Core.Path.{subst}
use terraform_provider_viett.Prelude.{
  ℕ, ◌≡◌, ◌≢◌, refl, ap, ◌∙◌, String, none, List, [], ◌∷◌, arith, All, ==-ne, num_eq, Bool-cases,
  inl, inr, if◌then◌else◌,
}
use terraform_provider_viett.Go.{Result, ok, err}
use terraform_provider_viett.Vcd.Firewall.{
  virtual_machine, Endpoint, EndpointBlock, IpSet, found, EdgeApi,
}
use terraform_provider_viett.Vcd.Firewall.Endpoints.{get_firewall_rule_endpoint, get_endpoint_data}
use terraform_provider_viett.Vcd.Firewall.Lookup.{AreIpSets}
use terraform_provider_viett.Vcd.Firewall.RoundTrip.{
  EdgeLaws, get_endpoint_data-get_firewall_rule_endpoint,
}
use terraform_provider_viett.Vcd.Firewall.Convert.{HasKind}
use terraform_provider_viett.Vcd.Firewall.Rule.{
  ServiceBlock, service_block, firewall_service, get_service_data, get_firewall_services,
  FirewallRule, RuleFields, rule_of, get_firewall_rule, set_destination, set_source, set_tag,
  set_firewall_rule_data,
}

-- the IDs in "vm_ids" have the form of IDs of virtual machines
abbrev pub HasVms : EndpointBlock → Type 0
HasVms b = All (HasKind virtual_machine) b.vm_ids

-- the blocks "service" come back
get_service_data-get_firewall_services :
    (blocks : List ServiceBlock) → get_service_data (get_firewall_services blocks) ≡ blocks
unfolding get_service_data get_firewall_services service_block firewall_service
get_service_data-get_firewall_services [] = refl
get_service_data-get_firewall_services (b ∷ blocks) =
    ap (λ rest. b ∷ rest) (get_service_data-get_firewall_services blocks)

module _ (api : EdgeApi) (laws : EdgeLaws api) (sets : List IpSet) (good : AreIpSets sets)
    (listed : api.all_ip_sets ≡ found sets) where
  endpoint_back :
      (bs : List EndpointBlock) (e : Endpoint)
      → All HasVms bs
      → get_firewall_rule_endpoint api bs ≡ ok e
      → (b : EndpointBlock) × (bs ≡ b ∷ []) × (get_endpoint_data api e ≡ ok b)
  unfolding get_firewall_rule_endpoint
  endpoint_back [] e vms h = absurd (ground (arith, h))
  endpoint_back (b ∷ []) e vms h =
      (b, refl, get_endpoint_data-get_firewall_rule_endpoint api laws sets good listed b e vms.0 h)
  endpoint_back (b ∷ c ∷ bs) e vms h = absurd (ground (arith, h))

  -- both blocks are set from what they were made from
  blocks_back :
      (r : FirewallRule) (d : RuleFields) (source destination : EndpointBlock)
      → get_endpoint_data api r.source ≡ ok source
      → get_endpoint_data api r.destination ≡ ok destination
      → set_source api r d (get_endpoint_data api r.source) ≡ (
        none,
        record d {
          source = source ∷ [];
          destination = destination ∷ [];
          services = get_service_data r.services;
        },
      )
  unfolding set_source set_destination
  blocks_back r d source destination s t =
      ap (set_source api r d) s ∙ ap (set_destination api r (record d { source = source ∷ [] })) t

  -- the rule that is made of the fields and two endpoints, with a given tag
  abbrev tagged_rule : RuleFields → Endpoint → Endpoint → String → FirewallRule
  tagged_rule d s t tag = record {
    id = "";
    name = d.name;
    rule_tag = tag;
    rule_type = "";
    enabled = d.enabled;
    logging_enabled = d.logging_enabled;
    action = d.action;
    services = get_firewall_services d.services;
    source = s;
    destination = t;
  }

  module _ (d : RuleFields) (s t : Endpoint) (b c : EndpointBlock) (at_source : d.source ≡ b ∷ [])
      (at_destination : d.destination ≡ c ∷ []) (s_back : get_endpoint_data api s ≡ ok b)
      (t_back : get_endpoint_data api t ≡ ok c) where
    same_blocks :
        (tag : String)
        → set_source api
            (tagged_rule d s t tag)
            (record d { rule_type = "" })
            (get_endpoint_data api s)
          ≡ (none, record d { rule_type = "" })
    same_blocks tag =
        blocks_back (tagged_rule d s t tag) (record d { rule_type = "" }) b c s_back t_back
        ∙ rw (at_source, at_destination, get_service_data-get_firewall_services d.services)

    untagged_back :
        set_firewall_rule_data api (tagged_rule d s t "") d ≡ (none, record d { rule_type = "" })
    unfolding set_firewall_rule_data
    untagged_back = same_blocks ""

    tagged_back :
        (tag : String)
        → tag ≢ ""
        → api.atoi tag ≡ ok d.rule_tag
        → set_firewall_rule_data api (tagged_rule d s t tag) d ≡ (none, record d { rule_type = "" })
    unfolding set_firewall_rule_data set_tag
    tagged_back tag filled number = rw (==-ne tag "" filled) (
        ap (set_tag api (tagged_rule d s t tag) (record d { rule_type = "" })) number
        ∙ same_blocks tag)

    rule_back :
        ((n : ℕ) → api.itoa n ≢ "")
        → set_firewall_rule_data api
            (tagged_rule d s t (if num_eq d.rule_tag 0 then "" else api.itoa d.rule_tag))
            d
          ≡ (none, record d { rule_type = "" })
    rule_back text = elim (Bool-cases (num_eq d.rule_tag 0)) [
      | inl unset ↦ rw unset untagged_back
      | inr set ↦
          rw set (tagged_back (api.itoa d.rule_tag) (text d.rule_tag) (laws.atoi-itoa d.rule_tag))
    ]

  rule_eq : (q r : FirewallRule) → ok q ≡ ok r → q ≡ r
  rule_eq q r h = ground (arith, h)

  -- If the edge gateway and govcd answer as documented, the text of a number is not empty, the VDC has IP
  -- sets and "vm_ids" are IDs of virtual machines: setting the fields of a resource from the rule that
  -- getFirewallRule made of them succeeds and changes no field but the rule type, which the API decides.
  pub set_firewall_rule_data-get_firewall_rule :
      (d : RuleFields) (r : FirewallRule)
      → ((n : ℕ) → api.itoa n ≢ "")
      → All HasVms d.source
      → All HasVms d.destination
      → get_firewall_rule api d ≡ ok r
      → set_firewall_rule_data api r d ≡ (none, record d { rule_type = r.rule_type })
  unfolding get_firewall_rule rule_of
  set_firewall_rule_data-get_firewall_rule d r text s_vms d_vms h =
      by_endpoints (get_firewall_rule_endpoint api d.source) refl
        (get_firewall_rule_endpoint api d.destination) refl h
    where
      by_endpoints :
          (s : Result Endpoint)
          → get_firewall_rule_endpoint api d.source ≡ s
          → (t : Result Endpoint) → get_firewall_rule_endpoint api d.destination ≡ t
          → rule_of api d s t ≡ ok r
          → set_firewall_rule_data api r d ≡ (none, record d { rule_type = r.rule_type })
      by_endpoints (err e) es t et made = absurd (ground (arith, made))
      by_endpoints (ok s) es (err e) et made = absurd (ground (arith, made))
      by_endpoints (ok s) es (ok t) et made =
          let (b, at_source, s_back) = endpoint_back d.source s s_vms es in
          let (c, at_destination, t_back) = endpoint_back d.destination t d_vms et in
          let same =
            rule_eq (tagged_rule d s t (if num_eq d.rule_tag 0 then "" else api.itoa d.rule_tag)) r
              made in
          subst (λ q. set_firewall_rule_data api q d ≡ (none, record d { rule_type = q.rule_type }))
            same (rule_back d s t b c at_source at_destination s_back t_back text)
