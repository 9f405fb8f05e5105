-- ===== src/Vcd/Firewall/Endpoints.antt =====
-- vcd/resource_vcd_nsxv_firewall_rule.go: getFirewallRuleEndpoint and getEndpointData.
use terraform_provider_viett.Prelude.{String, Bool, true, false, List, [], ◌∷◌, ◌++◌, if◌then◌else◌}
use terraform_provider_viett.Go.{plain, wrapped, Result, ok, err}
use terraform_provider_viett.Vcd.Firewall.{
  Endpoint, EndpointBlock, ObjectKind, org_network, virtual_machine, ip_set, object_kind, EdgeApi,
  edge_interface_names_to_id_strings, edge_vnic_id_strings_to_network_names,
  org_network_names_to_ids, org_networks_ids_to_names, ip_set_names_to_ids, ip_set_ids_to_names,
}

-- the IDs of one kind
abbrev pub same_kind : ObjectKind → ObjectKind → Bool
same_kind org_network org_network = true
same_kind virtual_machine virtual_machine = true
same_kind ip_set ip_set = true
same_kind a b = false

unfoldable pub ids_of_kind : ObjectKind → List String → List String
unfolding object_kind
ids_of_kind kind [] = []
ids_of_kind kind (id ∷ ids) =
    let rest = ids_of_kind kind ids in if same_kind kind (object_kind id) then id ∷ rest else rest

-- what getFirewallRuleEndpoint makes of its lookups
unfoldable pub endpoint_of :
    EndpointBlock
    → Result (List String)
    → Result (List String)
    → Result (List String)
    → Result Endpoint
endpoint_of b (err e) networks sets = err (wrapped "could not lookup vNic indexes for networks" e)
endpoint_of b (ok vnics) (err e) sets = err (wrapped "could not lookup network IDs for networks" e)
endpoint_of b (ok vnics) (ok networks) (err e) =
    err (wrapped "could not lookup IP set names by their IDs" e)
endpoint_of b (ok vnics) (ok networks) (ok sets) = ok (record {
  exclude = b.exclude;
  ip_addresses = b.ip_addresses;
  vnic_group_ids = vnics;
  grouping_object_ids = b.vm_ids ++ (networks ++ sets);
})

-- what getEndpointData makes of its lookups
unfoldable pub block_of :
    Endpoint
    → Result (List String)
    → Result (List String)
    → Result (List String)
    → Result EndpointBlock
unfolding ids_of_kind
block_of e (err f) vnics sets = err (wrapped "could not convert org network IDs to names" f)
block_of e (ok networks) (err f) sets = err f
block_of e (ok networks) (ok vnics) (err f) = err (wrapped "could not IP set IDs to names" f)
block_of e (ok networks) (ok vnics) (ok sets) = ok (record {
  exclude = e.exclude;
  ip_addresses = e.ip_addresses;
  gateway_interfaces = vnics;
  vm_ids = ids_of_kind virtual_machine e.grouping_object_ids;
  org_networks = networks;
  ip_sets = sets;
})

module _ (api : EdgeApi) where
  -- getFirewallRuleEndpoint
  unfoldable pub get_firewall_rule_endpoint : List EndpointBlock → Result Endpoint
  unfolding endpoint_of edge_interface_names_to_id_strings org_network_names_to_ids
      ip_set_names_to_ids
  get_firewall_rule_endpoint (b ∷ []) =
      endpoint_of b (edge_interface_names_to_id_strings api b.gateway_interfaces)
        (org_network_names_to_ids api b.org_networks) (ip_set_names_to_ids api b.ip_sets)
  get_firewall_rule_endpoint bs = err (plain "no source specified")

  -- getEndpointData
  unfoldable pub get_endpoint_data : Endpoint → Result EndpointBlock
  unfolding block_of edge_vnic_id_strings_to_network_names org_networks_ids_to_names
      ip_set_ids_to_names
  get_endpoint_data e =
      block_of e (org_networks_ids_to_names api (ids_of_kind org_network e.grouping_object_ids))
        (edge_vnic_id_strings_to_network_names api e.vnic_group_ids)
        (ip_set_ids_to_names api (ids_of_kind ip_set e.grouping_object_ids))
