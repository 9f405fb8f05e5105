-- ===== src/Vcd/Firewall/RoundTrip.antt =====
-- The source or destination of a firewall rule is read back as it was written.
use terraform_provider_viett.Vcd.Firewall.Convert.{
  HasKind, each-All, each-inverse, ids_of_kind-append, ids_of_one_kind, split-vnic,
}
use Prim.Native.String.{◌++◌ as append_text}
use mathlib.Core.List.{append-nil}
use terraform_provider_viett.Prelude.{
  ℕ, ◌≡◌, ◌≢◌, refl, sym, ap, ◌∙◌, String, Bool, true, false, List, [], ◌∷◌, ◌++◌, arith, eq_iff,
  ==-ne, All, if◌then◌else◌,
}
use terraform_provider_viett.Go.{Result, ok, err}
use terraform_provider_viett.Vcd.Firewall.Lookup.{AreIpSets, name_of_id-id_of_name, id_of_name-kind}
use terraform_provider_viett.Vcd.Firewall.{
  split, dash, ObjectKind, org_network, virtual_machine, ip_set, object_kind, Endpoint,
  EndpointBlock, IpSet, found, EdgeApi, each, is_interface, id_of_name, name_of_id, found_or,
  vnic_id, interface_id, edge_interface_names_to_id_strings, network_found, network_at,
  network_of_parts, interface_name, edge_vnic_id_strings_to_network_names, org_network_names_to_ids,
  org_networks_ids_to_names, ip_set_ids_in, ip_set_names_to_ids, ip_set_names_in,
  ip_set_ids_to_names,
}
use terraform_provider_viett.Vcd.Firewall.Endpoints.{
  same_kind, ids_of_kind, endpoint_of, block_of, get_firewall_rule_endpoint, get_endpoint_data,
}

-- govcd and strconv answer as documented: a number is read back from its text, which has no dash; the network of a
-- vNic index is the one whose index was found; and a network's ID is one of a network and leads back to its name.
pub record EdgeLaws (api : EdgeApi) : Type 0 where
  pub atoi-itoa : (n : ℕ) → api.atoi (api.itoa n) ≡ ok n
  pub split-itoa : (n : ℕ) → split dash (api.itoa n) ≡ api.itoa n ∷ []
  pub network-vnic :
      (name : String) (n : ℕ) → api.vnic_of_network name ≡ ok n → api.network_of_vnic n ≡ ok name
  pub name-id : (name id : String) → api.network_id name ≡ ok id → api.network_name id ≡ ok name
  pub network_id-kind :
      (name id : String) → api.network_id name ≡ ok id → object_kind id ≡ org_network

vnic_differs : (t s : String) → split dash s ≡ s ∷ [] → s ≢ "vnic" → append_text "vnic-" t ≢ s
vnic_differs t s one other =
    λ e. absurd (ground (arith, sym (split-vnic t) ∙ ap (split dash) e ∙ one, other))

is_interface-vnic : (t : String) → is_interface (append_text "vnic-" t) ≡ false
unfolding split
is_interface-vnic t = rw (
  ==-ne (append_text "vnic-" t) "internal"
      (vnic_differs t "internal" refl (ground (arith, eq_iff "internal" "vnic"))),
  ==-ne (append_text "vnic-" t) "external"
      (vnic_differs t "external" refl (ground (arith, eq_iff "external" "vnic"))),
  ==-ne (append_text "vnic-" t) "vse"
      (vnic_differs t "vse" refl (ground (arith, eq_iff "vse" "vnic"))),
)

ok_eq : (s t : String) → ok s ≡ ok t → s ≡ t
ok_eq s t h = ground (arith, h)

module _ (api : EdgeApi) (laws : EdgeLaws api) where
  vnic_name :
      (n : ℕ)
      → interface_name api (append_text "vnic-" (api.itoa n))
        ≡ network_found api (api.network_of_vnic n)
  unfolding interface_name network_of_parts network_at
  vnic_name n = rw (is_interface-vnic (api.itoa n)) (
      ap (network_of_parts api) (split-vnic (api.itoa n))
      ∙ ap (λ parts. network_of_parts api ("vnic" ∷ parts)) (laws.split-itoa n)
      ∙ ap (network_at api) (laws.atoi-itoa n))

  interface_name-vnic_id :
      (name id : String) (r : Result ℕ)
      → api.vnic_of_network name ≡ r
      → vnic_id api r ≡ ok id
      → interface_name api id ≡ ok name
  unfolding vnic_id network_found
  interface_name-vnic_id name id (err f) e h = absurd (ground (arith, h))
  interface_name-vnic_id name id (ok n) e h =
      ap (interface_name api) (ok_eq id (append_text "vnic-" (api.itoa n)) (sym h))
      ∙ vnic_name n
      ∙ ap (network_found api) (laws.network-vnic name n e)

  interface_name-id :
      (name id : String) → interface_id api name ≡ ok id → interface_name api id ≡ ok name
  unfolding interface_id interface_name
  interface_name-id name id h = by_kind (is_interface name) refl
    where
      by_kind : (b : Bool) → is_interface name ≡ b → interface_name api id ≡ ok name
      by_kind true e = ap (interface_name api) (ok_eq id name (sym h ∙ rw e)) ∙ rw e
      by_kind false e =
          interface_name-vnic_id name id (api.vnic_of_network name) refl (sym (rw e) ∙ h)

  network_ids-All :
      (names ids : List String) → each api.network_id names ≡ ok ids → All (HasKind org_network) ids
  network_ids-All names ids h =
      each-All api.network_id (HasKind org_network) laws.network_id-kind names ids h

endpoint_eq : (d e : Endpoint) → ok d ≡ ok e → d ≡ e
endpoint_eq d e h = ground (arith, h)

module _ (api : EdgeApi) (laws : EdgeLaws api) (sets : List IpSet) (good : AreIpSets sets)
    (listed : api.all_ip_sets ≡ found sets) where
  abbrev message : String
  message = "could not find IP set"

  ip_set_ids_each :
      (names : List String)
      → ip_set_names_to_ids api names ≡ each (λ name. found_or message (id_of_name name sets)) names
  unfolding ip_set_names_to_ids ip_set_ids_in each
  ip_set_ids_each [] = refl
  ip_set_ids_each (name ∷ names) = ap (ip_set_ids_in api (name ∷ names)) listed

  ip_set_names_each :
      (ids : List String)
      → ip_set_ids_to_names api ids ≡ each (λ id. found_or message (name_of_id id sets)) ids
  unfolding ip_set_ids_to_names ip_set_names_in
  ip_set_names_each ids = ap (ip_set_names_in api ids) listed

  ip_set_names-inverse :
      (names ids : List String)
      → ip_set_names_to_ids api names ≡ ok ids
      → ip_set_ids_to_names api ids ≡ ok names
  ip_set_names-inverse names ids h =
      ip_set_names_each ids
      ∙ each-inverse (λ name. found_or message (id_of_name name sets))
          (λ id. found_or message (name_of_id id sets)) (name_of_id-id_of_name message sets good)
          names ids (sym (ip_set_ids_each names) ∙ h)

  ip_set_ids-All :
      (names ids : List String) → ip_set_names_to_ids api names ≡ ok ids → All (HasKind ip_set) ids
  ip_set_ids-All names ids h =
      each-All (λ name. found_or message (id_of_name name sets)) (HasKind ip_set)
        (id_of_name-kind message sets good) names ids (sym (ip_set_ids_each names) ∙ h)

  -- the IDs of each kind, where they stand behind each other
  sorted :
      (kind : ObjectKind) (vms networks ips : List String)
      → All (HasKind virtual_machine) vms
      → All (HasKind org_network) networks
      → All (HasKind ip_set) ips
      → ids_of_kind kind (vms ++ (networks ++ ips))
        ≡ (if same_kind kind virtual_machine then vms else [])
          ++ ((if same_kind kind org_network then networks else [])
              ++ (if same_kind kind ip_set then ips else []))
  sorted kind vms networks ips v n i =
      ids_of_kind-append kind vms (networks ++ ips)
      ∙ ap (λ rest. ids_of_kind kind vms ++ rest) (ids_of_kind-append kind networks ips)
      ∙ rw (
        ids_of_one_kind kind virtual_machine vms v,
        ids_of_one_kind kind org_network networks n,
        ids_of_one_kind kind ip_set ips i,
      )

  block_of-same :
      (b : EndpointBlock) (e : Endpoint) (networks vnics ips : Result (List String))
      → e.exclude ≡ b.exclude
      → e.ip_addresses ≡ b.ip_addresses
      → networks ≡ ok b.org_networks
      → vnics ≡ ok b.gateway_interfaces
      → ips ≡ ok b.ip_sets
      → ids_of_kind virtual_machine e.grouping_object_ids ≡ b.vm_ids
      → block_of e networks vnics ips ≡ ok b
  unfolding block_of
  block_of-same b e networks vnics ips x a n v i m = rw (n, v, i, x, a, m)

  written_back :
      (b : EndpointBlock) (vnics networks ips : List String)
      → edge_interface_names_to_id_strings api b.gateway_interfaces ≡ ok vnics
      → org_network_names_to_ids api b.org_networks ≡ ok networks
      → ip_set_names_to_ids api b.ip_sets ≡ ok ips
      → All (HasKind virtual_machine) b.vm_ids
      → get_endpoint_data api (record {
        exclude = b.exclude;
        ip_addresses = b.ip_addresses;
        vnic_group_ids = vnics;
        grouping_object_ids = b.vm_ids ++ (networks ++ ips);
      })
        ≡ ok b
  unfolding get_endpoint_data edge_interface_names_to_id_strings org_network_names_to_ids
      edge_vnic_id_strings_to_network_names org_networks_ids_to_names
  written_back b vnics networks ips v n i vms =
      let nets = network_ids-All api laws b.org_networks networks n in
      let sets_of = ip_set_ids-All b.ip_sets ips i in
      let all = b.vm_ids ++ (networks ++ ips) in
      block_of-same b
        (record {
          exclude = b.exclude;
          ip_addresses = b.ip_addresses;
          vnic_group_ids = vnics;
          grouping_object_ids = all;
        })
        (org_networks_ids_to_names api (ids_of_kind org_network all))
        (edge_vnic_id_strings_to_network_names api vnics)
        (ip_set_ids_to_names api (ids_of_kind ip_set all)) refl refl
        (ap (org_networks_ids_to_names api)
            (sorted org_network b.vm_ids networks ips vms nets sets_of ∙ append-nil networks)
          ∙ each-inverse api.network_id api.network_name laws.name-id b.org_networks networks n)
        (each-inverse (interface_id api) (interface_name api) (interface_name-id api laws)
          b.gateway_interfaces vnics v)
        (ap (ip_set_ids_to_names api) (sorted ip_set b.vm_ids networks ips vms nets sets_of)
          ∙ ip_set_names-inverse b.ip_sets ips i)
        (sorted virtual_machine b.vm_ids networks ips vms nets sets_of ∙ append-nil b.vm_ids)

  endpoint_of-block :
      (b : EndpointBlock) (vnics networks ips : Result (List String)) (e : Endpoint)
      → edge_interface_names_to_id_strings api b.gateway_interfaces ≡ vnics
      → org_network_names_to_ids api b.org_networks ≡ networks
      → ip_set_names_to_ids api b.ip_sets ≡ ips
      → All (HasKind virtual_machine) b.vm_ids
      → endpoint_of b vnics networks ips ≡ ok e
      → get_endpoint_data api e ≡ ok b
  unfolding endpoint_of
  endpoint_of-block b (err f) networks ips e v n i vms h = absurd (ground (arith, h))
  endpoint_of-block b (ok vnics) (err f) ips e v n i vms h = absurd (ground (arith, h))
  endpoint_of-block b (ok vnics) (ok networks) (err f) e v n i vms h = absurd (ground (arith, h))
  endpoint_of-block b (ok vnics) (ok networks) (ok ips) e v n i vms h =
      ap (get_endpoint_data api) (
        sym (
          endpoint_eq
            (record {
              exclude = b.exclude;
              ip_addresses = b.ip_addresses;
              vnic_group_ids = vnics;
              grouping_object_ids = b.vm_ids ++ (networks ++ ips);
            })
            e h))
      ∙ written_back b vnics networks ips v n i vms

  -- When the edge gateway and govcd answer as documented, the VDC has IP sets, and the "vm_ids" have the form of
  -- IDs of virtual machines: a block "source" or "destination" that getFirewallRuleEndpoint can convert is the
  -- one that getEndpointData makes of the result.
  pub get_endpoint_data-get_firewall_rule_endpoint :
      (b : EndpointBlock) (e : Endpoint)
      → All (HasKind virtual_machine) b.vm_ids
      → get_firewall_rule_endpoint api (b ∷ []) ≡ ok e
      → get_endpoint_data api e ≡ ok b
  unfolding get_firewall_rule_endpoint
  get_endpoint_data-get_firewall_rule_endpoint b e vms h =
      endpoint_of-block b (edge_interface_names_to_id_strings api b.gateway_interfaces)
        (org_network_names_to_ids api b.org_networks) (ip_set_names_to_ids api b.ip_sets) e refl
        refl refl vms h
