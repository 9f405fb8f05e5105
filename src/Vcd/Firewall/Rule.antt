-- ===== src/Vcd/Firewall/Rule.antt =====
-- vcd/resource_vcd_nsxv_firewall_rule.go: a whole firewall rule between the Terraform state and the API, and
-- what create, read, update and delete do. The lock of the edge gateway around them is Vcd/Locks/Keys; the
-- import is left out.
use terraform_provider_viett.Prelude.{
  ℕ, String, Bool, Option, none, some, List, [], ◌∷◌, map, ◌==◌, num_eq, if◌then◌else◌,
}
use terraform_provider_viett.Go.{Failure, wrapped, Result, ok, err, Act, Proc}
use terraform_provider_viett.Vcd.Firewall.{Endpoint, EndpointBlock, EdgeApi}
use terraform_provider_viett.Vcd.Firewall.Endpoints.{get_firewall_rule_endpoint, get_endpoint_data}

-- a block "service"
pub record ServiceBlock : Type 0 where
  pub protocol : String
  pub port : String
  pub source_port : String

-- types.EdgeFirewallApplicationService
pub record FirewallService : Type 0 where
  pub protocol : String
  pub port : String
  pub source_port : String

-- types.EdgeFirewallRule
pub record FirewallRule : Type 0 where
  pub id : String
  pub name : String
  pub rule_tag : String
  pub rule_type : String
  pub enabled : Bool
  pub logging_enabled : Bool
  pub action : String
  pub services : List FirewallService
  pub source : Endpoint
  pub destination : Endpoint

-- the fields of the resource; a rule tag that is not set is 0. The set of blocks "service" is the list
-- that its List gives, in the order of the hashes, and a set of the same blocks gives the same list.
pub record RuleFields : Type 0 where
  pub name : String
  pub rule_tag : ℕ
  pub rule_type : String
  pub enabled : Bool
  pub logging_enabled : Bool
  pub action : String
  pub services : List ServiceBlock
  pub source : List EndpointBlock
  pub destination : List EndpointBlock

-- one round of getFirewallServices
unfoldable pub firewall_service : ServiceBlock → FirewallService
firewall_service b = record { protocol = b.protocol; port = b.port; source_port = b.source_port }

-- getFirewallServices
unfoldable pub get_firewall_services : List ServiceBlock → List FirewallService
unfolding firewall_service
get_firewall_services blocks = map firewall_service blocks

-- one round of getServiceData
unfoldable pub service_block : FirewallService → ServiceBlock
service_block s = record { protocol = s.protocol; port = s.port; source_port = s.source_port }

-- getServiceData; the blocks are those of the set that it makes
unfoldable pub get_service_data : List FirewallService → List ServiceBlock
unfolding service_block
get_service_data services = map service_block services

module _ (api : EdgeApi) where
  -- what getFirewallRule makes of its two endpoints
  unfoldable pub rule_of : RuleFields → Result Endpoint → Result Endpoint → Result FirewallRule
  unfolding get_firewall_services
  rule_of d (err e) destination = err (wrapped "could not convert 'source' block to API request" e)
  rule_of d (ok source) (err e) =
      err (wrapped "could not convert 'destination' block to API request" e)
  rule_of d (ok source) (ok destination) = ok (record {
    id = "";
    name = d.name;
    rule_tag = if num_eq d.rule_tag 0 then "" else api.itoa d.rule_tag;
    rule_type = "";
    enabled = d.enabled;
    logging_enabled = d.logging_enabled;
    action = d.action;
    services = get_firewall_services d.services;
    source = source;
    destination = destination;
  })

  -- getFirewallRule
  unfoldable pub get_firewall_rule : RuleFields → Result FirewallRule
  unfolding rule_of get_firewall_rule_endpoint
  get_firewall_rule d =
      rule_of d (get_firewall_rule_endpoint api d.source)
        (get_firewall_rule_endpoint api d.destination)

  -- the end of setFirewallRuleData, from the block "destination"
  unfoldable pub set_destination :
      FirewallRule → RuleFields → Result EndpointBlock → Option Failure × RuleFields
  unfolding get_service_data
  set_destination r d (err e) =
      (some (wrapped "could not prepare data for setting 'destination' block" e), d)
  set_destination r d (ok block) =
      (none, record d { destination = block ∷ []; services = get_service_data r.services })

  unfoldable pub set_source :
      FirewallRule → RuleFields → Result EndpointBlock → Option Failure × RuleFields
  unfolding set_destination get_endpoint_data
  set_source r d (err e) = (some (wrapped "could not prepare data for setting 'source' block" e), d)
  set_source r d (ok block) =
      set_destination r (record d { source = block ∷ [] }) (get_endpoint_data api r.destination)

  unfoldable pub set_tag : FirewallRule → RuleFields → Result ℕ → Option Failure × RuleFields
  unfolding set_source get_endpoint_data
  set_tag r d (err e) = (some (wrapped "could not convert ruletag from string to int" e), d)
  set_tag r d (ok tag) = set_source r (record d { rule_tag = tag }) (get_endpoint_data api r.source)

  -- setFirewallRuleData; the fields that it has set before an error stay set
  unfoldable pub set_firewall_rule_data : FirewallRule → RuleFields → Option Failure × RuleFields
  unfolding set_tag set_source get_endpoint_data
  set_firewall_rule_data r d =
      let scalars = record d {
        name = r.name;
        enabled = r.enabled;
        logging_enabled = r.logging_enabled;
        action = r.action;
        rule_type = r.rule_type;
      } in
      if r.rule_tag == ""
      then set_source r scalars (get_endpoint_data api r.source)
      else set_tag r scalars (api.atoi r.rule_tag)

-- the resource: its ID, "" without one, and its fields
pub record RuleState : Type 0 where
  pub id : String
  pub fields : RuleFields

-- how a handler ends
pub data Ended : Type 0 where
  panicked : Ended
  ended : Option Failure → Ended

-- GetEdgeGatewayFromResource and GetOrgAndVdcFromResource, of which only the errors are told apart, the edge
-- gateway that they give, and the calls on its rules
pub record RuleApi (W : Type 0) : Type 0 where
  pub edge_error : W → Option Failure
  pub vdc_error : W → Option Failure
  pub edge : W → EdgeApi
  pub create_rule : FirewallRule → String → Act W FirewallRule
  pub update_rule : FirewallRule → Act W FirewallRule
  pub rule_by_id : String → W → Result FirewallRule
  pub delete_rule : String → Proc W

-- the errors of the two lookups, in their order
abbrev pub lookup_error : Option Failure → Option Failure → Option Failure
lookup_error (some e) vdc = some (wrapped "unable to find edge gateway" e)
lookup_error none (some e) = some (wrapped "error retrieving Org and VDC" e)
lookup_error none none = none

module _ {W : Type 0} (rules : RuleApi W) where
  abbrev pub find_error : W → Option Failure
  find_error w = lookup_error (rules.edge_error w) (rules.vdc_error w)

  unfoldable pub after_rule : RuleState → W → Result FirewallRule → Ended × RuleState
  unfolding set_firewall_rule_data
  after_rule d w (err e) =
      (ended (some (wrapped "unable to find firewall rule" e)), record d { id = "" })
  after_rule d w (ok r) =
      let (e, fields) = set_firewall_rule_data (rules.edge w) r d.fields in
      (ended e, record d { fields = fields })

  unfoldable pub read_found : RuleState → W → Option Failure → Ended × RuleState
  unfolding after_rule
  read_found d w (some e) = (ended (some e), d)
  read_found d w none = after_rule d w (rules.rule_by_id d.id w)

  -- resourceVcdNsxvFirewallRuleRead of the resource, which has no rule_id
  unfoldable pub read_rule : RuleState → W → Ended × RuleState
  unfolding read_found
  read_rule d w = read_found d w (find_error w)

  unfoldable pub after_create : RuleState → Result FirewallRule × W → Ended × RuleState × W
  unfolding read_rule
  after_create d (err e, w) = (ended (some (wrapped "error creating new firewall rule" e)), d, w)
  after_create d (ok r, w) = let (e, next) = read_rule (record d { id = r.id }) w in (e, next, w)

  unfoldable pub create_of : String → RuleState → W → Result FirewallRule → Ended × RuleState × W
  unfolding after_create
  create_of above d w (err e) =
      (ended (some (wrapped "unable to make firewall rule query" e)), d, w)
  create_of above d w (ok r) = after_create d (rules.create_rule r above w)

  unfoldable pub create_found : String → RuleState → W → Option Failure → Ended × RuleState × W
  unfolding create_of get_firewall_rule
  create_found above d w (some e) = (ended (some e), d, w)
  create_found above d w none = create_of above d w (get_firewall_rule (rules.edge w) d.fields)

  -- resourceVcdNsxvFirewallRuleCreate; `above` is above_rule_id
  unfoldable pub create_rule : String → RuleState → W → Ended × RuleState × W
  unfolding create_found
  create_rule above d w = create_found above d w (find_error w)

  unfoldable pub after_update : RuleState → Result FirewallRule × W → Ended × RuleState × W
  unfolding read_rule
  after_update d (err e, w) = (ended (some (wrapped "unable to update firewall rule" e)), d, w)
  after_update d (ok r, w) = let (e, next) = read_rule d w in (e, next, w)

  -- the ID is written before the error is tested, to the nil rule of an error
  unfoldable pub update_of : RuleState → W → Result FirewallRule → Ended × RuleState × W
  unfolding after_update
  update_of d w (err e) = (panicked, d, w)
  update_of d w (ok r) = after_update d (rules.update_rule (record r { id = d.id }) w)

  unfoldable pub update_found : RuleState → W → Option Failure → Ended × RuleState × W
  unfolding update_of get_firewall_rule
  update_found d w (some e) = (ended (some e), d, w)
  update_found d w none = update_of d w (get_firewall_rule (rules.edge w) d.fields)

  -- resourceVcdNsxvFirewallRuleUpdate
  unfoldable pub update_rule : RuleState → W → Ended × RuleState × W
  unfolding update_found
  update_rule d w = update_found d w (find_error w)

  abbrev deleted : RuleState → Option Failure × W → Ended × RuleState × W
  deleted d (some e, w) = (ended (some (wrapped "error deleting firewall rule" e)), d, w)
  deleted d (none, w) = (ended none, record d { id = "" }, w)

  -- resourceVcdNsxvFirewallRuleDelete, which looks for the edge gateway only
  unfoldable pub delete_rule : RuleState → W → Ended × RuleState × W
  delete_rule d w = elim (rules.edge_error w) [
    | some e ↦ (ended (some (wrapped "unable to find edge gateway" e)), d, w)
    | none ↦ deleted d (rules.delete_rule d.id w)
  ]
