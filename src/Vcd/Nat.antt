-- ===== src/Vcd/Nat.antt =====
-- vcd/nsxv_nat.go: the handlers that the SNAT and DNAT rules of an edge gateway share, and the vNic of a network.
-- The conversion of the fields and the calls of govcd are parameters; the lock around the handlers is
-- Vcd/Locks/Keys.
pub mod Types
use terraform_provider_viett.Prelude.{
  ℕ, String, Bool, true, false, Option, none, some, List, [], ◌∷◌, ◌==◌, ◌&&◌, if◌then◌else◌,
}
use terraform_provider_viett.Go.{Failure, plain, wrapped, Result, ok, err, Act, Proc}

-- types.EdgeNatRule, with what only the conversions read in a field of type D
pub record NatRule (D : Type 0) : Type 0 where
  pub id : String
  pub action : String
  pub content : D

-- the resource: its ID, "" without one, and its fields
pub record NatState (D : Type 0) : Type 0 where
  pub id : String
  pub fields : D

-- GetEdgeGatewayFromResource (its error), the calls on the rules of the edge gateway, natRuleTypeGetter and
-- natRuleDataSetter, and strings.ToLower
pub record NatApi (W D : Type 0) : Type 0 where
  pub edge_error : W → Option Failure
  pub get_nat_rule : D → W → Result (NatRule D)
  pub set_data : D → NatRule D → W → Option Failure × D
  pub create_nsxv_nat_rule : NatRule D → Act W (NatRule D)
  pub update_nsxv_nat_rule : NatRule D → Act W (NatRule D)
  pub nat_rule_by_id : String → W → Result (NatRule D)
  pub delete_nat_rule_by_id : String → Proc W
  pub to_lower : String → String

module _ {W D : Type 0} (api : NatApi W D) (nat_type : String) where
  -- the end of natRuleRead, for a rule of the right type
  unfoldable pub set_read : NatState D → NatRule D → W → Option Failure × NatState D
  set_read d r w =
      let (e, fields) = api.set_data d.fields r w in (e, record { id = r.id; fields = fields })

  unfoldable pub read_answer : NatState D → W → Result (NatRule D) → Option Failure × NatState D
  unfolding set_read
  read_answer d w (err e) = (some (wrapped "unable to find NAT rule" e), record d { id = "" })
  read_answer d w (ok r) =
      if api.to_lower r.action == nat_type
      then set_read d r w
      else (some (plain "NAT rule is of another type"), d)

  -- natRuleRead for the ID that it looks up
  unfoldable pub nat_rule_read : String → NatState D → W → Option Failure × NatState D
  unfolding read_answer
  nat_rule_read id d w = elim (api.edge_error w) [
    | some e ↦ (some (wrapped "unable to find edge gateway" e), d)
    | none ↦ read_answer d w (api.nat_rule_by_id id w)
  ]

  abbrev read_back : NatState D → W → Option Failure × NatState D × W
  read_back d w = let (e, next) = nat_rule_read d.id d w in (e, next, w)

  unfoldable pub created : NatState D → Result (NatRule D) × W → Option Failure × NatState D × W
  unfolding nat_rule_read
  created d (err e, w) = (some (wrapped "error creating new NAT rule" e), d, w)
  created d (ok r, w) = read_back (record d { id = r.id }) w

  unfoldable pub create_from : NatState D → W → Result (NatRule D) → Option Failure × NatState D × W
  unfolding created
  create_from d w (err e) = (some (wrapped "unable to make structure for API call" e), d, w)
  create_from d w (ok r) = created d (api.create_nsxv_nat_rule (record r { action = nat_type }) w)

  -- natRuleCreate
  unfoldable pub nat_rule_create : NatState D → W → Option Failure × NatState D × W
  unfolding create_from
  nat_rule_create d w = elim (api.edge_error w) [
    | some e ↦ (some (wrapped "unable to find edge gateway" e), d, w)
    | none ↦ create_from d w (api.get_nat_rule d.fields w)
  ]

  unfoldable pub set_updated : NatState D → Option Failure × D → W → Option Failure × NatState D × W
  unfolding nat_rule_read
  set_updated d (some e, fields) w =
      (some (wrapped "error setting data" e), record d { fields = fields }, w)
  set_updated d (none, fields) w = read_back (record d { fields = fields }) w

  unfoldable pub updated : NatState D → Result (NatRule D) × W → Option Failure × NatState D × W
  unfolding set_updated
  updated d (err e, w) = (some (wrapped "unable to update NAT rule" e), d, w)
  updated d (ok r, w) = set_updated d (api.set_data d.fields r w) w

  unfoldable pub update_from : NatState D → W → Result (NatRule D) → Option Failure × NatState D × W
  unfolding updated
  update_from d w (err e) = (some (wrapped "unable to make structure for API call" e), d, w)
  update_from d w (ok r) =
      updated d (api.update_nsxv_nat_rule (record r { id = d.id; action = nat_type }) w)

  -- natRuleUpdate
  unfoldable pub nat_rule_update : NatState D → W → Option Failure × NatState D × W
  unfolding update_from
  nat_rule_update d w = elim (api.edge_error w) [
    | some e ↦ (some (wrapped "unable to find edge gateway" e), d, w)
    | none ↦ update_from d w (api.get_nat_rule d.fields w)
  ]

  abbrev removed : NatState D → Option Failure × W → Option Failure × NatState D × W
  removed d (some e, w) = (some (wrapped "error deleting NAT rule" e), d, w)
  removed d (none, w) = (none, record d { id = "" }, w)

  -- natRuleDelete
  unfoldable pub nat_rule_delete : NatState D → W → Option Failure × NatState D × W
  nat_rule_delete d w = elim (api.edge_error w) [
    | some e ↦ (some (wrapped "unable to find edge gateway" e), d, w)
    | none ↦ removed d (api.delete_nat_rule_by_id d.id w)
  ]

-- the answer of a search for a vNic: its index, an error for which IsNotFound holds, or another error
pub data VnicAnswer : Type 0 where
  vnic : ℕ → VnicAnswer
  no_vnic : Failure → VnicAnswer
  vnic_refused : Failure → VnicAnswer

abbrev vnic_result : VnicAnswer → Result ℕ
vnic_result (vnic n) = ok n
vnic_result (no_vnic e) = err (wrapped "can't find network attached to edge gateway" e)
vnic_result (vnic_refused e) = err (wrapped "can't find network attached to edge gateway" e)

-- the type of vNics of a type of network; "" for a type that the code does not know
unfoldable pub edge_network_type : String → String
edge_network_type network_type =
    if network_type == "ext" then "uplink" else (if network_type == "org" then "internal" else "")

-- the second search, among the subinterfaces
unfoldable pub or_subinterface : String → VnicAnswer → VnicAnswer → Result ℕ
or_subinterface network_type (no_vnic e) second =
    if network_type == "org" then vnic_result second else vnic_result (no_vnic e)
or_subinterface network_type first second = vnic_result first

-- getvNicIndexFromNetworkNameType; `search` is GetVnicIndexByNetworkNameAndType
unfoldable pub vnic_index_from_network_name_type :
    (String → String → VnicAnswer) → String → String → Result ℕ
unfolding or_subinterface edge_network_type
vnic_index_from_network_name_type search name network_type =
    or_subinterface network_type (search name (edge_network_type network_type))
      (search name "subinterface")

-- the type of network of a type of vNic
unfoldable pub resource_network_type : String → String
resource_network_type vnic_type =
    if vnic_type == "uplink"
    then "ext"
    else (if vnic_type == "internal"
        then "org"
        else (if vnic_type == "subinterface" then "org" else ""))

abbrev network_result : Result (String × String) → Result (String × String)
network_result (err e) = err (wrapped "unable to determine network name and type" e)
network_result (ok (name, vnic_type)) = ok (name, resource_network_type vnic_type)

-- getNetworkNameTypeFromVnicIndex; `search` is GetNetworkNameAndTypeByVnicIndex
unfoldable pub network_name_type_from_vnic_index :
    (ℕ → Result (String × String)) → ℕ → Result (String × String)
unfolding resource_network_type
network_name_type_from_vnic_index search index = network_result (search index)
