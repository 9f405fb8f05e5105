-- ===== src/Vcd/Locks/Keys.antt =====
-- The functions of vcd/config.go that lock and unlock a resource or its parent: which key each of them
-- passes to kvLock or kvUnlock, or that it panics (`none`).
use Prim.Native.String.{◌++◌ as append_text}
use terraform_provider_viett.Prelude.{String, Bool, Option, none, some, ◌==◌, ◌&&◌, if◌then◌else◌}
use terraform_provider_viett.Go.{wrapped, Result, ok, err}
use terraform_provider_viett.Vcd.Lookup.{
  ResourceData, Defaults, Cloud, ◌>>=◌, or_default, get_edge_gateway_from_resource,
  get_parent_edge_gateway_owner_id,
}

-- what a function does with the map of mutexes
pub data KeyUse : Type 0 where
  locks_key : String → KeyUse
  unlocks_key : String → KeyUse
  uses_none : KeyUse

-- the panic for an empty value
abbrev non_empty : String → Option String
non_empty value = if value == "" then none else some value

abbrev vapp_key : String → String → String → String
vapp_key org vdc vapp =
    append_text "org:"
      (append_text org (append_text "|vdc:" (append_text vdc (append_text "|vapp:" vapp))))

-- d.Id() as a key, which must not be empty
unfoldable pub id_key : ResourceData → Option String
id_key d = non_empty d.id

-- a field as a key, which must not be empty
unfoldable pub field_key : String → ResourceData → Option String
field_key name d = do value ← d.field name; non_empty value

-- the key of an owner that is a VDC group; `some none` for another owner
unfoldable pub owner_key : (String → Bool) → ResourceData → Option (Option String)
owner_key is_group d = do
  owner ← d.field "owner_id"
  some (if is_group owner then some owner else none)

-- a field whose value is nil where the schema does not have it
abbrev text_of : Option String → String
text_of none = ""
text_of (some value) = value

-- the ID that a search for an edge gateway gave; the functions panic for its error and for an empty ID
abbrev found_edge : Result String → Option String
found_edge (err e) = none
found_edge (ok edge) = non_empty edge

-- what is done with a key
abbrev with_optional : (String → KeyUse) → Option String → KeyUse
with_optional with_key none = uses_none
with_optional with_key (some key) = with_key key

module _ (cloud : Cloud) (cli : Defaults) where
  -- getOrgName
  unfoldable pub org_name : ResourceData → Option String
  org_name d = do org ← d.field "org"; some (or_default org cli.org)

  -- getVdcName
  unfoldable pub vdc_name : ResourceData → Option String
  vdc_name d = do vdc ← d.field "vdc"; some (or_default vdc cli.vdc)

  -- the key of the vApp of a given name
  unfoldable pub named_vapp : ResourceData → String → Option String
  unfolding org_name vdc_name
  named_vapp d vapp = do
    name ← non_empty vapp
    org ← org_name d
    vdc ← vdc_name d
    some (vapp_key org vdc name)

  -- the key of the vApp that a field names
  unfoldable pub field_vapp : String → ResourceData → Option String
  unfolding named_vapp
  field_vapp name d = do vapp ← d.field name; named_vapp d vapp

  -- the key of the virtual machine that vapp_name and vm_name name
  unfoldable pub vm_key : ResourceData → Option String
  unfolding org_name vdc_name
  vm_key d = do
    vapp ← d.field "vapp_name"
    vapp_name ← non_empty vapp
    vm ← d.field "vm_name"
    vm_name ← non_empty vm
    org ← org_name d
    vdc ← vdc_name d
    some (append_text (vapp_key org vdc vapp_name) (append_text "|vm:" vm_name))

  -- the key of the edge gateway that edge_gateway_id or, without it, edge_gateway names
  unfoldable pub edge_key : ResourceData → Option String
  unfolding get_edge_gateway_from_resource
  edge_key d =
      let edge_id = text_of (d.field "edge_gateway_id") in
      let edge_name = text_of (d.field "edge_gateway") in
      if (edge_id == "") && (edge_name == "")
      then none
      else if edge_id == ""
      then get_edge_gateway_from_resource cloud cli d "edge_gateway" >>= found_edge
      else some edge_id

  unfoldable pub lock_vapp : ResourceData → Option KeyUse
  unfolding field_vapp
  lock_vapp d = do key ← field_vapp "name" d; some (locks_key key)

  unfoldable pub unlock_vapp : ResourceData → Option KeyUse
  unfolding field_vapp
  unlock_vapp d = do key ← field_vapp "name" d; some (unlocks_key key)

  unfoldable pub lock_edge_gateway : ResourceData → Option KeyUse
  unfolding id_key
  lock_edge_gateway d = do key ← id_key d; some (locks_key key)

  unfoldable pub unlock_edge_gateway : ResourceData → Option KeyUse
  unfolding id_key
  unlock_edge_gateway d = do key ← id_key d; some (unlocks_key key)

  unfoldable pub lock_parent_vapp_with_name : ResourceData → String → Option KeyUse
  unfolding named_vapp
  lock_parent_vapp_with_name d vapp = do key ← named_vapp d vapp; some (locks_key key)

  unfoldable pub unlock_parent_vapp_with_name : ResourceData → String → Option KeyUse
  unfolding named_vapp
  unlock_parent_vapp_with_name d vapp = do key ← named_vapp d vapp; some (unlocks_key key)

  unfoldable pub lock_parent_vapp : ResourceData → Option KeyUse
  unfolding field_vapp
  lock_parent_vapp d = do key ← field_vapp "vapp_name" d; some (locks_key key)

  unfoldable pub unlock_parent_vapp : ResourceData → Option KeyUse
  unfolding field_vapp
  unlock_parent_vapp d = do key ← field_vapp "vapp_name" d; some (unlocks_key key)

  unfoldable pub lock_parent_vm : ResourceData → Option KeyUse
  unfolding vm_key
  lock_parent_vm d = do key ← vm_key d; some (locks_key key)

  unfoldable pub unlock_parent_vm : ResourceData → Option KeyUse
  unfolding vm_key
  unlock_parent_vm d = do key ← vm_key d; some (unlocks_key key)

  unfoldable pub lock_parent_vdc_group : ResourceData → Option KeyUse
  unfolding field_key
  lock_parent_vdc_group d = do key ← field_key "vdc_group_id" d; some (locks_key key)

  unfoldable pub unlock_parent_vdc_group : ResourceData → Option KeyUse
  unfolding field_key
  unlock_parent_vdc_group d = do key ← field_key "vdc_group_id" d; some (unlocks_key key)

  unfoldable pub lock_parent_external_network : ResourceData → Option KeyUse
  unfolding field_key
  lock_parent_external_network d = do key ← field_key "external_network_id" d; some (locks_key key)

  unfoldable pub unlock_parent_external_network : ResourceData → Option KeyUse
  unfolding field_key
  unlock_parent_external_network d = do
    key ← field_key "external_network_id" d
    some (unlocks_key key)

  unfoldable pub lock_if_owner_is_vdc_group : ResourceData → Option KeyUse
  unfolding owner_key
  lock_if_owner_is_vdc_group d = do
    key ← owner_key cloud.owner_is_vdc_group d
    some (with_optional locks_key key)

  unfoldable pub unlock_if_owner_is_vdc_group : ResourceData → Option KeyUse
  unfolding owner_key
  unlock_if_owner_is_vdc_group d = do
    key ← owner_key cloud.owner_is_vdc_group d
    some (with_optional unlocks_key key)

  unfoldable pub lock_parent_edge_gtw : ResourceData → Option KeyUse
  unfolding edge_key
  lock_parent_edge_gtw d = do key ← edge_key d; some (locks_key key)

  unfoldable pub unlock_parent_edge_gtw : ResourceData → Option KeyUse
  unfolding edge_key
  unlock_parent_edge_gtw d = do key ← edge_key d; some (unlocks_key key)

  -- lockById and unlockById
  abbrev pub lock_by_id : String → Option KeyUse
  lock_by_id key = some (locks_key key)

  abbrev pub unlock_by_id : String → Option KeyUse
  unlock_by_id key = some (unlocks_key key)

  -- lockParentOrgNetwork, which takes an empty ID too, and unLockParentOrgNetwork
  unfoldable pub lock_parent_org_network : ResourceData → Option KeyUse
  lock_parent_org_network d = do key ← d.field "org_network_id"; some (locks_key key)

  unfoldable pub unlock_parent_org_network : ResourceData → Option KeyUse
  unlock_parent_org_network d = do key ← d.field "org_network_id"; some (unlocks_key key)

-- lockParentVdcGroupOrEdgeGateway for the owner that was found: what it locks, and the function that it
-- returns, which asks the cloud of the moment in which it is called
unfoldable pub lock_owner :
    Cloud
    → Defaults
    → ResourceData
    → Result String
    → Option (Result (KeyUse × (Cloud → Option KeyUse)))
unfolding lock_parent_edge_gtw unlock_parent_edge_gtw
lock_owner cloud cli d (err e) = some (err (wrapped "error finding parent Edge Gateway" e))
lock_owner cloud cli d (ok owner) =
    if cloud.owner_is_vdc_group owner
    then some (ok (locks_key owner, λ later. unlock_by_id later cli owner))
    else (do
      key_use ← lock_parent_edge_gtw cloud cli d
      some (ok (key_use, λ later. unlock_parent_edge_gtw later cli d)))

-- lockParentVdcGroupOrEdgeGateway
unfoldable pub lock_parent_vdc_group_or_edge_gateway :
    Cloud → Defaults → ResourceData → Option (Result (KeyUse × (Cloud → Option KeyUse)))
unfolding get_parent_edge_gateway_owner_id lock_owner
lock_parent_vdc_group_or_edge_gateway cloud cli d =
    get_parent_edge_gateway_owner_id cloud cli d >>= lock_owner cloud cli d
