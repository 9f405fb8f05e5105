-- ===== src/Vcd/Lookup.antt =====
-- How vcd/config.go finds the organisation, the virtual data center and the edge gateway that a resource
-- names: GetOrgAndVdc, GetAdminOrg, GetOrg, the edge gateways and their variants that read the names from
-- a resource. What govcd answers is a parameter; the text that GOVCD_DEBUG adds to errors is left out.
use terraform_provider_viett.Prelude.{String, Bool, Option, none, some, ◌==◌, ◌||◌, if◌then◌else◌}
use terraform_provider_viett.Go.{plain, wrapped, Result, ok, err}

-- a chain of steps that panics where one of them does
infixl 5 ◌>>=◌
abbrev pub ◌>>=◌ {ℓ κ} : {A : Type ℓ} {B : Type κ} → Option A → (A → Option B) → Option B
none >>= f = none
some a >>= f = f a

-- schema.ResourceData, as far as it is read here: d.Id(), and d.Get(name).(string), which panics
-- (`none`) for a name that the schema does not have
pub record ResourceData : Type 0 where
  pub id : String
  pub field : String → Option String

-- the defaults of VCDClient
pub record Defaults : Type 0 where
  pub org : String
  pub vdc : String

-- the names that the checks of an organisation and of a virtual data center read
pub record Entity : Type 0 where
  pub name : String
  pub href : String
  pub id : String

-- what govcd answers: GetOrgByName, GetAdminOrgByName, org.GetVDCByName (`none` for nil), the IDs of the edge
-- gateways that vdc.GetEdgeGatewayByName, vdc.GetNsxtEdgeGatewayByName and org.GetNsxtEdgeGatewayById find,
-- OwnerRef.ID of the one that org.GetAnyTypeEdgeGatewayById finds, and OwnerIsVdcGroup
pub record Cloud : Type 0 where
  pub org_by_name : String → Result Entity
  pub admin_org_by_name : String → Result Entity
  pub vdc_by_name : Entity → String → Result (Option Entity)
  pub edge_by_name : Entity → String → Result String
  pub nsxt_edge_by_name : Entity → String → Result String
  pub nsxt_edge_by_id : Entity → String → Result String
  pub owner_of_edge : Entity → String → Result String
  pub owner_is_vdc_group : String → Bool

-- the name of the arguments, else the default
abbrev pub or_default : String → String → String
or_default own default = if own == "" then default else own

abbrev pub lacks_part : Entity → Bool
lacks_part e = (e.name == "") || (e.href == "") || (e.id == "")

-- the checks of what a search for an organisation gave
unfoldable pub checked_org : String → Result Entity → Result Entity
checked_org name (err e) = err (wrapped "error retrieving Org" e)
checked_org name (ok org) = if lacks_part org then err (plain "empty Org found") else ok org

-- the checks of what a search for a virtual data center gave
unfoldable pub checked_vdc : Entity → Result (Option Entity) → Result (Entity × Entity)
checked_vdc org (err e) = err (wrapped "error retrieving VDC" e)
checked_vdc org (ok none) = err (plain "error retrieving VDC: not found")
checked_vdc org (ok (some vdc)) =
    if lacks_part vdc then err (plain "error retrieving VDC: not found") else ok (org, vdc)

-- the second half of GetOrgAndVdc
unfoldable pub vdc_of_org : Cloud → String → Result Entity → Result (Entity × Entity)
unfolding checked_vdc
vdc_of_org cloud vdc_name (err e) = err e
vdc_of_org cloud vdc_name (ok org) = checked_vdc org (cloud.vdc_by_name org vdc_name)

-- errors of a search for an edge gateway
abbrev pub edge_result : Result String → Result String
edge_result (err e) = err (wrapped "unable to find edge gateway" e)
edge_result (ok edge) = ok edge

module _ (cloud : Cloud) (cli : Defaults) where
  -- GetOrgName
  unfoldable pub get_org_name : String → Result String
  get_org_name org_name =
      let name = or_default org_name cli.org in
      if name == "" then err (plain "empty Org name provided") else ok name

  -- GetOrg
  unfoldable pub get_org : String → Result Entity
  unfolding checked_org
  get_org org_name =
      let name = or_default org_name cli.org in
      if name == ""
      then err (plain "empty Org name provided")
      else checked_org name (cloud.org_by_name name)

  -- GetAdminOrg
  unfoldable pub get_admin_org : String → Result Entity
  unfolding checked_org
  get_admin_org org_name =
      let name = or_default org_name cli.org in
      if name == ""
      then err (plain "empty Org name provided")
      else checked_org name (cloud.admin_org_by_name name)

  -- GetOrgAndVdc
  unfoldable pub get_org_and_vdc : String → String → Result (Entity × Entity)
  unfolding checked_org vdc_of_org
  get_org_and_vdc org_name vdc_name =
      let org = or_default org_name cli.org in
      let vdc = or_default vdc_name cli.vdc in
      if org == ""
      then err (plain "empty Org name provided")
      else if vdc == ""
      then err (plain "empty VDC name provided")
      else vdc_of_org cloud vdc (checked_org org (cloud.org_by_name org))

  -- GetEdgeGateway
  unfoldable pub get_edge_gateway : String → String → String → Result String
  unfolding get_org_and_vdc
  get_edge_gateway org_name vdc_name edge_name =
      if edge_name == ""
      then err (plain "empty Edge Gateway name provided")
      else elim (get_org_and_vdc org_name vdc_name) [
        | err e ↦ err (wrapped "error retrieving Org and VDC" e)
        | ok (org, vdc) ↦ edge_result (cloud.edge_by_name vdc edge_name)
      ]

  -- GetNsxtEdgeGateway
  unfoldable pub get_nsxt_edge_gateway : String → String → String → Result String
  unfolding get_org_and_vdc
  get_nsxt_edge_gateway org_name vdc_name edge_name =
      if edge_name == ""
      then err (plain "empty NSX-T Edge Gateway name provided")
      else elim (get_org_and_vdc org_name vdc_name) [
        | err e ↦ err (wrapped "error retrieving Org and VDC" e)
        | ok (org, vdc) ↦ edge_result (cloud.nsxt_edge_by_name vdc edge_name)
      ]

  -- GetNsxtEdgeGatewayById
  unfoldable pub get_nsxt_edge_gateway_by_id : String → String → Result String
  unfolding get_org
  get_nsxt_edge_gateway_by_id org_name edge_id =
      if edge_id == ""
      then err (plain "empty NSX-T Edge Gateway ID provided")
      else elim (get_org org_name) [
        | err e ↦ err (wrapped "error retrieving Org" e)
        | ok org ↦ edge_result (cloud.nsxt_edge_by_id org edge_id)
      ]

  -- GetOrgFromResource
  unfoldable pub get_org_from_resource : ResourceData → Option (Result Entity)
  unfolding get_org
  get_org_from_resource d = do org ← d.field "org"; some (get_org org)

  -- GetAdminOrgFromResource
  unfoldable pub get_admin_org_from_resource : ResourceData → Option (Result Entity)
  unfolding get_admin_org
  get_admin_org_from_resource d = do org ← d.field "org"; some (get_admin_org org)

  -- GetOrgAndVdcFromResource
  unfoldable pub get_org_and_vdc_from_resource : ResourceData → Option (Result (Entity × Entity))
  unfolding get_org_and_vdc
  get_org_and_vdc_from_resource d = do
    org ← d.field "org"
    vdc ← d.field "vdc"
    some (get_org_and_vdc org vdc)

  -- GetEdgeGatewayFromResource
  unfoldable pub get_edge_gateway_from_resource : ResourceData → String → Option (Result String)
  unfolding get_edge_gateway
  get_edge_gateway_from_resource d field_name = do
    org ← d.field "org"
    vdc ← d.field "vdc"
    edge ← d.field field_name
    some (get_edge_gateway org vdc edge)

  -- GetNsxtEdgeGatewayFromResourceById
  unfoldable pub get_nsxt_edge_gateway_from_resource_by_id :
      ResourceData → String → Option (Result String)
  unfolding get_nsxt_edge_gateway_by_id
  get_nsxt_edge_gateway_from_resource_by_id d field_name = do
    org ← d.field "org"
    edge ← d.field field_name
    some (get_nsxt_edge_gateway_by_id org edge)

  -- GetOrgNameFromResource
  unfoldable pub get_org_name_from_resource : ResourceData → Option (Result String)
  unfolding get_org_name
  get_org_name_from_resource d = do org ← d.field "org"; some (get_org_name org)

  -- what getParentEdgeGatewayOwnerId gives for the answer of GetOrgFromResource
  unfoldable pub owner_in : String → Result Entity → Result String
  owner_in edge_id (err e) = err (wrapped "error retrieving Org" e)
  owner_in edge_id (ok org) = elim (cloud.owner_of_edge org edge_id) [
    | err e ↦ err (wrapped "error retrieving Edge Gateway structure" e)
    | ok owner ↦ ok owner
  ]

  -- getParentEdgeGatewayOwnerId
  unfoldable pub get_parent_edge_gateway_owner_id : ResourceData → Option (Result String)
  unfolding get_org_from_resource owner_in
  get_parent_edge_gateway_owner_id d = do
    org ← get_org_from_resource d
    edge ← d.field "edge_gateway_id"
    some (owner_in edge org)
