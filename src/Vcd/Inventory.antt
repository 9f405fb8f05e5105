-- ===== src/Vcd/Inventory.antt =====
-- vcd/monitoring_inventory.go: the deployed virtual machines as resources of the monitoring inventory.
-- The VCD client and net.JoinHostPort are parameters.
use Prim.Native.String.{◌++◌ as append_text}
use terraform_provider_viett.Prelude.{
  String, Option, none, some, List, [], ◌∷◌, ◌==◌, ◌||◌, if◌then◌else◌,
}
use terraform_provider_viett.Go.{Failure, nil_client, wrapped, ok, err, Act}
use terraform_provider_viett.Inventory.{Resource}
use terraform_provider_viett.Vcd.Structure.{extract_uuid}

-- the fields of types.QueryResultVMRecordType that are read
pub record VmRecord : Type 0 where
  pub id : String
  pub href : String
  pub name : String
  pub ip_address : String

-- (*VCDClient).GetOrgAndVdc gives a virtual data center, whose QueryVmList gives pointers to records
pub record VcdClient (W : Type 0) : Type 1 where
  pub Vdc : Type 0
  pub get_org_and_vdc : String → String → Act W Vdc
  pub query_vm_list : Vdc → Act W (List (Option VmRecord))

pub record VcdInventorySource : Type 0 where
  pub org : String
  pub vdc : String
  pub port : String

module _ (find_uuids : String → List String) (join_host_port : String → String → String) where
  -- the id of a virtual machine, or one made from its HREF
  unfoldable pub vm_id : VmRecord → String
  unfolding extract_uuid
  vm_id vm =
      if vm.id == "" then append_text "urn:vcloud:vm:" (extract_uuid find_uuids vm.href) else vm.id

  -- monitoringResourceFromVM: `none` for its second result false
  unfoldable pub monitoring_resource_from_vm : Option VmRecord → String → Option Resource
  unfolding vm_id
  monitoring_resource_from_vm none port = none
  monitoring_resource_from_vm (some vm) port =
      if (vm.href == "") || (vm.name == "") || (vm.ip_address == "")
      then none
      else some (record {
        id = vm_id vm;
        name = vm.name;
        address = join_host_port vm.ip_address (if port == "" then "22" else port);
        kind = "vcd_vm";
      })

  -- the loop of ListResources
  unfoldable pub convert_records : String → List (Option VmRecord) → List Resource
  unfolding monitoring_resource_from_vm
  convert_records port [] = []
  convert_records port (record' ∷ records) =
      let rest = convert_records port records in
      elim (monitoring_resource_from_vm record' port) [
        | none ↦ rest
        | some resource ↦ resource ∷ rest
      ]

  -- VCDInventorySource.ListResources; the client is a pointer that may be nil
  unfoldable pub list_resources :
      {W : Type 0}
      → (W → Option Failure)
      → VcdInventorySource
      → Option (VcdClient W)
      → Act W (List Resource)
  unfolding convert_records
  list_resources ctx_err s client w = elim (ctx_err w) [
    | some e ↦ (err e, w)
    | none ↦ elim client [
      | none ↦ (err nil_client, w)
      | some c ↦
          let (vdc, w') = c.get_org_and_vdc s.org s.vdc w in
          elim vdc [
            | err e ↦ (err (wrapped "resolve provider org/vdc" e), w')
            | ok v ↦
                let (records, w'') = c.query_vm_list v w' in
                elim records [
                  | err e ↦ (err (wrapped "query deployed VMs" e), w'')
                  | ok rs ↦ (ok (convert_records s.port rs), w'')
                ]
          ]
    ]
  ]
