-- ===== src/Tests/Locks.antt =====
-- vcd/mutexkv.go with two goroutines that want one key, and the lock of an edge gateway's owner.
use terraform_provider_viett.Prelude.{
  String, ◌≡◌, ◌≢◌, refl, none, some, ◌==◌, if◌then◌else◌, arith, eq_iff,
}
use terraform_provider_viett.Go.{ok}
use terraform_provider_viett.Go.Dict
use terraform_provider_viett.Vcd.Lookup.{
  ResourceData, Defaults, Cloud, get_parent_edge_gateway_owner_id,
}
use terraform_provider_viett.Vcd.Locks.Keys.{
  locks_key, unlocks_key, lock_owner, lock_parent_vdc_group_or_edge_gateway,
}
use terraform_provider_viett.Vcd.Locks.Parents.{lock_parent_releases}
use terraform_provider_viett.Vcd.Locks.{
  System, new_mutex_kv, idle, holding, look_up, take_lock, Reachable, start, after, looks_up, locks,
}
use terraform_provider_viett.Vcd.Locks.Exclusion.{Reachable-exclusive}

abbrev quiet : System
quiet = record { kv = new_mutex_kv; phases = λ a. idle }

abbrev first_waits : System
first_waits = look_up 0 "vapp" quiet

abbrev both_wait : System
both_wait = look_up 1 "vapp" first_waits

abbrev first_holds : System
first_holds = take_lock 0 "vapp" 0 both_wait

first_holds-Reachable : Reachable first_holds
unfolding look_up take_lock new_mutex_kv Dict.get Dict.put
first_holds-Reachable =
    after
      (after (after (start quiet refl (λ a. refl)) (looks_up 0 "vapp" refl))
        (looks_up 1 "vapp" refl))
      (locks 0 "vapp" 0 refl refl)

Reachable-exclusive_example : first_holds.phases 1 ≢ holding "vapp"
unfolding take_lock
Reachable-exclusive_example =
    Reachable-exclusive first_holds-Reachable 0 1 "vapp" (ground arith) refl

-- an edge gateway in a VDC group, in a cloud whose answers are constant
abbrev group_cloud : Cloud
group_cloud = record {
  org_by_name = λ name. ok (record { name = "acme"; href = "https://vcd/org"; id = "1" });
  admin_org_by_name = λ name. ok (record { name = "acme"; href = "https://vcd/org"; id = "1" });
  vdc_by_name = λ org name. ok none;
  edge_by_name = λ vdc name. ok "edge";
  nsxt_edge_by_name = λ vdc name. ok "edge";
  nsxt_edge_by_id = λ org id. ok id;
  owner_of_edge = λ org id. ok "group";
  owner_is_vdc_group = λ id. id == "group";
}

abbrev nat_rule : ResourceData
nat_rule = record {
  id = "nat";
  field = λ name. some (if name == "edge_gateway_id" then "edge" else "acme");
}

abbrev provider : Defaults
provider = record { org = "acme"; vdc = "main" }

lock_parent_releases_example :
    (key : String) × (locks_key "group" ≡ locks_key key)
    × (some (unlocks_key "group") ≡ some (unlocks_key key))
unfolding lock_parent_vdc_group_or_edge_gateway get_parent_edge_gateway_owner_id lock_owner
lock_parent_releases_example =
    lock_parent_releases provider nat_rule "edge" group_cloud group_cloud (locks_key "group")
      (λ later. some (unlocks_key "group")) refl (ground (arith, eq_iff "edge" "")) refl
