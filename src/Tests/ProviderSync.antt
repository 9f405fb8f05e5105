-- ===== src/Tests/ProviderSync.antt =====
-- cmd/provider-sync/main.go with an empty environment, a store in memory and no Redis.
use terraform_provider_viett.Prelude.{◌+◌, ◌≡◌, refl, false, none, some, List, [], ◌∷◌}
use terraform_provider_viett.Go.{external, ok, err}
use terraform_provider_viett.Go.Dict
use terraform_provider_viett.Server.{
  MemoryStore, memory_store, memory_create, memory_get, memory_update,
}
use terraform_provider_viett.Cache
use terraform_provider_viett.Inventory.{
  Resource, SyncResult, static_source, sync, sync_resource, sync_resources,
}
use terraform_provider_viett.ProviderSync.{Platform, synchronized, main}
use terraform_provider_viett.ProviderSync.Counters.{Runs, main_synchronized}

abbrev machines : List Resource
machines =
    record { id = "vm-1"; name = "web"; address = "10.0.0.1:22"; kind = "vcd_vm" }
    ∷ record { id = "vm-2"; name = "db"; address = ""; kind = "vcd_vm" }
    ∷ record { id = "vm-1"; name = "web"; address = "10.0.0.9:22"; kind = "vcd_vm" }
    ∷ []

abbrev test_platform : Platform MemoryStore (Unit {0})
test_platform = record {
  getenv = λ key. "";
  open_database = λ url s. (none, s);
  ensure_schema = λ s. (none, s);
  postgres_store = memory_store;
  redis = λ address. record {
    read = λ k s. (err (external "refused"), s);
    write = λ k b ttl s. (some (external "refused"), s);
    drop = λ k s. (some (external "refused"), s);
    check = λ s. (some (external "refused"), s);
  };
  codec = record { encode = λ v. err (external "json"); decode = λ b. err (external "json") };
  parse_bool = λ text. ok false;
  login = λ cfg s. (ok tt, s);
  inventory = λ client org vdc port. static_source machines;
  now = λ s. (s.times s.reads, record s { reads = s.reads + 1 });
}

abbrev no_servers : MemoryStore
no_servers = record { data_by_id = []; times = λ n. n + 1; reads = 0 }

abbrev counted : SyncResult
counted = record { discovered = 3; created = 1; updated = 1; failed = 1 }

ends_well : (main test_platform no_servers).0 ≡ synchronized counted
unfolding main sync sync_resources sync_resource static_source Cache.create Cache.get Cache.update
    memory_create memory_get memory_update Dict.get Dict.put
ends_well = refl

main_synchronized_example :
    Runs test_platform no_servers counted (main test_platform no_servers).1
    × (counted.created + counted.updated + counted.failed ≡ counted.discovered)
main_synchronized_example = main_synchronized test_platform no_servers counted ends_well
