-- ===== src/Tests/Inventory.antt =====
-- internal/providerinventory at a concrete inventory, over the store in memory.
use terraform_provider_viett.Prelude.{ℕ, ◌+◌, ◌≡◌, refl, List, [], ◌∷◌, length}
use terraform_provider_viett.Go.{ok}
use terraform_provider_viett.Server.{Server, MemoryStore, memory_store}
use terraform_provider_viett.Server.Memory.{
  memory_rows, Always, Gets, Updates, Creates, memory_store-laws, memory_store_lem,
}
use terraform_provider_viett.Inventory.{Resource, SyncResult, static_source, sync}
use terraform_provider_viett.Inventory.Counts.{sync-total}
use terraform_provider_viett.Inventory.Round.{ClockKeeps, address_of, status_of}
use terraform_provider_viett.Inventory.Contents.{
  last_complete, address_after, status_after, sync-contents,
}
use terraform_provider_viett.Inventory.Twice.{incomplete_count, sync_twice}

-- one complete resource, one without an address, and the first one again at a new address
abbrev found : List Resource
found =
    record { id = "vm-1"; name = "web"; address = "10.0.0.1"; kind = "vm" }
    ∷ record { id = "vm-2"; name = "db"; address = ""; kind = "vm" }
    ∷ record { id = "vm-1"; name = "web"; address = "10.0.0.9"; kind = "vm" }
    ∷ []

abbrev empty_store : MemoryStore
empty_store = record { data_by_id = []; times = λ n. n + 1; reads = 0 }

abbrev test_now : MemoryStore → ℕ × MemoryStore
test_now s = (s.times s.reads, record s { reads = s.reads + 1 })

clock_keeps : ClockKeeps memory_rows Always test_now
clock_keeps = record { same = λ s j. refl; good = λ s g. tt }

listed : (static_source found empty_store).0 ≡ ok found
unfolding static_source
listed = refl

sync-total_example :
    (result : SyncResult) × ((sync memory_store test_now (static_source found) empty_store).0
      ≡ ok result)
    × (result.discovered ≡ length found)
    × (result.created + result.updated + result.failed ≡ length found)
sync-total_example = sync-total memory_store test_now (static_source found) empty_store found listed

abbrev synced : MemoryStore
synced = (sync memory_store test_now (static_source found) empty_store).1

sync-contents_example :
    (address_of (memory_rows synced "vm-1")
      ≡ address_after
          (last_complete "vm-1" found)
          (memory_rows (static_source found empty_store).1 "vm-1"))
    × (status_of (memory_rows synced "vm-1")
        ≡ status_after
            (last_complete "vm-1" found)
            (memory_rows (static_source found empty_store).1 "vm-1"))
sync-contents_example =
    sync-contents memory_store test_now memory_rows Always memory_store-laws clock_keeps
      (static_source found) empty_store found "vm-1" listed tt

sync_twice_example :
    (result : SyncResult) × ((sync memory_store test_now (static_source found) synced).0
      ≡ ok result)
    × (result.created ≡ 0)
    × (result.failed ≡ incomplete_count found)
sync_twice_example =
    sync_twice memory_store test_now memory_rows Always memory_store-laws clock_keeps
      (static_source found) empty_store found listed tt

abbrev one_server : MemoryStore
one_server = record {
  data_by_id =
      (
        "vm-1",
        record { id = "vm-1"; name = "web"; address = "10.0.0.1"; status = "up"; updated_at = 3 },
      )
      ∷ [];
  times = λ n. n + 7;
  reads = 1;
}

abbrev moved : Server
moved = record { id = "other"; name = "web"; address = "10.0.0.9"; status = ""; updated_at = 0 }

memory_store_lem_example :
    Gets one_server (memory_rows one_server "vm-1") (memory_store.get "vm-1" one_server)
    × Updates one_server "vm-1" moved
        (memory_rows one_server "vm-1")
        (memory_store.update "vm-1" moved one_server)
    × Creates one_server moved
        (memory_rows one_server "other")
        (memory_store.create moved one_server)
memory_store_lem_example = memory_store_lem one_server "vm-1" moved
