-- ===== src/Inventory/Counts.antt =====
-- The counters of Sync in internal/providerinventory/inventory.go, for every store.
use terraform_provider_viett.Prelude.{ℕ, ◌+◌, ◌≡◌, List, [], ◌∷◌, arith, length}
use terraform_provider_viett.Go.{Failure, wrapped, ok, err}
use terraform_provider_viett.Server.{Store}
use terraform_provider_viett.Inventory.{
  Resource, Source, SyncResult, sync_resource, sync_resources, sync,
}

abbrev total : SyncResult → ℕ
total result = result.created + result.updated + result.failed

module _ {W : Type 0} (store : Store W) (now : W → ℕ × W) where
  total-sync_resource :
      (r : Resource) (result : SyncResult) (w : W)
      → (total (sync_resource store now r result w).0 ≡ total result + 1)
        × ((sync_resource store now r result w).0.discovered ≡ result.discovered)
  unfolding sync_resource
  total-sync_resource r result w = ground arith

  total-sync_resources :
      (rs : List Resource) (result : SyncResult) (w : W)
      → (total (sync_resources store now rs result w).0 ≡ total result + length rs)
        × ((sync_resources store now rs result w).0.discovered ≡ result.discovered)
  unfolding sync_resources
  total-sync_resources [] result w = omega arith
  total-sync_resources (r ∷ rs) result w =
      let (result', w') = sync_resource store now r result w in
      omega (arith, total-sync_resource r result w, total-sync_resources rs result' w')

  -- Whatever the store answers, Sync returns a result as soon as the source lists its resources, and
  -- the result counts each resource exactly once, as created, updated or failed.
  pub sync-total :
      (source : Source W) (w : W) (rs : List Resource)
      → (source w).0 ≡ ok rs
      → (result : SyncResult) × ((sync store now source w).0 ≡ ok result)
        × (result.discovered ≡ length rs)
        × (result.created + result.updated + result.failed ≡ length rs)
  unfolding sync
  sync-total source w rs listed =
      let start : SyncResult = record {
        discovered = length rs;
        created = 0;
        updated = 0;
        failed = 0;
      } in
      let counted = total-sync_resources rs start (source w).1 in
      (
        (sync_resources store now rs start (source w).1).0,
        ground arith,
        counted.1,
        omega (arith, counted),
      )

  -- If the source fails, Sync returns its error wrapped and makes no call of the store.
  pub sync_source_fails :
      (source : Source W) (w : W) (e : Failure)
      → (source w).0 ≡ err e
      → sync store now source w ≡ (err (wrapped "discover provider resources" e), (source w).1)
  unfolding sync
  sync_source_fails source w e failed = ground arith
