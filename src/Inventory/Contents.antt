-- ===== src/Inventory/Contents.antt =====
-- What Sync in internal/providerinventory/inventory.go leaves in a store that fulfils the contract
-- of internal/server/model.go.
use terraform_provider_viett.Prelude.{
  ℕ, String, ◌≡◌, refl, Option, none, some, List, [], ◌∷◌, arith, ◌==◌, if◌then◌else◌, inl, inr,
  Bool-cases, length,
}
use terraform_provider_viett.Go.{ok}
use terraform_provider_viett.Server.{Server, Store}
use terraform_provider_viett.Server.Contract.{StoreLaws}
use terraform_provider_viett.Inventory.{
  Resource, Source, SyncResult, add_failed, is_incomplete, sync_resource, sync_resources, sync,
}
use terraform_provider_viett.Inventory.Round.{
  address_of, status_of, known_or_unknown, ClockKeeps, step_incomplete, Step-complete,
}

-- the last complete resource with an id
unfoldable pub last_complete : String → List Resource → Option Resource
last_complete id [] = none
last_complete id (r ∷ rs) = elim (last_complete id rs) [
  | some later ↦ some later
  | none ↦ if is_incomplete r then none else (if r.id == id then some r else none)
]

abbrev pub address_after : Option Resource → Option Server → Option String
address_after none before = address_of before
address_after (some r) before = some r.address

abbrev pub status_after : Option Resource → Option Server → Option String
status_after none before = status_of before
status_after (some r) before = known_or_unknown (status_of before)

module _ {W : Type 0} (store : Store W) (now : W → ℕ × W) (rows : W → String → Option Server)
    (Good : W → Type 0) (laws : StoreLaws store rows Good) (clock : ClockKeeps rows Good now) where
  pub record Ends (id : String) (rs : List Resource) (w w' : W) : Type 0 where
    pub good : Good w'
    pub address : address_of (rows w' id) ≡ address_after (last_complete id rs) (rows w id)
    pub status : status_of (rows w' id) ≡ status_after (last_complete id rs) (rows w id)

  pub sync_resources-Ends :
      (id : String) (rs : List Resource) (result : SyncResult) (w : W)
      → Good w
      → Ends id rs w (sync_resources store now rs result w).1
  unfolding sync_resources last_complete
  sync_resources-Ends id [] result w good = record { good = good; address = refl; status = refl }
  sync_resources-Ends id (r ∷ rs) result w good = elim (Bool-cases (is_incomplete r)) [
    | inl incomplete ↦
        let rest = sync_resources-Ends id rs (add_failed result) w good in
        rw (step_incomplete store now rows Good laws clock r result w incomplete, sync_resources)
          (record {
            good = rest.good;
            address = ground (arith, rest.address);
            status = ground (arith, rest.status);
          })
    | inr complete ↦
        let (counted, step) =
          Step-complete store now rows Good laws clock r result w good complete in
        let w1 = (sync_resource store now r result w).1 in
        let rest = sync_resources-Ends id rs (sync_resource store now r result w).0 w1 step.good in
        record {
          good = rest.good;
          address = ground (arith, rest.address, step.synced.address id);
          status = ground (arith, rest.status, step.synced.status id);
        }
  ]

  -- In a state in which the store answers as its contract says, with a clock whose reading leaves
  -- the store alone, and with a source that lists its resources: after Sync, for every id, the
  -- store has the address of the last complete resource with that id that was listed, and the
  -- status that it had before, or "unknown" if it had no such row. Rows of other ids keep their
  -- address and status.
  pub sync-contents :
      (source : Source W) (w : W) (rs : List Resource) (id : String)
      → (source w).0 ≡ ok rs
      → Good (source w).1
      → (address_of (rows (sync store now source w).1 id)
          ≡ address_after (last_complete id rs) (rows (source w).1 id))
        × (status_of (rows (sync store now source w).1 id)
            ≡ status_after (last_complete id rs) (rows (source w).1 id))
  unfolding sync
  sync-contents source w rs id listed good =
      let start : SyncResult = record {
        discovered = length rs;
        created = 0;
        updated = 0;
        failed = 0;
      } in
      let ends = sync_resources-Ends id rs start (source w).1 good in
      rw (listed, sync) (ends.address, ends.status)
