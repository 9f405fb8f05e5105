-- ===== src/Inventory.antt =====
-- internal/providerinventory: the synchronisation of a provider's resources into the store of
-- monitored servers (inventory.go) and the fixed source of resources (static.go).
pub mod Counts
pub mod Round
pub mod Contents
pub mod Twice
use terraform_provider_viett.Prelude.{
  ℕ, ◌+◌, String, Bool, Option, none, some, List, [], ◌∷◌, ◌==◌, ◌||◌, length, if◌then◌else◌,
}
use terraform_provider_viett.Go.{Failure, wrapped, Result, ok, err, Act}
use terraform_provider_viett.Server.{Server, Store}

pub record Resource : Type 0 where
  pub id : String
  pub name : String
  pub address : String
  pub kind : String

-- the interface Source
abbrev pub Source : Type 0 → Type 0
Source W = Act W (List Resource)

-- StaticSource.ListResources
unfoldable pub static_source : {W : Type 0} → List Resource → Source W
static_source resources w = (ok resources, w)

pub record SyncResult : Type 0 where
  pub discovered : ℕ
  pub created : ℕ
  pub updated : ℕ
  pub failed : ℕ

-- the guard of the loop in Sync
unfoldable pub is_incomplete : Resource → Bool
is_incomplete r = (r.id == "") || (r.address == "")

abbrev pub add_failed : SyncResult → SyncResult
add_failed result = record result { failed = result.failed + 1 }

abbrev pub add_updated : SyncResult → SyncResult
add_updated result = record result { updated = result.updated + 1 }

abbrev pub add_created : SyncResult → SyncResult
add_created result = record result { created = result.created + 1 }

-- `count` for an `ok`, `add_failed` for an error
abbrev pub count_or_failed : Result Server → (SyncResult → SyncResult) → SyncResult → SyncResult
count_or_failed (ok _) count result = count result
count_or_failed (err _) count result = add_failed result

-- `now` is time.Now() at the moment of the call
module _ {W : Type 0} (store : Store W) (now : W → ℕ × W) where
  unfoldable pub update_resource : Resource → Server → SyncResult → W → SyncResult × W
  update_resource r current result w =
      let (out, w') = store.update r.id (record current { name = r.name; address = r.address }) w in
      (count_or_failed out add_updated result, w')

  unfoldable pub create_resource : Resource → SyncResult → W → SyncResult × W
  create_resource r result w =
      let (t, w') = now w in
      let (out, w'') =
        store.create
          (record {
            id = r.id;
            name = r.name;
            address = r.address;
            status = "unknown";
            updated_at = t;
          })
          w' in
      (count_or_failed out add_created result, w'')

  -- one round of the loop in Sync
  unfoldable pub sync_resource : Resource → SyncResult → W → SyncResult × W
  unfolding is_incomplete update_resource create_resource
  sync_resource r result w =
      if is_incomplete r
      then (add_failed result, w)
      else (let (current, w') = store.get r.id w in
          elim current [
            | ok v ↦ update_resource r v result w'
            | err _ ↦ create_resource r result w'
          ])

  unfoldable pub sync_resources : List Resource → SyncResult → W → SyncResult × W
  sync_resources [] result w = (result, w)
  sync_resources (r ∷ rs) result w =
      let (result', w') = sync_resource r result w in sync_resources rs result' w'

  -- Sync
  unfoldable pub sync : Source W → Act W SyncResult
  sync source w =
      let (listed, w') = source w in
      elim listed [
        | err e ↦ (err (wrapped "discover provider resources" e), w')
        | ok resources ↦
            let (result, w'') =
              sync_resources resources
                (record { discovered = length resources; created = 0; updated = 0; failed = 0 })
                w' in
            (ok result, w'')
      ]
