-- ===== src/Inventory/Twice.antt =====
-- A second run of Sync in internal/providerinventory/inventory.go over the same resources.
use terraform_provider_viett.Prelude.{
  ℕ, suc, ◌+◌, String, ◌≡◌, ◌≢◌, refl, false, Option, none, some, List, [], ◌∷◌, arith, eq_refl,
  if◌then◌else◌, inl, inr, Bool-cases, length, All, All-map,
}
use terraform_provider_viett.Go.{ok}
use terraform_provider_viett.Server.{Server, Store}
use terraform_provider_viett.Server.Contract.{StoreLaws}
use terraform_provider_viett.Inventory.{
  Resource, Source, SyncResult, add_failed, add_updated, is_incomplete, static_source,
  sync_resource, sync_resources, sync,
}
use terraform_provider_viett.Inventory.Round.{
  status_of, ClockKeeps, Step, step_incomplete, Step-present,
}
use terraform_provider_viett.Inventory.Contents.{last_complete, status_after, sync_resources-Ends}

-- how many resources have no id or no address
unfoldable pub incomplete_count : List Resource → ℕ
incomplete_count [] = 0
incomplete_count (r ∷ rs) =
    if is_incomplete r then suc (incomplete_count rs) else incomplete_count rs

-- every complete resource of the list is the last one of its id, or has one after it
abbrev IsListed : List Resource → Resource → Type 0
IsListed all r = is_incomplete r ≡ false → last_complete r.id all ≢ none

IsListed-later :
    (x : Resource) (all : List Resource) (r : Resource) → IsListed all r → IsListed (x ∷ all) r
unfolding last_complete
IsListed-later x all r h complete = ground (arith, h complete)

IsListed-here : (r : Resource) (rs : List Resource) → IsListed (r ∷ rs) r
unfolding last_complete
IsListed-here r rs complete = ground (arith, eq_refl r.id)

All-IsListed : (rs : List Resource) → All (IsListed rs) rs
All-IsListed [] = tt
All-IsListed (r ∷ rs) = (
  IsListed-here r rs,
  All-map (IsListed rs) (IsListed (r ∷ rs)) rs (IsListed-later r rs) (All-IsListed rs),
)

module _ {W : Type 0} (store : Store W) (now : W → ℕ × W) (rows : W → String → Option Server)
    (Good : W → Type 0) (laws : StoreLaws store rows Good) (clock : ClockKeeps rows Good now) where
  abbrev HasRow : W → Resource → Type 0
  HasRow w r = is_incomplete r ≡ false → status_of (rows w r.id) ≢ none

  row_of_status :
      (w : W) (id : String) → status_of (rows w id) ≢ none → (old : Server) × (rows w id ≡ some old)
  row_of_status w id h = ground arith

  HasRow_after :
      (w : W) (x : Resource) (rs : List Resource) (before : Option Server)
      → last_complete x.id rs ≢ none
      → status_of (rows w x.id) ≡ status_after (last_complete x.id rs) before
      → status_of (rows w x.id) ≢ none
  HasRow_after w x rs before later status = ground arith

  HasRow-Step :
      (r : Resource) (counted : SyncResult) (w : W) (end : SyncResult × W) (x : Resource)
      → Step store now rows Good laws clock r counted w end
      → HasRow w x
      → HasRow end.1 x
  HasRow-Step r counted w end x step h complete =
      ground (arith, step.synced.status x.id, h complete)

  second_run :
      (rs : List Resource) (result : SyncResult) (w : W)
      → Good w
      → All (HasRow w) rs
      → ((sync_resources store now rs result w).0.created ≡ result.created)
        × ((sync_resources store now rs result w).0.failed ≡ result.failed + incomplete_count rs)
  unfolding sync_resources incomplete_count
  second_run [] result w good present = omega arith
  second_run (r ∷ rs) result w good present = elim (Bool-cases (is_incomplete r)) [
    | inl incomplete ↦
        rw (step_incomplete store now rows Good laws clock r result w incomplete, sync_resources)
          (ground (arith, second_run rs (add_failed result) w good present.1))
    | inr complete ↦
        let (old, row) = row_of_status w r.id (present.0 complete) in
        let step = Step-present store now rows Good laws clock r result w old good complete row in
        let (result', w') = sync_resource store now r result w in
        let rest = second_run rs result' w' step.good (
          All-map (HasRow w) (HasRow w') rs
            (λ x. HasRow-Step r (add_updated result) w (result', w') x step) present.1) in
        ground (arith, rest, step.result)
  ]

  -- Under the same conditions (a store that answers as its contract says, a clock that leaves it
  -- alone, a source that lists its resources), Sync over the listed resources a second time
  -- creates no server and counts exactly the incomplete resources as failed.
  pub sync_twice :
      (source : Source W) (w : W) (rs : List Resource)
      → (source w).0 ≡ ok rs
      → Good (source w).1
      → (result : SyncResult) × ((sync store now (static_source rs) (sync store now source w).1).0
          ≡ ok result)
        × (result.created ≡ 0)
        × (result.failed ≡ incomplete_count rs)
  unfolding sync static_source
  sync_twice source w rs listed good =
      let start : SyncResult = record {
        discovered = length rs;
        created = 0;
        updated = 0;
        failed = 0;
      } in
      let w1 = (sync_resources store now rs start (source w).1).1 in
      let ends = λ (x : Resource).
        sync_resources-Ends store now rows Good laws clock x.id rs start (source w).1 good in
      let rest =
        second_run rs start w1
          (sync_resources-Ends store now rows Good laws clock "" rs start (source w).1 good).good
          (All-map (IsListed rs) (HasRow w1) rs
            (λ x later complete.
              HasRow_after w1 x rs (rows (source w).1 x.id) (later complete) (ends x).status)
            (All-IsListed rs)) in
      rw (listed, sync)
        ((sync_resources store now rs start w1).0, refl, rest.0, omega (arith, rest))
