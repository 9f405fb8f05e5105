-- ===== src/Inventory/Round.antt =====
-- One round of the loop of Sync in internal/providerinventory/inventory.go, in a store that fulfils
-- the contract of internal/server/model.go.
use terraform_provider_viett.Prelude.{
  ℕ, String, ◌≡◌, ◌≢◌, refl, ap, ◌∙◌, ◌⊎◌, true, false, Option, none, some, arith, ◌==◌, eq_iff,
  if◌then◌else◌, inl, inr, Bool-cases,
}
use terraform_provider_viett.Server.{Server, Store}
use terraform_provider_viett.Server.Contract.{StoreLaws, Wrote, SameRows, Assigns}
use terraform_provider_viett.Inventory.{
  Resource, SyncResult, add_created, add_updated, add_failed, is_incomplete, update_resource,
  create_resource, sync_resource,
}

-- the address and the status of a row, if there is one
abbrev pub address_of : Option Server → Option String
address_of none = none
address_of (some v) = some v.address

abbrev pub status_of : Option Server → Option String
status_of none = none
status_of (some v) = some v.status

-- the status of a resource after it was synchronised: the one that it had, or "unknown"
abbrev pub known_or_unknown : Option String → Option String
known_or_unknown none = some "unknown"
known_or_unknown (some status) = some status

-- The clock is no part of the store.
pub record ClockKeeps {W : Type 0} (rows : W → String → Option Server) (Good : W → Type 0)
    (now : W → ℕ × W) : Type 0 where
  pub same : (w : W) (j : String) → rows (now w).1 j ≡ rows w j
  pub good : (w : W) → Good w → Good (now w).1

-- A complete resource was synchronised: its address is in the store, its status is kept or
-- "unknown", and the other rows are as before.
pub record Synced {W : Type 0} (rows : W → String → Option Server) (r : Resource) (w w' : W)
    : Type 0 where
  pub address :
      (j : String)
      → address_of (rows w' j) ≡ (if r.id == j then some r.address else address_of (rows w j))
  pub status :
      (j : String)
      → status_of (rows w' j)
        ≡ (if r.id == j then known_or_unknown (status_of (rows w j)) else status_of (rows w j))

complete_parts : (r : Resource) → is_incomplete r ≡ false → r.address ≢ ""
unfolding is_incomplete
complete_parts r h e = ground (arith, eq_iff r.address "")

unknown-ne : ◌≢◌ {A = String} "unknown" ""
unknown-ne e = cc

Assigns-new : (new old got : String) → new ≢ "" → Assigns new old got → got ≡ new
Assigns-new new old got h a = ground arith

Assigns-same : (old got : String) → Assigns old old got → got ≡ old
Assigns-same old got a = ground arith

module _ {W : Type 0} (store : Store W) (now : W → ℕ × W) (rows : W → String → Option Server)
    (Good : W → Type 0) (laws : StoreLaws store rows Good) (clock : ClockKeeps rows Good now) where
  sync_present :
      (r : Resource) (result : SyncResult) (w : W) (old : Server)
      → Good w
      → is_incomplete r ≡ false
      → rows w r.id ≡ some old
      → sync_resource store now r result w
        ≡ update_resource store now r old result (store.get r.id w).1
  unfolding sync_resource
  sync_present r result w old good complete present =
      ground (arith, laws.get_found w r.id old good present)

  sync_absent :
      (r : Resource) (result : SyncResult) (w : W)
      → Good w
      → is_incomplete r ≡ false
      → rows w r.id ≡ none
      → sync_resource store now r result w ≡ create_resource store now r result (store.get r.id w).1
  unfolding sync_resource
  sync_absent r result w good complete absent =
      ground (arith, (laws.get_missing w r.id good absent).1)

  -- A written row is what `Synced` says, if its address and status are.
  Wrote-Synced :
      (r : Resource) (w w1 w' : W) (got : Server)
      → SameRows rows w w1
      → Wrote rows r.id got w1 w'
      → got.address ≡ r.address
      → some got.status ≡ known_or_unknown (status_of (rows w r.id))
      → Synced rows r w w'
  Wrote-Synced r w w1 w' got same wrote address status = record {
    address = λ j. rw (wrote.at j, same.at j) (written_address j (rows w j));
    status = λ j. rw (wrote.at j, same.at j) (written_status j (Bool-cases (r.id == j)));
  }
    where
      written_address :
          (j : String) (before : Option Server)
          → address_of (if r.id == j then some got else before)
            ≡ (if r.id == j then some r.address else address_of before)
      written_address j before = ground arith

      written_status :
          (j : String)
          → ((r.id == j) ≡ true) ⊎ ((r.id == j) ≡ false)
          → status_of (if r.id == j then some got else rows w j)
            ≡ (if r.id == j then known_or_unknown (status_of (rows w j)) else status_of (rows w j))
      written_status j (inl e) = rw e (rw (← (eq_iff r.id j).0 e) status)
      written_status j (inr e) = rw e

  pub record Step (r : Resource) (counted : SyncResult) (w : W) (end : SyncResult × W)
      : Type 0 where
    pub result : end.0 ≡ counted
    pub good : Good end.1
    pub synced : Synced rows r w end.1

  pub Step-present :
      (r : Resource) (result : SyncResult) (w : W) (old : Server)
      → Good w
      → is_incomplete r ≡ false
      → rows w r.id ≡ some old
      → Step r (add_updated result) w (sync_resource store now r result w)
  unfolding update_resource
  Step-present r result w old good complete present =
      let w1 = (store.get r.id w).1 in
      let good1 = laws.get-Good w r.id good in
      let v : Server = record old { name = r.name; address = r.address } in
      let same = laws.get-rows w r.id good in
      let (got, replied, wrote, is_update) =
        laws.update_found w1 r.id v old good1 (same.at r.id ∙ present) in
      rw (sync_present r result w old good complete present) (record {
        result = rw replied;
        good = laws.update-Good w1 r.id v good1;
        synced =
            Wrote-Synced r w w1 (store.update r.id v w1).1 got same wrote
              (Assigns-new r.address old.address got.address (complete_parts r complete)
                is_update.address)
              (rw present (ap some (Assigns-same old.status got.status is_update.status)));
      })

  pub Step-absent :
      (r : Resource) (result : SyncResult) (w : W)
      → Good w
      → is_incomplete r ≡ false
      → rows w r.id ≡ none
      → Step r (add_created result) w (sync_resource store now r result w)
  unfolding create_resource
  Step-absent r result w good complete absent =
      let w1 = (store.get r.id w).1 in
      let good1 = laws.get-Good w r.id good in
      let w2 = (now w1).1 in
      let same1 = laws.get-rows w r.id good in
      let same : SameRows rows w w2 = record { at = λ j. clock.same w1 j ∙ same1.at j } in
      let v : Server = record {
        id = r.id;
        name = r.name;
        address = r.address;
        status = "unknown";
        updated_at = (now w1).0;
      } in
      let (got, replied, wrote, is_created) =
        laws.create_new w2 v (clock.good w1 good1) (same.at r.id ∙ absent) in
      rw (sync_absent r result w good complete absent) (record {
        result = rw replied;
        good = laws.create-Good w2 v (clock.good w1 good1);
        synced =
            Wrote-Synced r w w2 (store.create v w2).1 got same wrote is_created.address
              (rw absent (ap some (is_created.status unknown-ne)));
      })

  -- One round of the loop, on each branch.
  pub step_incomplete :
      (r : Resource) (result : SyncResult) (w : W)
      → is_incomplete r ≡ true
      → sync_resource store now r result w ≡ (add_failed result, w)
  unfolding sync_resource
  step_incomplete r result w incomplete = rw incomplete

  pub Step-complete :
      (r : Resource) (result : SyncResult) (w : W)
      → Good w
      → is_incomplete r ≡ false
      → (counted : SyncResult) × Step r counted w (sync_resource store now r result w)
  Step-complete r result w good complete = branch (rows w r.id) refl
    where
      branch :
          (before : Option Server)
          → rows w r.id ≡ before
          → (counted : SyncResult) × Step r counted w (sync_resource store now r result w)
      branch none absent = (add_created result, Step-absent r result w good complete absent)
      branch (some old) present =
          (add_updated result, Step-present r result w old good complete present)
