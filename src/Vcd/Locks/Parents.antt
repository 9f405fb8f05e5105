-- ===== src/Vcd/Locks/Parents.antt =====
-- How the keys of the lock functions of vcd/config.go fit together.
use terraform_provider_viett.Prelude.{
  ◌≡◌, ◌≢◌, refl, String, Bool, true, false, Option, none, some, ==-ne,
}
use mathlib.Core.Path.{subst}
use terraform_provider_viett.Go.{Result, ok, err}
use terraform_provider_viett.Vcd.Lookup.{
  ResourceData, Defaults, Cloud, ◌>>=◌, get_parent_edge_gateway_owner_id,
}
use terraform_provider_viett.Vcd.Locks.Keys.{
  KeyUse, locks_key, unlocks_key, lock_vapp, lock_parent_vapp, edge_key, lock_parent_edge_gtw,
  unlock_parent_edge_gtw, lock_owner, lock_parent_vdc_group_or_edge_gateway, field_vapp, named_vapp,
  org_name, vdc_name,
}

-- A vApp and a resource inside it, which names it in vapp_name, lock the same key when their organisation
-- and virtual data center are the same, each given or taken from the provider.
pub lock_parent_vapp-lock_vapp :
    (cloud : Cloud) (cli : Defaults) (child vapp : ResourceData)
    → child.field "vapp_name" ≡ vapp.field "name"
    → org_name cloud cli child ≡ org_name cloud cli vapp
    → vdc_name cloud cli child ≡ vdc_name cloud cli vapp
    → lock_parent_vapp cloud cli child ≡ lock_vapp cloud cli vapp
unfolding lock_parent_vapp lock_vapp field_vapp named_vapp
lock_parent_vapp-lock_vapp cloud cli child vapp name org vdc = rw (name, org, vdc)

module _ (cli : Defaults) (d : ResourceData) (id : String) where
  edge_key_by_id :
      (cloud : Cloud)
      → d.field "edge_gateway_id" ≡ some id
      → id ≢ ""
      → edge_key cloud cli d ≡ some id
  unfolding edge_key
  edge_key_by_id cloud h filled = rw (h, ==-ne id "" filled) refl

  -- what the locking of an owner gives, for either kind of owner
  abbrev IsReleased : Cloud → Option (Result (KeyUse × (Cloud → Option KeyUse))) → Type 0
  IsReleased later none = Unit
  IsReleased later (some (err e)) = Unit
  IsReleased later (some (ok (key_use, release))) =
      (key : String) × (key_use ≡ locks_key key) × (release later ≡ some (unlocks_key key))

  lock_owner-IsReleased :
      (cloud later : Cloud) (found : Result String)
      → d.field "edge_gateway_id" ≡ some id
      → id ≢ ""
      → IsReleased later (lock_owner cloud cli d found)
  unfolding lock_owner lock_parent_edge_gtw unlock_parent_edge_gtw
  lock_owner-IsReleased cloud later (err e) h filled = tt
  lock_owner-IsReleased cloud later (ok owner) h filled =
      by_kind (cloud.owner_is_vdc_group owner) refl
    where
      by_kind :
          (b : Bool)
          → cloud.owner_is_vdc_group owner ≡ b
          → IsReleased later (lock_owner cloud cli d (ok owner))
      by_kind true e = rw e (owner, refl, refl)
      by_kind false e =
          rw (e, edge_key_by_id cloud h filled, edge_key_by_id later h filled) (id, refl, refl)

  -- lockParentVdcGroupOrEdgeGateway of a resource with an edge_gateway_id: when it gives a function to
  -- release the lock, it has locked some key, and that function unlocks the same key, whatever has happened
  -- in the cloud in the meantime.
  pub lock_parent_releases :
      (cloud later : Cloud) (key_use : KeyUse) (release : Cloud → Option KeyUse)
      → d.field "edge_gateway_id" ≡ some id
      → id ≢ ""
      → lock_parent_vdc_group_or_edge_gateway cloud cli d ≡ some (ok (key_use, release))
      → (key : String) × (key_use ≡ locks_key key) × (release later ≡ some (unlocks_key key))
  unfolding lock_parent_vdc_group_or_edge_gateway
  lock_parent_releases cloud later key_use release h filled locked =
      subst (IsReleased later) locked (by_owner (get_parent_edge_gateway_owner_id cloud cli d))
    where
      by_owner : (o : Option (Result String)) → IsReleased later (o >>= lock_owner cloud cli d)
      by_owner none = tt
      by_owner (some found) = lock_owner-IsReleased cloud later found h filled
