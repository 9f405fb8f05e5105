-- ===== src/Monitoring/Single.antt =====
-- Check of internal/monitoring/checker.go: the result for one target.
use terraform_provider_viett.Prelude.{String, ◌≡◌, true, false, none, some, arith}
use terraform_provider_viett.Go.{Failure}
use terraform_provider_viett.Monitoring.{Checker, Network, check, host_of}

module _ {W : Type 0} (network : Network W) where
  -- The result of a check carries the id of its target; the target is up exactly if the connection to
  -- its host was made, and then there is no error; otherwise the error is that of the connection.
  pub check_lem :
      (c : Checker) (id address : String) (w : W)
      → let (r, _) = check network c id address w in
        let dialled =
          (network.dial c.timeout (host_of network.parse_host address) (network.now w).1).0 in
        (r.server_id ≡ id)
        × ((dialled ≡ none → (r.up ≡ true) × (r.error ≡ ""))
            × ((e : Failure) → dialled ≡ some e → (r.up ≡ false) × (r.error ≡ network.message e)))
  unfolding check
  check_lem c id address w = (ground arith, ((λ h. ground arith), (λ e h. ground arith)))
