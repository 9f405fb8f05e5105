-- ===== src/Tests/Connection.antt =====
-- Config.Client of vcd/config.go with a server that takes every password; a session is the name of its
-- user, and each call takes one unit of time.
use terraform_provider_viett.Prelude.{ℕ, ◌+◌, String, ◌≡◌, refl, true, false, [], ◌∷◌, arith}
use terraform_provider_viett.Go.{ok}
use terraform_provider_viett.Go.Dict
use terraform_provider_viett.Vcd.Connection.{
  ClientConfig, Govcd, VcdClient, CachedConnection, CacheStorage, checksum, client, raw_data,
}
use terraform_provider_viett.Vcd.Connection.Served.{IsServed, client-IsServed, client-reused}

abbrev open_cloud : Govcd ℕ String String String
open_cloud = record {
  parse_request_uri = λ s. ok s;
  sha256 = λ s. s;
  to_lower = λ s. s;
  now = λ w. w;
  build_version = "v1";
  goos = "linux";
  goarch = "amd64";
  new_vcd_client = λ options. "";
  set_service_account_api_token = λ session org file w. (ok file, w + 1);
  set_api_token_from_file = λ session org file w. (ok file, w + 1);
  set_token = λ session org header token w. (ok token, w + 1);
  authenticate = λ session user password org w. (ok user, w + 1);
}

abbrev acme : ClientConfig String
acme = record {
  user = "eve";
  password = "secret";
  token = "";
  api_token = "";
  api_token_file = "";
  service_account_token_file = "";
  sys_org = "System";
  org = "acme";
  vdc = "main";
  href = "https://vcd/api";
  max_retry_timeout = 60;
  insecure_flag = false;
  use_saml_adfs = false;
  custom_adfs_rpt_id = "";
  ignored_metadata = [];
}

-- another default organisation, and nothing else
abbrev umbrella : ClientConfig String
umbrella = record acme { org = "umbrella" }

abbrev acme_client : VcdClient String
acme_client = record {
  session = "eve";
  sys_org = "System";
  org = "acme";
  vdc = "main";
  max_retry_timeout = 60;
  insecure_flag = false;
}

abbrev no_connections : CacheStorage String
no_connections = record { con_map = []; served_count = 0 }

abbrev one_connection : CacheStorage String
one_connection = record {
  con_map = (checksum open_cloud acme, record { init_time = 8; connection = acme_client }) ∷ [];
  served_count = 0;
}

connected : client open_cloud true acme no_connections 7 ≡ (ok acme_client, one_connection, 8)
unfolding client checksum Dict.get Dict.put
connected = refl

client-IsServed_example :
    (entry : CachedConnection String) × IsServed open_cloud
      (checksum open_cloud acme)
      acme_client
      one_connection
      8
      entry
client-IsServed_example =
    client-IsServed open_cloud true acme no_connections one_connection 7 8 acme_client connected

client-reused_example :
    (client open_cloud true umbrella one_connection 9
      ≡ (ok acme_client, record one_connection { served_count = 1 }, 9))
    × (acme_client.org ≡ acme.org)
    × (acme_client.insecure_flag ≡ acme.insecure_flag)
unfolding raw_data Dict.get
client-reused_example =
    client-reused open_cloud acme umbrella no_connections one_connection 7 8 9 acme_client refl
      connected refl (ground arith)
