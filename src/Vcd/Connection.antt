-- ===== src/Vcd/Connection.antt =====
-- vcd/config.go: how a configuration becomes an authenticated connection, ProviderAuthenticate and
-- Config.Client with its cache of connections. The calls of the cache's own mutex are left out: a call of
-- Client is one step. The world, which holds the clock and the answers of the server, is a parameter.
pub mod Served
use Prim.Native.String.{len, ◌++◌ as append_text}
use terraform_provider_viett.Prelude.{
  ℕ, ◌+◌, ◌-◌, ◌*◌, ◌^◌, ◌≡◌, String, Bool, true, false, Option, none, some, List, [], ◌==◌, ltb,
  if◌then◌else◌,
}
use terraform_provider_viett.Go.{Failure, wrapped, Result, ok, err, Act}
use terraform_provider_viett.Go.Dict
use terraform_provider_viett.Go.Dict.{Dict}

-- Config, over the type of govcd.IgnoredMetadata; the two settings that only suppress warnings are read by
-- no code of this part
pub record ClientConfig (I : Type 0) : Type 0 where
  pub user : String
  pub password : String
  pub token : String
  pub api_token : String
  pub api_token_file : String
  pub service_account_token_file : String
  pub sys_org : String
  pub org : String
  pub vdc : String
  pub href : String
  pub max_retry_timeout : ℕ
  pub insecure_flag : Bool
  pub use_saml_adfs : Bool
  pub custom_adfs_rpt_id : String
  pub ignored_metadata : List I

-- the arguments of govcd.NewVCDClient
pub record ClientOptions (U I : Type 0) : Type 0 where
  pub auth_url : U
  pub insecure : Bool
  pub retry_timeout : ℕ
  pub saml_adfs : Bool
  pub adfs_rpt_id : String
  pub user_agent : String
  pub ignored : List I

-- which header a token is sent in
pub data TokenHeader : Type 0 where
  api_token_header : TokenHeader
  bearer_token_header : TokenHeader
  authorization_header : TokenHeader

-- What the code calls: url.ParseRequestURI, SHA-256 in hexadecimal, strings.ToLower, time.Now in nanoseconds,
-- the version and the platform of the build, and govcd, whose sessions are of type G.
pub record Govcd (W U G I : Type 0) : Type 0 where
  pub parse_request_uri : String → Result U
  pub sha256 : String → String
  pub to_lower : String → String
  pub now : W → ℕ
  pub build_version : String
  pub goos : String
  pub goarch : String
  pub new_vcd_client : ClientOptions U I → G
  pub set_service_account_api_token : G → String → String → Act W G
  pub set_api_token_from_file : G → String → String → Act W G
  pub set_token : G → String → TokenHeader → String → Act W G
  pub authenticate : G → String → String → String → Act W G

-- VCDClient
pub record VcdClient (G : Type 0) : Type 0 where
  pub session : G
  pub sys_org : String
  pub org : String
  pub vdc : String
  pub max_retry_timeout : ℕ
  pub insecure_flag : Bool

-- cachedConnection
pub record CachedConnection (G : Type 0) : Type 0 where
  pub init_time : ℕ
  pub connection : VcdClient G

-- cacheStorage
pub record CacheStorage (G : Type 0) : Type 0 where
  pub con_map : Dict (CachedConnection G)
  pub served_count : ℕ

-- (*cacheStorage).reset
unfoldable pub reset : {G : Type 0} → CacheStorage G → CacheStorage G
reset c = record c { con_map = []; served_count = 0 }

-- maxConnectionValidity, 20 minutes
abbrev pub max_connection_validity : ℕ
max_connection_validity = 20 * 60 * 1000000000

-- the text that the fields are joined to by `#`
unfoldable pub raw_data : {I : Type 0} → ClientConfig I → String
raw_data c =
    let sep = λ (a b : String). append_text a (append_text "#" b) in
    sep c.user (
      sep c.password (
        sep c.token (
          sep c.api_token (
            sep c.api_token_file
              (sep c.service_account_token_file (sep c.sys_org (sep c.vdc c.href)))))))

module _ {W U G I : Type 0} (g : Govcd W U G I) where
  -- buildUserAgent
  unfoldable pub build_user_agent : String → String → String
  build_user_agent version sys_org =
      let is_provider = if g.to_lower sys_org == "system" then "true" else "false" in
      append_text "terraform-provider-vcd/" (
        append_text version (
          append_text " (" (
            append_text g.goos (
              append_text "/" (
                append_text g.goarch
                  (append_text "; isProvider:" (append_text is_provider ")")))))))

  abbrev token_error : Result G × W → Result G × W
  token_error (err e, w) = (err (wrapped "error during token-based authentication" e), w)
  token_error (ok session, w) = (ok session, w)

  -- ProviderAuthenticate
  unfoldable pub provider_authenticate : G → ClientConfig I → Act W G
  provider_authenticate client c w =
      if c.service_account_token_file == ""
      then if c.api_token_file == ""
        then if c.api_token == ""
          then if c.token == ""
            then g.authenticate client c.user c.password c.sys_org w
            else token_error (
                if ltb 32 (len c.token)
                then g.set_token client c.sys_org bearer_token_header c.token w
                else g.set_token client c.sys_org authorization_header c.token w)
          else g.set_token client c.sys_org api_token_header c.api_token w
        else g.set_api_token_from_file client c.sys_org c.api_token_file w
      else g.set_service_account_api_token client c.sys_org c.service_account_token_file w

  -- the key of a configuration in the cache
  unfoldable pub checksum : ClientConfig I → String
  unfolding raw_data
  checksum c = g.sha256 (raw_data c)

  -- the VCDClient that Client makes, before it is authenticated
  unfoldable pub new_client : ClientConfig I → U → VcdClient G
  unfolding build_user_agent
  new_client c url = record {
    session = g.new_vcd_client (record {
      auth_url = url;
      insecure = c.insecure_flag;
      retry_timeout = c.max_retry_timeout;
      saml_adfs = c.use_saml_adfs;
      adfs_rpt_id = c.custom_adfs_rpt_id;
      user_agent = build_user_agent g.build_version c.sys_org;
      ignored = c.ignored_metadata;
    });
    sys_org = c.sys_org;
    org = c.org;
    vdc = c.vdc;
    max_retry_timeout = c.max_retry_timeout;
    insecure_flag = c.insecure_flag;
  }

  -- the end of Client, after the authentication
  unfoldable pub after_authentication :
      ClientConfig I
      → VcdClient G
      → CacheStorage G
      → Result G × W
      → Result (VcdClient G) × CacheStorage G × W
  unfolding checksum
  after_authentication c client cache (err e, w) =
      (err (wrapped "something went wrong during authentication" e), cache, w)
  after_authentication c client cache (ok session, w) =
      let authenticated = record client { session = session } in
      let entry : CachedConnection G = record { init_time = g.now w; connection = authenticated } in
      (ok authenticated, record cache { con_map = Dict.put cache.con_map (checksum c) entry }, w)

  -- what Client does once the URL is parsed
  unfoldable pub connect_to :
      ClientConfig I → CacheStorage G → W → Result U → Result (VcdClient G) × CacheStorage G × W
  unfolding new_client provider_authenticate after_authentication
  connect_to c cache w (err e) =
      (err (wrapped "something went wrong while retrieving URL" e), cache, w)
  connect_to c cache w (ok url) =
      let client = new_client c url in
      after_authentication c client cache (provider_authenticate client.session c w)

  -- the part of Client that connects
  unfoldable pub connect :
      ClientConfig I → CacheStorage G → W → Result (VcdClient G) × CacheStorage G × W
  unfolding connect_to
  connect c cache w = connect_to c cache w (g.parse_request_uri c.href)

  -- what Client does with a connection that it finds in the cache
  unfoldable pub serve_cached :
      ClientConfig I
      → CacheStorage G
      → CachedConnection G
      → W
      → Result (VcdClient G) × CacheStorage G × W
  unfolding connect checksum
  serve_cached c cache entry w =
      let counted = record cache { served_count = cache.served_count + 1 } in
      if ltb max_connection_validity (g.now w - entry.init_time)
      then connect c (record counted { con_map = Dict.remove counted.con_map (checksum c) }) w
      else (ok entry.connection, counted, w)

  -- what Client does with the answer of the cache
  unfoldable pub client_of :
      Bool
      → ClientConfig I
      → CacheStorage G
      → W
      → Option (CachedConnection G)
      → Result (VcdClient G) × CacheStorage G × W
  unfolding serve_cached connect
  client_of true c cache w (some entry) = serve_cached c cache entry w
  client_of enabled c cache w entry = connect c cache w

  -- Config.Client; `enabled` is enableConnectionCache
  unfoldable pub client :
      Bool → ClientConfig I → CacheStorage G → W → Result (VcdClient G) × CacheStorage G × W
  unfolding client_of checksum
  client enabled c cache w = client_of enabled c cache w (Dict.get cache.con_map (checksum c))
