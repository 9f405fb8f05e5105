-- ===== src/Vcd/Connection/Served.antt =====
-- Which connection Config.Client of vcd/config.go gives for a configuration.
use mathlib.Core.Path.{subst}
use terraform_provider_viett.Prelude.{
  ℕ, ◌+◌, ◌-◌, ◌≤◌, ◌≡◌, refl, sym, ap, ◌∙◌, String, Bool, true, false, Option, none, some, arith,
  eq_refl, ltb,
}
use terraform_provider_viett.Go.{Result, ok, err}
use terraform_provider_viett.Go.Dict
use terraform_provider_viett.Go.Dict.{Dict}
use terraform_provider_viett.Vcd.Connection.{
  ClientConfig, Govcd, VcdClient, CachedConnection, CacheStorage, max_connection_validity, raw_data,
  provider_authenticate, checksum, new_client, after_authentication, connect_to, connect,
  serve_cached, client_of, client,
}

module _ {W U G I : Type 0} (g : Govcd W U G I) where
  lt-false : (a b : ℕ) → b ≤ a → ltb a b ≡ false
  lt-false a b h = ground arith

  -- the entry of the cache is the connection that was given, and no older than its validity
  pub record IsServed (key : String) (v : VcdClient G) (cache : CacheStorage G) (w : W)
      (entry : CachedConnection G) : Type 0 where
    pub stored : Dict.get cache.con_map key ≡ some entry
    pub same : entry.connection ≡ v
    pub young : g.now w ≤ entry.init_time + max_connection_validity

  abbrev Outcome : Type 0
  Outcome = Result (VcdClient G) × CacheStorage G × W

  -- a connection that was made for a configuration
  pub record IsMade (c : ClientConfig I) (v : VcdClient G) : Type 0 where
    pub sys_org : v.sys_org ≡ c.sys_org
    pub org : v.org ≡ c.org
    pub vdc : v.vdc ≡ c.vdc
    pub insecure_flag : v.insecure_flag ≡ c.insecure_flag

  abbrev IsFresh : ClientConfig I → Outcome → Type 0
  IsFresh c (err e, cache, w) = Unit
  IsFresh c (ok v, cache, w) =
      IsMade c v
      × IsServed (checksum g c) v cache w (record { init_time = g.now w; connection = v })

  after_authentication-IsFresh :
      (c : ClientConfig I) (url : U) (cache : CacheStorage G) (r : Result G × W)
      → IsFresh c (after_authentication g c (new_client g c url) cache r)
  unfolding after_authentication new_client
  after_authentication-IsFresh c url cache (err e, w) = tt
  after_authentication-IsFresh c url cache (ok session, w) = (
    record { sys_org = refl; org = refl; vdc = refl; insecure_flag = refl },
    record {
      stored = ground (
        arith,
        Dict.get-put cache.con_map (checksum g c)
            (record {
              init_time = g.now w;
              connection = record (new_client g c url) { session = session };
            })
            (checksum g c),
        eq_refl (checksum g c),
      );
      same = refl;
      young = ground arith;
    },
  )

  connect-IsFresh :
      (c : ClientConfig I) (cache : CacheStorage G) (w : W) → IsFresh c (connect g c cache w)
  unfolding connect connect_to
  connect-IsFresh c cache w = by_url (g.parse_request_uri c.href)
    where
      by_url : (r : Result U) → IsFresh c (connect_to g c cache w r)
      by_url (err e) = tt
      by_url (ok url) =
          after_authentication-IsFresh c url cache
            (provider_authenticate g (new_client g c url).session c w)

  abbrev IsGiven : ClientConfig I → Outcome → Type 0
  IsGiven c (err e, cache, w) = Unit
  IsGiven c (ok v, cache, w) =
      (entry : CachedConnection G) × IsServed (checksum g c) v cache w entry

  fresh-IsGiven : (c : ClientConfig I) (o : Outcome) → IsFresh c o → IsGiven c o
  fresh-IsGiven c (err e, cache, w) f = tt
  fresh-IsGiven c (ok v, cache, w) f = (record { init_time = g.now w; connection = v }, f.1)

  connect-IsGiven :
      (c : ClientConfig I) (cache : CacheStorage G) (w : W) → IsGiven c (connect g c cache w)
  connect-IsGiven c cache w = fresh-IsGiven c (connect g c cache w) (connect-IsFresh c cache w)

  serve_cached-IsGiven :
      (c : ClientConfig I) (cache : CacheStorage G) (entry : CachedConnection G) (w : W)
      → Dict.get cache.con_map (checksum g c) ≡ some entry
      → IsGiven c (serve_cached g c cache entry w)
  unfolding serve_cached
  serve_cached-IsGiven c cache entry w found =
      by_age (ltb max_connection_validity (g.now w - entry.init_time)) refl
    where
      by_age :
          (b : Bool)
          → ltb max_connection_validity (g.now w - entry.init_time) ≡ b
          → IsGiven c (serve_cached g c cache entry w)
      by_age true h = rw h (
          connect-IsGiven c
            (record cache {
              con_map = Dict.remove cache.con_map (checksum g c);
              served_count = cache.served_count + 1;
            })
            w)
      by_age false h =
          rw h (entry, record { stored = found; same = refl; young = ground (arith, h) })

  client-IsGiven :
      (enabled : Bool) (c : ClientConfig I) (cache : CacheStorage G) (w : W)
      → IsGiven c (client g enabled c cache w)
  unfolding client client_of
  client-IsGiven enabled c cache w = by_entry enabled (Dict.get cache.con_map (checksum g c)) refl
    where
      by_entry :
          (b : Bool) (o : Option (CachedConnection G))
          → Dict.get cache.con_map (checksum g c) ≡ o
          → IsGiven c (client_of g b c cache w o)
      by_entry true none h = connect-IsGiven c cache w
      by_entry false o h = connect-IsGiven c cache w
      by_entry true (some entry) h = serve_cached-IsGiven c cache entry w h

  -- When Client gives a connection, the cache then holds it under the checksum of the configuration, and it
  -- was authenticated at most 20 minutes before, whether it comes from the cache or is new.
  pub client-IsServed :
      (enabled : Bool) (c : ClientConfig I) (cache later : CacheStorage G) (w after : W)
      (v : VcdClient G)
      → client g enabled c cache w ≡ (ok v, later, after)
      → (entry : CachedConnection G) × IsServed (checksum g c) v later after entry
  client-IsServed enabled c cache later w after v given =
      subst (IsGiven c) given (client-IsGiven enabled c cache w)

  client_missing :
      (enabled : Bool) (c : ClientConfig I) (cache : CacheStorage G) (w : W)
      → Dict.get cache.con_map (checksum g c) ≡ none
      → client g enabled c cache w ≡ connect g c cache w
  unfolding client client_of
  client_missing true c cache w missing = ap (client_of g true c cache w) missing
  client_missing false c cache w missing = refl

  client_found :
      (d : ClientConfig I) (later : CacheStorage G) (entry : CachedConnection G) (w : W)
      → Dict.get later.con_map (checksum g d) ≡ some entry
      → g.now w ≤ entry.init_time + max_connection_validity
      → client g true d later w
        ≡ (ok entry.connection, record later { served_count = later.served_count + 1 }, w)
  unfolding client client_of serve_cached
  client_found d later entry w found young =
      ap (client_of g true d later w) found
      ∙ rw (lt-false max_connection_validity (g.now w - entry.init_time) (ground arith)) refl

  -- With the cache in use, a first configuration that connects while the cache has no entry for it, and a
  -- second one of the same raw data within 20 minutes: the second call gives the connection of the first, with
  -- the default organisation and the TLS setting of the first configuration, whatever the second one says.
  pub client-reused :
      (c d : ClientConfig I) (cache later : CacheStorage G) (w after w' : W) (v : VcdClient G)
      → Dict.get cache.con_map (checksum g c) ≡ none
      → client g true c cache w ≡ (ok v, later, after)
      → raw_data d ≡ raw_data c
      → g.now w' ≤ g.now after + max_connection_validity
      → (client g true d later w'
          ≡ (ok v, record later { served_count = later.served_count + 1 }, w'))
        × (v.org ≡ c.org)
        × (v.insecure_flag ≡ c.insecure_flag)
  unfolding checksum
  client-reused c d cache later w after w' v missing given same young = reuse (
      subst (IsFresh c) (sym (client_missing true c cache w missing) ∙ given)
        (connect-IsFresh c cache w))
    where
      reuse :
          IsFresh c (ok v, later, after)
          → (client g true d later w'
              ≡ (ok v, record later { served_count = later.served_count + 1 }, w'))
            × (v.org ≡ c.org)
            × (v.insecure_flag ≡ c.insecure_flag)
      reuse (made, served) = (
        client_found d later (record { init_time = g.now after; connection = v }) w'
            (ap (λ t. Dict.get later.con_map (g.sha256 t)) same ∙ served.stored) young,
        made.org,
        made.insecure_flag,
      )
