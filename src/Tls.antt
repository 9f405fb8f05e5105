-- ===== src/Tls.antt =====
-- internal/tlsconfig/tls.go: the TLS settings of the gRPC connections. Loading a key pair, reading a file
-- and parsing certificates are parameters.
use terraform_provider_viett.Prelude.{String, Option, none, some}
use terraform_provider_viett.Go.{wrapped, plain, Result, ok, err}

pub data ClientAuth : Type 0 where
  no_client_cert require_and_verify_client_cert : ClientAuth

pub data Version : Type 0 where
  tls12 tls13 : Version

-- the fields of tls.Config that the program sets
pub record TlsConfig (Cert Pool : Type 0) : Type 0 where
  pub min_version : Version
  pub certificate : Cert
  pub client_cas : Option Pool
  pub root_cas : Option Pool
  pub client_auth : ClientAuth
  pub server_name : String

module _ {Cert Pool : Type 0} (load_key_pair : String → String → Result Cert)
    (read_file : String → Result String) (parse_pem : String → Option Pool) where
  -- the pool of the certificates in a file
  unfoldable pub read_pool : String → Result Pool
  read_pool ca_file = elim (read_file ca_file) [
    | err e ↦ err (wrapped "read CA certificate" e)
    | ok pem ↦ elim (parse_pem pem) [
      | none ↦ err (plain "failed to parse CA certificate")
      | some pool ↦ ok pool
    ]
  ]

  -- ServerCredentials
  unfoldable pub server_credentials : String → String → String → Result (TlsConfig Cert Pool)
  unfolding read_pool
  server_credentials cert_file key_file ca_file = elim (load_key_pair cert_file key_file) [
    | err e ↦ err (wrapped "load server certificate" e)
    | ok cert ↦ elim (read_pool ca_file) [
      | err e ↦ err e
      | ok pool ↦ ok (record {
        min_version = tls13;
        certificate = cert;
        client_cas = some pool;
        root_cas = none;
        client_auth = require_and_verify_client_cert;
        server_name = "";
      })
    ]
  ]

  -- ClientCredentials
  unfoldable pub client_credentials :
      String → String → String → String → Result (TlsConfig Cert Pool)
  unfolding read_pool
  client_credentials cert_file key_file ca_file server_name =
      elim (load_key_pair cert_file key_file) [
        | err e ↦ err (wrapped "load client certificate" e)
        | ok cert ↦ elim (read_pool ca_file) [
          | err e ↦ err e
          | ok pool ↦ ok (record {
            min_version = tls13;
            certificate = cert;
            client_cas = none;
            root_cas = some pool;
            client_auth = no_client_cert;
            server_name = server_name;
          })
        ]
      ]
