-- ===== src/Search.antt =====
-- internal/search/elasticsearch.go: the index of documents. The HTTP client and the JSON encoding are
-- parameters.
use Prim.Native.String.{◌++◌ as append_text}
use terraform_provider_viett.Prelude.{ℕ, String, Option, none, some, leb, if◌then◌else◌}
use terraform_provider_viett.Go.{Failure, http_status, Result, ok, err, Act, Proc}

-- http.NewRequestWithContext with method PUT (an error for a bad URL), and (*http.Client).Do, which gives
-- a status
pub record HttpClient (W : Type 0) : Type 0 where
  pub put_request : String → String → Option Failure
  pub send : String → String → Act W ℕ

-- fmt.Sprintf("%s/%s/_doc/%s", base, index, id)
unfoldable pub document_url : String → String → String → String
document_url base index id =
    append_text base (append_text "/" (append_text index (append_text "/_doc/" id)))

unfoldable pub status_error : Result ℕ → Option Failure
status_error (err e) = some e
status_error (ok status) = if leb 300 status then some (http_status status) else none

module _ {W A : Type 0} (http : HttpClient W) (encode : A → Result String) (base_url : String) where
  -- (*Client).Index
  unfoldable pub index_document : String → String → A → Proc W
  unfolding document_url status_error
  index_document index id v w = elim (encode v) [
    | err e ↦ (some e, w)
    | ok body ↦ elim (http.put_request (document_url base_url index id) body) [
      | some e ↦ (some e, w)
      | none ↦
          let (reply, w') = http.send (document_url base_url index id) body w in
          (status_error reply, w')
    ]
  ]
