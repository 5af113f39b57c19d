-- ===== src/Signer/Fetch.antt =====
-- signer.go: `FetchCertificate`.
use cert_manager_essendi_xc.Base.{not, none, some, [], ◌==◌, if◌then◌else◌}
use cert_manager_essendi_xc.Base.Text.{Text, codes, is_empty}
use cert_manager_essendi_xc.Base.Errors.{Outcome, ok, err, panic, ◌>>=◌, ◌>>◌}
use cert_manager_essendi_xc.Signer.Http.{Http, Response, Json, null, str}
use cert_manager_essendi_xc.Signer.Essendi.{
  EssendiSigner, failure, unexpected, checked_request, api_request, description,
}

module _ (http : Http) where
  -- `response["data"].(string)`: a value that is no string panics.
  abbrev pub data_of : Json → Outcome Text
  data_of (str s) = if is_empty s then failure (codes "certificate not found") else ok s
  data_of null = panic
  data_of (Json.other _) = panic

  -- What `FetchCertificate` makes of the response.
  unfoldable pub fetched_response : Response → Outcome Text
  fetched_response resp =
      if not (resp.status_code == 200)
      then elim resp.read_error [
        | some _ ↦ failure (codes "unable to read error body")
        | none ↦ elim (description http resp.body) [
          | some d ↦ failure (unexpected resp.status_code d)
          | none ↦ failure (unexpected resp.status_code resp.body)
        ]
      ]
      else elim resp.read_error [
        | some e ↦ err e
        | none ↦ http.unmarshal_object resp.body >>= λ response. data_of (response (codes "data"))
      ]

  -- The error of `url.Parse` is dropped, and its nil result is read: a panic.
  abbrev pub unchecked : Outcome Text → Outcome Text
  unchecked (ok path) = ok path
  unchecked (err _) = panic
  unchecked panic = panic

  -- `FetchCertificate`
  unfoldable pub fetch_certificate : EssendiSigner → Text → Text → Outcome Text
  fetch_certificate o token resource_url = do
    urlpath ← unchecked (http.url_path resource_url)
    checked_request http (codes "GET") resource_url
    resp ← http.do_request (api_request http o token (codes "GET") resource_url urlpath [])
    fetched_response resp
