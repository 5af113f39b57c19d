-- ===== src/Signer/Submit.antt =====
-- signer.go: `SubmitCertificateRequest`.
use cert_manager_essendi_xc.Base.{not, none, some, List, [], ◌∷◌, ◌++◌, ◌==◌, if◌then◌else◌}
use cert_manager_essendi_xc.Base.Text.{Text, codes, text_eq, is_empty, decimal}
use cert_manager_essendi_xc.Base.Errors.{Outcome, ok, ◌>>=◌, ◌>>◌}
use cert_manager_essendi_xc.Api.{IssuerCustomField}
use cert_manager_essendi_xc.Signer.Http.{Http, Response, Csr, Variables, Submission}
use cert_manager_essendi_xc.Signer.Essendi.{
  EssendiSigner, failure, own_url, parenthesised, unexpected, parse_csr, checked_request,
  api_request, description,
}

-- The first element, or "" of an empty list.
abbrev first_of_list : List Text → Text
first_of_list [] = []
first_of_list (s ∷ _) = s

abbrev pub variables : EssendiSigner → Csr → Variables
variables o csr = record {
  common_name = csr.common_name;
  country = first_of_list csr.country;
  locality = first_of_list csr.locality;
  organization = first_of_list csr.organization;
  organizational_unit = first_of_list csr.organizational_unit;
  email = first_of_list csr.email_addresses;
  state = first_of_list csr.province;
  profile_name = o.issuer.profile_name;
  subscriber_name = o.issuer.subscriber_name;
}

-- `m[name] = value`
unfoldable pub insert : Text → Text → List (Text × Text) → List (Text × Text)
insert name value [] = (name, value) ∷ []
insert name value ((n, v) ∷ m) =
    if text_eq n name then (n, value) ∷ m else (n, v) ∷ insert name value m

abbrev pub api_url : Text
api_url = codes "/api/v2/csr-process/request"

module _ (http : Http) where
  -- The loop over `CustomFields`.
  unfoldable pub custom_fields :
      Variables → List IssuerCustomField → List (Text × Text) → Outcome (List (Text × Text))
  custom_fields vars [] m = ok m
  custom_fields vars (field ∷ fields) m = do
    value ← http.execute field.value vars
    custom_fields vars fields (insert field.name value m)

  -- What `SubmitCertificateRequest` makes of the response.
  unfoldable pub submitted_response : EssendiSigner → Response → Outcome Text
  submitted_response o resp =
      if not (resp.status_code == 202)
      then elim (description http resp.body) [
        | some d ↦ failure (d ++ parenthesised (decimal resp.status_code))
        | none ↦ failure (unexpected resp.status_code resp.body)
      ]
      else if is_empty resp.location
      then failure (codes "status endpoint URL not found")
      else ok (own_url o resp.location)

  unfoldable pub submission : EssendiSigner → Text → List (Text × Text) → Submission
  submission o csr_bytes fields = record {
    csr = csr_bytes;
    profile_name = o.issuer.profile_name;
    subscriber = o.issuer.subscriber_name;
    custom_fields = fields;
  }

  -- `SubmitCertificateRequest`
  unfoldable pub submit_certificate_request : EssendiSigner → Text → Text → Outcome Text
  submit_certificate_request o token csr_bytes = do
    csr_request ← parse_csr http csr_bytes
    fields ← custom_fields (variables o csr_request) o.issuer.custom_fields []
    json_data ← http.marshal (submission o csr_bytes fields)
    checked_request http (codes "POST") (o.issuer.url ++ api_url)
    resp ←
        http.do_request
          (api_request http o token (codes "POST") (o.issuer.url ++ api_url) api_url json_data)
    submitted_response o resp
