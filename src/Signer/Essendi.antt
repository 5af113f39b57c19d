-- ===== src/Signer/Essendi.antt =====
-- internal/issuer/signer/signer.go and x509util.go: the signer of the essendi XC API.
use cert_manager_essendi_xc.Base.{ℕ, Option, none, some, ◌++◌, if◌then◌else◌}
use cert_manager_essendi_xc.Base.Text.{Text, codes, text_eq, decimal}
use cert_manager_essendi_xc.Base.Errors.{Outcome, ok, err, panic, ◌>>=◌}
use cert_manager_essendi_xc.Api.{IssuerSpec}
use cert_manager_essendi_xc.Signer.{SecretData, HealthChecker}
use cert_manager_essendi_xc.Signer.Host.{replace_host}
use cert_manager_essendi_xc.Signer.Http.{Http, HttpRequest, Json, null, str, Csr}

-- `type essendixcSigner struct`, without its context.
pub record EssendiSigner : Type 0 where
  pub issuer : IssuerSpec
  pub client_id : Text
  pub client_secret : Text
  pub token : Text
  pub realm : Text
  pub signature_key : Text

abbrev pub failure : {A : Type 0} → Text → Outcome A
failure text = err (record { text = text })

-- `value, ok := secret[key]; if !ok { return … }`
abbrev pub from_secret : SecretData → Text → Outcome Text
from_secret secret key = elim (secret key) [
  | none ↦ failure (key ++ codes " not found in secret")
  | some value ↦ ok value
]

-- `EssendiSignerFromIssuerAndSecretData`
unfoldable pub signer_from_issuer_and_secret_data :
    IssuerSpec → Text → SecretData → Outcome EssendiSigner
signer_from_issuer_and_secret_data issuer auth_realm secret = do
  client_id ← from_secret secret (codes "client-id")
  client_secret ← from_secret secret (codes "client-secret")
  token ← from_secret secret (codes "token")
  signature_key ← from_secret secret (codes "signature-key")
  ok (record {
    issuer = issuer;
    client_id = client_id;
    client_secret = client_secret;
    token = token;
    realm = auth_realm;
    signature_key = signature_key;
  })

-- `EssendiHealthCheckerFromIssuerAndSecretData`, with `Check`: neither fails.
unfoldable pub health_checker_from_issuer_and_secret_data :
    IssuerSpec → SecretData → Outcome HealthChecker
health_checker_from_issuer_and_secret_data issuer secret = ok (record { check = none })

-- The text that `signEssendiApiRequest` signs.
unfoldable pub signed_text : Text → Text → Text → ℕ → Text → Text → Text
signed_text client_id method content_type timestamp urlpath content =
    client_id
    ++ (codes "\n"
        ++ (method
            ++ (codes "\n"
                ++ (content_type
                    ++ (codes "\n"
                        ++ (decimal timestamp
                            ++ (codes "\n"
                                ++ (urlpath ++ (codes "\n--\n" ++ (content ++ codes "\n--"))))))))))

-- `response["description"]`, where the body is a JSON object that has one.
abbrev pub shown : Json → Option Text
shown null = none
shown (str s) = some s
shown (Json.other s) = some s

-- `IgnoreHostInApiResponse`
abbrev pub own_url : EssendiSigner → Text → Text
own_url o url = if o.issuer.ignore_host_in_api_response then replace_host o.issuer.url url else url

abbrev pub parenthesised : Text → Text
parenthesised s = codes " (" ++ (s ++ codes ")")

abbrev pub unexpected : ℕ → Text → Text
unexpected status shown_body =
    codes "unexpected status code: " ++ (decimal status ++ parenthesised shown_body)

module _ (http : Http) where
  -- `parseCSR`
  unfoldable pub parse_csr : Text → Outcome Csr
  parse_csr pem_bytes = elim (http.pem_decode pem_bytes) [
    | none ↦ failure (codes "PEM block type must be CERTIFICATE REQUEST")
    | some (block, _) ↦
        if text_eq block.type (codes "CERTIFICATE REQUEST")
        then http.parse_certificate_request block.bytes
        else failure (codes "PEM block type must be CERTIFICATE REQUEST")
  ]

  -- `generateXSignature` of the text that `signEssendiApiRequest` makes.
  unfoldable pub sign_essendi_api_request : Text → Text → Text → ℕ → Text → Text → Text → Text
  sign_essendi_api_request client_id method content_type timestamp urlpath content signature_key =
      http.mac signature_key (signed_text client_id method content_type timestamp urlpath content)

  -- `GetRefreshToken`
  unfoldable pub get_refresh_token : EssendiSigner → Outcome Text
  get_refresh_token o =
      http.token o.client_id o.client_secret
        (o.issuer.url
          ++ (codes "/auth/realms/" ++ (o.realm ++ codes "/protocol/openid-connect/token")))
        o.token

  abbrev pub checked_request : Text → Text → Outcome (Unit {0})
  checked_request method url = elim (http.new_request method url) [ none ↦ ok tt | some e ↦ err e ]

  -- A request with the headers that all three calls set.
  abbrev pub api_request : EssendiSigner → Text → Text → Text → Text → Text → HttpRequest
  api_request o token method url urlpath content = record {
    method = method;
    url = url;
    content_type = codes "application/json";
    authorization = codes "Bearer " ++ token;
    x_timestamp = decimal http.now;
    x_signature =
        sign_essendi_api_request o.client_id method (codes "application/json") http.now urlpath
          content o.signature_key;
    body = content;
  }

  abbrev pub field_of : Text → Outcome (Text → Json) → Option Text
  field_of key (ok object) = shown (object key)
  field_of key (err _) = none
  field_of key panic = none

  abbrev pub description : Text → Option Text
  description body =
      if http.json_valid body
      then field_of (codes "description") (http.unmarshal_object body)
      else none
