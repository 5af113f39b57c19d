-- ===== src/Signer/Http.antt =====
-- What the signer uses of packages net/http, net/url, encoding/json, text/template, crypto/hmac and
-- crypto/x509, of the clock, and of the token endpoint: one record of functions, which the model of
-- the signer takes as a parameter.
use cert_manager_essendi_xc.Base.{ℕ, Bool, Option, List}
use cert_manager_essendi_xc.Base.Text.{Text}
use cert_manager_essendi_xc.PemChain.{Block}
use cert_manager_essendi_xc.Base.Errors.{Error, Outcome}

pub record HttpRequest : Type 0 where
  pub method : Text
  pub url : Text
  pub content_type : Text
  pub authorization : Text
  pub x_timestamp : Text
  pub x_signature : Text
  pub body : Text

-- `location` is `Header.Get("Location")`; `read_error` is the error of `io.ReadAll(resp.Body)`, and
-- `body` what was read.
pub record Response : Type 0 where
  pub status_code : ℕ
  pub location : Text
  pub body : Text
  pub read_error : Option Error

-- A value of an `interface{}` that `json.Unmarshal` fills; `other` holds what `%s` prints of a value
-- that is neither nil nor a string.
pub data Json : Type 0 where
  null : Json
  str : Text → Json
  other : Text → Json

-- The fields of an `x509.CertificateRequest` that the signer reads.
pub record Csr : Type 0 where
  pub common_name : Text
  pub country : List Text
  pub locality : List Text
  pub organization : List Text
  pub organizational_unit : List Text
  pub province : List Text
  pub email_addresses : List Text

-- `gotemplateVariables`
pub record Variables : Type 0 where
  pub common_name : Text
  pub country : Text
  pub locality : Text
  pub organization : Text
  pub organizational_unit : Text
  pub email : Text
  pub state : Text
  pub profile_name : Text
  pub subscriber_name : Text

-- The map `data` of a submission; its empty subject and its empty list of names are constants.
pub record Submission : Type 0 where
  pub csr : Text
  pub profile_name : Text
  pub subscriber : Text
  pub custom_fields : List (Text × Text)

-- `execute` parses a template and executes it. `unmarshal_object` fills a `map[string]interface{}`,
-- `unmarshal_strings` a `map[string]string`; a missing key has the zero value. `mac key message` is
-- the HMAC-SHA256 in base64. `url_path` is `url.Parse` and the field `Path`. `token` is the exchange
-- of a refresh token for an access token.
pub record Http : Type 0 where
  pub now : ℕ
  pub token : Text → Text → Text → Text → Outcome Text
  pub pem_decode : Text → Option (Block × Text)
  pub parse_certificate_request : Text → Outcome Csr
  pub execute : Text → Variables → Outcome Text
  pub marshal : Submission → Outcome Text
  pub mac : Text → Text → Text
  pub url_path : Text → Outcome Text
  pub new_request : Text → Text → Option Error
  pub do_request : HttpRequest → Outcome Response
  pub json_valid : Text → Bool
  pub unmarshal_object : Text → Outcome (Text → Json)
  pub unmarshal_strings : Text → Outcome (Text → Text)
