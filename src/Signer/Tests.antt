-- ===== src/Signer/Tests.antt =====
-- The signer against a small API.
use cert_manager_essendi_xc.Base.{List, some, ℕ, ◌≡◌, ◌≢◌, ◌⊎◌, refl, arith, false, [], ◌∷◌}
use cert_manager_essendi_xc.Base.Errors.{Error, ok, err, panic}
use cert_manager_essendi_xc.Base.Text.{Text, codes, text_eq, is_empty}
use cert_manager_essendi_xc.Base.Text.Decimal.{NoNewline}
use cert_manager_essendi_xc.Api.{IssuerCustomField}
use cert_manager_essendi_xc.Signer.Fields.{IsAbsent, lookup, lookup-custom_fields}
use cert_manager_essendi_xc.Signer.Submit.{custom_fields, variables, insert}
use cert_manager_essendi_xc.RequestController.Sample.{csr, http, signing, ca_signer, spec, secret}
use cert_manager_essendi_xc.RequestController.Sample.Facts.{sent, told, given, resource_full}
use cert_manager_essendi_xc.Signer.Accepted.{IsAccepted, submit-IsAccepted}
use cert_manager_essendi_xc.Signer.Essendi.{signer_from_issuer_and_secret_data}
use cert_manager_essendi_xc.Signer.Hosts.{IsHost, IsPlain}
use cert_manager_essendi_xc.Signer.Http.{Variables, Http, HttpRequest, Json, str, null}
use cert_manager_essendi_xc.Signer.Keys.{IsKeyed, signer_keys}
use cert_manager_essendi_xc.Signer.Located.{IsLocated, task-IsLocated}
use cert_manager_essendi_xc.Signer.Fetch.{fetch_certificate, fetched_response}
use cert_manager_essendi_xc.Signer.Panics.{IsAnswered, fetch-IsAnswered, fetch_panics}
use cert_manager_essendi_xc.Signer.Payload.{signed_text_injective}

submit-IsAccepted_example :
    IsAccepted (http signing) ca_signer (codes "T") (codes "CSR") (codes "https://ca/t/1")
submit-IsAccepted_example =
    (submit-IsAccepted (http signing) ca_signer (codes "T") (codes "CSR")
        (codes "https://ca/t/1")).0
      sent

task-IsLocated_example :
    IsLocated
      (http signing)
      ca_signer
      (codes "T")
      (codes "https://ca/t/1")
      (codes "https://ca/c/1")
      []
task-IsLocated_example =
    (task-IsLocated (http signing) ca_signer (codes "T") (codes "https://ca/t/1")
        (codes "https://ca/c/1") [] resource_full).0
      told

fetch-IsAnswered_example :
    IsAnswered (http signing) ca_signer (codes "T") (codes "https://ca/c/1") (str (codes "CERT"))
    × (is_empty (codes "CERT") ≡ false)
fetch-IsAnswered_example =
    (fetch-IsAnswered (http signing) ca_signer (codes "T") (codes "https://ca/c/1")
        (codes "CERT")).0
      given

-- An API that answers by objects without data.
abbrev dataless : Http
dataless = record (http signing) { unmarshal_object = λ b. ok (λ k. null) }

url_parsed : dataless.url_path (codes "https://ca/c/1") ≢ panic
url_parsed e = ground arith

do_request_returns : (r : HttpRequest) → dataless.do_request r ≢ panic
do_request_returns r e = ground arith

unmarshal_returns : (b : Text) → dataless.unmarshal_object b ≢ panic
unmarshal_returns b e = ground arith

dataless_panics : fetch_certificate dataless ca_signer (codes "T") (codes "https://ca/c/1") ≡ panic
unfolding fetch_certificate fetched_response codes text_eq
dataless_panics = refl

fetch_panics_example :
    ((e : Error) × (dataless.url_path (codes "https://ca/c/1") ≡ err e))
    ⊎ ((v : Json) × IsAnswered dataless ca_signer (codes "T") (codes "https://ca/c/1") v
        × ((s : Text) → v ≢ str s))
fetch_panics_example =
    (fetch_panics dataless ca_signer (codes "T") (codes "https://ca/c/1") url_parsed
        do_request_returns unmarshal_returns).0
      dataless_panics

get_short : NoNewline (codes "GET")
unfolding codes
get_short = ground arith

path_short : NoNewline (codes "/api")
unfolding codes
path_short = ground arith

signed_text_injective_example :
    (codes "GET" ≡ codes "GET")
    × (codes "GET" ≡ codes "GET")
    × (codes "GET" ≡ codes "GET")
    × (◌≡◌ {A = ℕ} 7 7)
    × (codes "/api" ≡ codes "/api")
    × (codes "{}" ≡ codes "{}")
signed_text_injective_example =
    signed_text_injective (codes "GET") (codes "GET") (codes "GET") (codes "GET") (codes "GET")
      (codes "GET") 7 7 (codes "/api") (codes "/api") (codes "{}") (codes "{}") get_short get_short
      get_short get_short get_short get_short path_short path_short refl

signer_built : signer_from_issuer_and_secret_data spec (codes "xc") secret ≡ ok ca_signer
unfolding signer_from_issuer_and_secret_data codes
signer_built = refl

signer_keys_example : IsKeyed spec (codes "xc") secret ca_signer
signer_keys_example = (signer_keys spec (codes "xc") secret ca_signer).0 signer_built

internal-IsHost : IsHost (codes "internal:8443")
unfolding codes
internal-IsHost = ground arith

base-IsPlain : IsPlain (codes "https://ca")
unfolding codes
base-IsPlain = ground arith

abbrev field_of_name : Text → Text → IssuerCustomField
field_of_name name value = record { name = name; value = value }

abbrev vars : Variables
vars = variables ca_signer csr

abbrev filled : List (Text × Text)
filled = (codes "a", codes "2") ∷ (codes "b", codes "3") ∷ []

-- The field `a` is given twice, and the later one counts.
fields_filled :
    custom_fields
      (http signing)
      vars
      (field_of_name (codes "a") (codes "1")
        ∷ field_of_name (codes "a") (codes "2")
        ∷ field_of_name (codes "b") (codes "3")
        ∷ [])
      []
    ≡ ok filled
unfolding custom_fields insert text_eq codes
fields_filled = refl

later-IsAbsent :
    IsAbsent (http signing) vars (codes "a") (field_of_name (codes "b") (codes "3") ∷ [])
unfolding text_eq codes
later-IsAbsent = (refl, tt)

lookup-custom_fields_example :
    (value : Text) × ((http signing).execute (codes "2") vars ≡ ok value)
    × (lookup (codes "a") filled ≡ some value)
lookup-custom_fields_example =
    lookup-custom_fields (http signing) vars (field_of_name (codes "a") (codes "1") ∷ [])
      (field_of_name (codes "b") (codes "3") ∷ []) (field_of_name (codes "a") (codes "2")) [] filled
      fields_filled later-IsAbsent
