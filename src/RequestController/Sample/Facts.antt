-- ===== src/RequestController/Sample/Facts.antt =====
-- What the small world's requests and answers are.
use cert_manager_essendi_xc.RequestController.{
  reconcile_found, body, deny, initialise, sign, route, submit, poll, await, fetch, deferred,
}
use cert_manager_essendi_xc.RequestController.Safety.{IsContact}
use cert_manager_essendi_xc.RequestController.Steps.{report}
use cert_manager_essendi_xc.Request.{Any, CertificateRequest}
use cert_manager_essendi_xc.Base.Text.{contains}
use cert_manager_essendi_xc.Base.{inl, false, ◌≡◌, refl, [], ◌∷◌, arith}
use cert_manager_essendi_xc.Base.Errors.{Outcome, ok}
use cert_manager_essendi_xc.Base.Text.{
  Text, codes, text_eq, is_empty, trim_space, has_prefix, after_colon,
}
use cert_manager_essendi_xc.IssuerUtil.{
  get_spec_and_status, get_ready_condition, is_ready, says_submitted, says_signed,
  get_submitted_condition, get_signed_condition, is_submitted, is_signed,
}
use cert_manager_essendi_xc.Request.Sample.{cm_util}
use cert_manager_essendi_xc.Signer.{Signer}
use cert_manager_essendi_xc.Signer.Http.{HttpRequest, Response}
use cert_manager_essendi_xc.Signer.Essendi.{
  signer_from_issuer_and_secret_data, get_refresh_token, parse_csr,
}
use cert_manager_essendi_xc.Signer.Submit.{
  submit_certificate_request, custom_fields, submission, submitted_response,
}
use cert_manager_essendi_xc.Signer.Task.{request_task_status, task_response}
use cert_manager_essendi_xc.Signer.Fetch.{fetch_certificate, fetched_response}
use cert_manager_essendi_xc.Signer.Client.{signer}
use cert_manager_essendi_xc.Signer.Accepted.{submit-IsAccepted}
use cert_manager_essendi_xc.Signer.Located.{task-IsLocated}
use cert_manager_essendi_xc.Signer.Panics.{fetch-IsAnswered}
use cert_manager_essendi_xc.RequestController.{is_ignored, open_signer, message_url}
use cert_manager_essendi_xc.RequestController.Essendi.{IsServed}
use cert_manager_essendi_xc.RequestController.Open.{IsOpen}
use cert_manager_essendi_xc.RequestController.Routes.{IsHealthy}
use cert_manager_essendi_xc.RequestController.Sample.{
  http, world, signing, declining, reconciler, ca_signer, request_with, approval, pending_as, fresh,
  waiting, fetching,
}
use cert_manager_essendi_xc.RequestController.Stages.{IsPolling, IsFetching}

abbrev pub ca : (HttpRequest → Outcome Response) → Signer
ca respond = signer (http respond) ca_signer

pub healthy :
    (respond : HttpRequest → Outcome Response) (cr : CertificateRequest)
    → IsHealthy cm_util reconciler (ca respond) (codes "T") (world respond) cr
unfolding open_signer get_spec_and_status is_ready get_ready_condition
    signer_from_issuer_and_secret_data signer get_refresh_token codes
healthy respond cr = record { opened = λ r same. refl; token = refl; stores = λ c. refl }

-- An approved request with a Ready condition that is neither final nor denied is open.
pub pending-IsOpen :
    (message : Text) → IsOpen cm_util reconciler (request_with (approval ∷ pending_as message ∷ []))
unfolding is_ignored text_eq codes
pending-IsOpen message = record { kept = refl; allowed = refl; seen = λ e. ground arith }

pub fresh-IsOpen : IsOpen cm_util reconciler fresh
fresh-IsOpen = pending-IsOpen (codes "Initialising Ready condition")

pub waiting-IsOpen : IsOpen cm_util reconciler waiting
waiting-IsOpen = pending-IsOpen (codes "Certificate request submitted, status: https://ca/t/1")

pub fetching-IsOpen : IsOpen cm_util reconciler fetching
fetching-IsOpen = pending-IsOpen (codes "Certificate is signed, resource: https://ca/c/1")

pub task_url : trim_space (codes "https://ca/t/1") ≡ codes "https://ca/t/1"
unfolding trim_space codes
task_url = refl

pub certificate_url : trim_space (codes "https://ca/c/1") ≡ codes "https://ca/c/1"
unfolding trim_space codes
certificate_url = refl

pub fresh_unsigned : is_signed fresh.status.conditions ≡ false
unfolding is_signed get_signed_condition says_signed has_prefix codes
fresh_unsigned = refl

pub fresh_unsubmitted : is_submitted fresh.status.conditions ≡ false
unfolding is_submitted get_submitted_condition says_submitted has_prefix codes
fresh_unsubmitted = refl

pub sent :
    submit_certificate_request (http signing) ca_signer (codes "T") (codes "CSR")
    ≡ ok (codes "https://ca/t/1")
unfolding submit_certificate_request parse_csr custom_fields submission submitted_response text_eq
    codes
sent = refl

pub told :
    request_task_status (http signing) ca_signer (codes "T") (codes "https://ca/t/1")
    ≡ ok (codes "https://ca/c/1", [])
unfolding request_task_status task_response text_eq codes
told = refl

pub given :
    fetch_certificate (http signing) ca_signer (codes "T") (codes "https://ca/c/1")
    ≡ ok (codes "CERT")
unfolding fetch_certificate fetched_response text_eq codes
given = refl

pub declined :
    request_task_status (http declining) ca_signer (codes "T") (codes "https://ca/t/1")
    ≡ ok ([], codes "DECLINED")
unfolding request_task_status task_response text_eq codes
declined = refl

pub polling : IsPolling (codes "https://ca/t/1") waiting.status.conditions
unfolding is_signed get_signed_condition says_signed is_submitted get_submitted_condition
    says_submitted message_url has_prefix after_colon trim_space codes
polling = record { unsigned = refl; submitted = refl; url_read = refl }

pub signed_request-IsFetching : IsFetching (codes "https://ca/c/1") fetching.status.conditions
unfolding is_signed get_signed_condition says_signed message_url has_prefix after_colon trim_space
    codes
signed_request-IsFetching = record { signed = refl; url_read = refl }

pub resource_full : is_empty (codes "https://ca/c/1") ≡ false
unfolding codes
resource_full = refl

pub certificate_full : is_empty (codes "CERT") ≡ false
unfolding codes
certificate_full = refl

pub served :
    IsServed
      (http signing)
      ca_signer
      (codes "T")
      (codes "CSR")
      (codes "https://ca/t/1")
      (codes "https://ca/c/1")
      []
      (codes "CERT")
served = record {
  submitted =
      (submit-IsAccepted (http signing) ca_signer (codes "T") (codes "CSR")
          (codes "https://ca/t/1")).0
        sent;
  located =
      (task-IsLocated (http signing) ca_signer (codes "T") (codes "https://ca/t/1")
          (codes "https://ca/c/1") [] resource_full).0
        told;
  given =
      ((fetch-IsAnswered (http signing) ca_signer (codes "T") (codes "https://ca/c/1")
          (codes "CERT")).0
        given).0;
  url_trimmed = task_url;
  resource_trimmed = certificate_url;
  resource_full = resource_full;
  certificate_full = certificate_full;
}

pub asked_now : Any IsContact (reconcile_found cm_util reconciler (world signing) fresh).1.actions
unfolding reconcile_found body deny initialise sign open_signer route submit poll await fetch
    deferred report is_ignored signer get_refresh_token submit_certificate_request parse_csr
    custom_fields submission submitted_response request_task_status task_response fetch_certificate
    fetched_response get_spec_and_status is_ready get_ready_condition
    signer_from_issuer_and_secret_data is_signed get_signed_condition says_signed is_submitted
    get_submitted_condition says_submitted message_url has_prefix after_colon trim_space contains
    text_eq codes
asked_now = inl tt
