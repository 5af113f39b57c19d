-- ===== src/RequestController/Issuance.antt =====
-- certificaterequest_controller.go: the stages of a request at the CA, and the messages that tell them
-- apart.
use cert_manager_essendi_xc.Base.{false, not, ◌&&◌, Option, none, some, List, ◌++◌, if◌then◌else◌}
use mathlib.Core.Option as Opt
use cert_manager_essendi_xc.Base.Text.{Text, codes, text_eq, is_empty, after_colon, trim_space}
use cert_manager_essendi_xc.Api.{
  issuer_condition_status_submitted, issuer_condition_status_processing,
  issuer_condition_status_approved, issuer_condition_status_signed, task_status_processing,
  task_status_approved, task_status_failed, task_status_declined, task_status_canceled,
}
use cert_manager_essendi_xc.IssuerUtil
use cert_manager_essendi_xc.IssuerUtil.{
  get_spec_and_status, is_ready, is_signed, is_submitted, is_processing, get_signed_condition,
  get_submitted_condition,
}
use cert_manager_essendi_xc.Request.{
  CertificateRequest, RequestStatus, Condition, Reason, ready, is_true, is_false, pending, denied,
  issued, CmUtil,
}
use cert_manager_essendi_xc.Request
use cert_manager_essendi_xc.Signer.{Signer}
use cert_manager_essendi_xc.RequestController.Steps.{
  Action, Reconciler, Env, Step, return_with, or_return, or_panic, ◌>>=◌, ◌>>◌, act, modify, wrap,
  report, default_task_check_interval, err_signer_builder,
}

-- The message of a pending request that names a URL.
abbrev pub status_message : Text → Text → Text → Text
status_message prefix label url = prefix ++ (label ++ url)

-- `strings.TrimSpace(strings.SplitN(c.Message, ":", 2)[1])`
unfoldable pub message_url : Condition → Option Text
message_url c = Opt.map trim_space (after_colon c.message)

abbrev pub url_of : Option Condition → Option Text
url_of none = none
url_of (some c) = message_url c

module _ (cm : CmUtil) (rc : Reconciler) (env : Env) where
  abbrev pub say : Reason → Text → Step (Unit {0})
  say reason message = report cm reason message false none

  -- Not yet submitted: the request goes to the CA.
  unfoldable pub submit : Signer → Text → CertificateRequest → Step ⊥
  submit signer token cr = do
    act (Action.submitted cr.spec.request)
    url ←
        or_return (wrap err_signer_builder)
          (signer.submit_certificate_request token cr.spec.request)
    say pending (status_message issuer_condition_status_submitted (codes ", status: ") url)
    return_with default_task_check_interval none

  -- The task is not done: its status decides.
  unfoldable pub await : Text → Text → List Condition → Step ⊥
  await url task cs =
      if text_eq task task_status_processing && not (is_processing cs)
      then (do
        say pending (status_message issuer_condition_status_processing (codes ", resource: ") url)
        return_with default_task_check_interval none)
      else if text_eq task task_status_approved && not (IssuerUtil.is_approved cs)
      then (do
        say pending (status_message issuer_condition_status_approved (codes ", resource: ") url)
        return_with default_task_check_interval none)
      else if text_eq task task_status_declined
      then (do say Request.failed (codes "Request declined"); return_with 0 none)
      else if text_eq task task_status_canceled
      then (do say Request.failed (codes "Request cancelled"); return_with 0 none)
      else if text_eq task task_status_failed
      then (do say Request.failed (codes "Failed in review"); return_with 0 none)
      else return_with default_task_check_interval none

  -- Submitted: the CA is asked for the state of the task.
  unfoldable pub poll : Signer → Text → List Condition → Step ⊥
  unfolding await
  poll signer token cs = do
    url ← or_panic (url_of (get_submitted_condition cs))
    act (Action.polled url)
    (resource, task) ← or_return (wrap err_signer_builder) (signer.request_task_status token url)
    if is_empty resource then await url task cs else (do
      say pending (status_message issuer_condition_status_signed (codes ", resource: ") resource)
      return_with 0 none)

  abbrev pub set_certificate : Text → CertificateRequest → CertificateRequest
  set_certificate signed cr = record cr { status = record cr.status { certificate = signed } }

  abbrev pub set_ca : Option Text → CertificateRequest → CertificateRequest
  set_ca none cr = cr
  set_ca (some ca) cr = record cr { status = record cr.status { ca = ca } }

  -- Signed: the certificate is fetched.
  unfoldable pub fetch : Signer → Text → List Condition → Step ⊥
  fetch signer token cs = do
    url ← or_panic (url_of (get_signed_condition cs))
    act (Action.fetched url)
    signed ← or_return (wrap err_signer_builder) (signer.fetch_certificate token url)
    modify (set_certificate signed)
    modify (set_ca (env.extract_ca signed))
    say issued (codes "Signed")
    return_with 0 none

  -- How far the request has come is read from its conditions.
  unfoldable pub route : Signer → Text → CertificateRequest → Step ⊥
  route signer token cr =
      if is_signed cr.status.conditions
      then fetch signer token cr.status.conditions
      else if is_submitted cr.status.conditions
      then poll signer token cr.status.conditions
      else submit signer token cr
