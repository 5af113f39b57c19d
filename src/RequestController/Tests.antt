-- ===== src/RequestController/Tests.antt =====
-- Runs of the controller in a small world.
mod Refusals
mod Lives
mod Outages
mod Ends
mod Sequences
use cert_manager_essendi_xc.Base.{
  ℕ, Bool, true, false, ◌≡◌, ◌≢◌, refl, Option, none, some, List, [], ◌∷◌, ◌++◌, inl, inr, All,
  arith, ◌⊎◌,
}
use cert_manager_essendi_xc.Base.Errors.{Error, Outcome, ok, err, ◌>>=◌}
use cert_manager_essendi_xc.Base.Text.{
  Text, codes, text_eq, is_empty, trim_space, trim_left, is_space, contains, has_prefix,
  after_colon,
}
use cert_manager_essendi_xc.IssuerUtil.{
  get_spec_and_status, get_ready_condition, is_ready, says_submitted, says_signed,
  get_submitted_condition, get_signed_condition, is_submitted, is_signed,
}
use cert_manager_essendi_xc.Request
use cert_manager_essendi_xc.Request.{
  CertificateRequest, Condition, Any, HasReason, HasStatus, ready, approved, denied, is_true,
  is_false, issued,
}
use cert_manager_essendi_xc.Request.Sample.{cm_util}
use cert_manager_essendi_xc.Signer.{Signer}
use cert_manager_essendi_xc.Signer.Http.{HttpRequest, Response}
use cert_manager_essendi_xc.Signer.Essendi.{
  signer_from_issuer_and_secret_data, get_refresh_token, parse_csr,
}
use cert_manager_essendi_xc.Signer.Submit.{
  submit_certificate_request, custom_fields, submission, submitted_response,
}
use cert_manager_essendi_xc.Signer.Task.{request_task_status, task_response}
use cert_manager_essendi_xc.Signer.Fetch.{fetch_certificate, fetched_response}
use cert_manager_essendi_xc.Signer.Client.{signer}
use cert_manager_essendi_xc.Signer.Accepted.{submit-IsAccepted}
use cert_manager_essendi_xc.Signer.Located.{task-IsLocated}
use cert_manager_essendi_xc.Signer.Panics.{fetch-IsAnswered}
use cert_manager_essendi_xc.RequestController.{
  is_ignored, open_signer, reconcile_found, message_url, url_of, body, deny, initialise, sign,
  route, submit, poll, await, fetch, deferred, reconcile,
}
use cert_manager_essendi_xc.RequestController.Await.{await_run, is_given_up}
use cert_manager_essendi_xc.RequestController.Certificate.{certificate_issued}
use cert_manager_essendi_xc.RequestController.Deferred.{
  start, empty, after, after_all, ended_by, is_refused,
}
use cert_manager_essendi_xc.RequestController.Errors.{error_unreported, colonless_panics}
use cert_manager_essendi_xc.RequestController.Essendi.{IsServed, essendi_journey, unreached_waits}
use cert_manager_essendi_xc.RequestController.Final.{final_absorbs, unapproved_untouched, deny_run}
use cert_manager_essendi_xc.RequestController.Journey.{submit_run, poll_run, fetch_run, journey}
use cert_manager_essendi_xc.RequestController.Once.{submitted_once}
use cert_manager_essendi_xc.RequestController.Open.{IsOpen}
use cert_manager_essendi_xc.RequestController.Routes.{IsHealthy}
use cert_manager_essendi_xc.RequestController.Safety.{IsEligible, reconcile_contact-IsEligible}
use cert_manager_essendi_xc.RequestController.Settled.{is_final}
use cert_manager_essendi_xc.RequestController.Settled.Body.{IsSubmission}
use cert_manager_essendi_xc.RequestController.Sample.{
  http, world, signing, declining, unreachable, reconciler, ca_signer, request_with, approval,
  pending_as, fresh, waiting, fetching,
}
use cert_manager_essendi_xc.RequestController.Stages.{IsPolling, IsFetching}
use cert_manager_essendi_xc.RequestController.Steps.{
  not_found, returned, panicked, go, Run, Env, Exit, report,
}
use cert_manager_essendi_xc.RequestController.Sample.Facts.{
  healthy, pending-IsOpen, fresh-IsOpen, waiting-IsOpen, fetching-IsOpen, task_url, certificate_url,
  fresh_unsigned, fresh_unsubmitted, sent, told, given, declined, polling,
  signed_request-IsFetching, resource_full, certificate_full, served, ca,
}

-- The request after three runs.
abbrev thrice : CertificateRequest → CertificateRequest
thrice cr =
    after cm_util reconciler (world signing)
      (after cm_util reconciler (world signing) (after cm_util reconciler (world signing) cr))

-- For a request that is gone there is nothing to do.
missing :
    reconcile cm_util reconciler (world signing) not_found
    ≡ (returned (record { requeue_after = 0 }) none, [])
unfolding reconcile
missing = refl
