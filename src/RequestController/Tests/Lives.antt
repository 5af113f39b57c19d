-- ===== src/RequestController/Tests/Lives.antt =====
-- Lives of requests in a small world.
use cert_manager_essendi_xc.Base.{◌≤◌, ◌≡◌, ◌≢◌, [], ◌∷◌, inl, inr, refl, arith, if◌then◌else◌}
use cert_manager_essendi_xc.Base.Text.{
  codes, text_eq, has_prefix, after_colon, trim_space, contains,
}
use cert_manager_essendi_xc.Api.{issuer_condition_status_submitted}
use cert_manager_essendi_xc.IssuerUtil.{
  get_spec_and_status, get_ready_condition, is_ready, says_submitted, says_signed,
  get_submitted_condition, get_signed_condition, is_submitted, is_signed,
}
use cert_manager_essendi_xc.Signer.Essendi.{
  signer_from_issuer_and_secret_data, get_refresh_token, parse_csr,
}
use cert_manager_essendi_xc.Signer.Submit.{
  submit_certificate_request, custom_fields, submission, submitted_response,
}
use cert_manager_essendi_xc.Signer.Task.{request_task_status, task_response}
use cert_manager_essendi_xc.Signer.Fetch.{fetch_certificate, fetched_response}
use cert_manager_essendi_xc.Signer.Client.{signer}
use cert_manager_essendi_xc.Request.{pending}
use cert_manager_essendi_xc.Request.Sample.{cm_util}
use cert_manager_essendi_xc.RequestController.{
  is_ignored, reconcile_found, say, status_message, open_signer, message_url, body, deny,
  initialise, sign, route, submit, poll, await, fetch, deferred,
}
use cert_manager_essendi_xc.RequestController.Bounds.{
  IsPaced, contacts, events, updates, run_bounds,
}
use cert_manager_essendi_xc.RequestController.Deferred.{start, after_all}
use cert_manager_essendi_xc.RequestController.Lifecycle.{Phase, phase, IsForeign, IsWellFormed}
use cert_manager_essendi_xc.RequestController.Lifecycle.Messages.{Leads, messages_round_trip}
use cert_manager_essendi_xc.RequestController.Lifecycle.Refines.{IsStepwise, lifecycle_refines}
use cert_manager_essendi_xc.RequestController.Sample.{
  world, signing, unreachable, reconciler, fetching, fresh, approval,
}
use cert_manager_essendi_xc.RequestController.Steps.{report, polled}
use cert_manager_essendi_xc.RequestController.Sample.Facts.{ca}

approval-IsForeign : IsForeign approval
unfolding says_submitted says_signed has_prefix codes
approval-IsForeign = record {
  other_type = λ e. ground arith;
  no_submitted = refl;
  no_signed = refl;
}

fetching-IsWellFormed : IsWellFormed fetching.status.conditions
fetching-IsWellFormed = inr (approval-IsForeign, inl (refl, tt))

lifecycle_refines_example :
    IsStepwise cm_util reconciler (world unreachable ∷ world signing ∷ []) fetching
lifecycle_refines_example =
    lifecycle_refines cm_util reconciler (world unreachable ∷ world signing ∷ []) fetching
      fetching-IsWellFormed

fetching_unissued : phase fetching.status.conditions ≢ Phase.issued
unfolding says_submitted says_signed has_prefix codes
fetching_unissued e = ground arith

fetching_issued :
    phase (after_all cm_util reconciler (world signing ∷ []) fetching).status.conditions
    ≡ Phase.issued
unfolding after_all reconcile_found body deny initialise sign open_signer route submit poll await
    fetch deferred report is_ignored signer get_refresh_token submit_certificate_request parse_csr
    custom_fields submission submitted_response request_task_status task_response fetch_certificate
    fetched_response get_spec_and_status is_ready get_ready_condition
    signer_from_issuer_and_secret_data is_signed get_signed_condition says_signed is_submitted
    get_submitted_condition says_submitted message_url has_prefix after_colon trim_space contains
    text_eq codes
fetching_issued = refl

run_bounds_example :
    let (e, r) = reconcile_found cm_util reconciler (world signing) fresh in
    IsPaced e
    × (contacts r.actions ≤ 2)
    × (events r.actions ≤ 1)
    × (updates r.actions ≡ (if is_ignored cm_util reconciler fresh then 0 else 1))
run_bounds_example = run_bounds cm_util reconciler (world signing) fresh

fresh-IsWellFormed : IsWellFormed fresh.status.conditions
fresh-IsWellFormed = inr (approval-IsForeign, inl (refl, tt))

messages_round_trip_example :
    Leads cm_util reconciler
      (world signing)
      (ca signing)
      (codes "T")
      Phase.submitted
      (polled (trim_space (codes "https://ca/t/1")))
      (say cm_util reconciler
        (world signing)
        pending
        (status_message issuer_condition_status_submitted
          (codes ", status: ")
          (codes "https://ca/t/1"))
        (start fresh)).1.request
messages_round_trip_example =
    (messages_round_trip cm_util reconciler (world signing) (world signing) (ca signing) (codes "T")
      (codes "https://ca/t/1") (start fresh) fresh-IsWellFormed).0
