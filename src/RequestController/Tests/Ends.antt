-- ===== src/RequestController/Tests/Ends.antt =====
-- Runs that wait, fail or do nothing, in a small world.
use cert_manager_essendi_xc.Base.{
  true, false, ◌≡◌, ◌≢◌, refl, none, some, [], ◌∷◌, inl, inr, All, arith, ◌⊎◌,
}
use cert_manager_essendi_xc.Base.Errors.{Error}
use cert_manager_essendi_xc.Base.Text.{
  codes, text_eq, trim_space, contains, has_prefix, after_colon,
}
use cert_manager_essendi_xc.IssuerUtil.{
  get_spec_and_status, get_ready_condition, is_ready, says_submitted, says_signed,
  get_submitted_condition, get_signed_condition, is_submitted, is_signed,
}
use cert_manager_essendi_xc.Request
use cert_manager_essendi_xc.Request.{
  CertificateRequest, Condition, Any, HasReason, HasStatus, ready, approved, denied, is_true,
  is_false, issued,
}
use cert_manager_essendi_xc.Request.Sample.{cm_util}
use cert_manager_essendi_xc.Signer.Essendi.{
  signer_from_issuer_and_secret_data, get_refresh_token, parse_csr,
}
use cert_manager_essendi_xc.Signer.Submit.{
  submit_certificate_request, custom_fields, submission, submitted_response,
}
use cert_manager_essendi_xc.Signer.Task.{request_task_status, task_response}
use cert_manager_essendi_xc.Signer.Fetch.{fetch_certificate, fetched_response}
use cert_manager_essendi_xc.Signer.Client.{signer}
use cert_manager_essendi_xc.RequestController.{
  err_signer_refused, is_ignored, open_signer, reconcile_found, message_url, body, deny, initialise,
  sign, route, submit, poll, await, fetch, deferred,
}
use cert_manager_essendi_xc.RequestController.Await.{await_run, is_given_up}
use cert_manager_essendi_xc.RequestController.Certificate.{certificate_issued}
use cert_manager_essendi_xc.RequestController.Deferred.{
  start, empty, after, after_all, ended_by, is_refused,
}
use cert_manager_essendi_xc.RequestController.Errors.{error_unreported, colonless_panics}
use cert_manager_essendi_xc.RequestController.Essendi.{unreached_waits}
use cert_manager_essendi_xc.RequestController.Final.{final_absorbs, unapproved_untouched, deny_run}
use cert_manager_essendi_xc.RequestController.Journey.{submit_run}
use cert_manager_essendi_xc.RequestController.Open.{IsOpen}
use cert_manager_essendi_xc.RequestController.Safety.{IsEligible, reconcile_contact-IsEligible}
use cert_manager_essendi_xc.RequestController.Settled.Body.{IsSubmission}
use cert_manager_essendi_xc.RequestController.Sample.{
  http, world, signing, declining, unreachable, reconciler, ca_signer, request_with, approval,
  pending_as, fresh, waiting, fetching,
}
use cert_manager_essendi_xc.RequestController.Stages.{IsPolling}
use cert_manager_essendi_xc.RequestController.Steps.{returned, panicked, report}
use cert_manager_essendi_xc.RequestController.Sample.Facts.{
  asked_now, healthy, fresh-IsOpen, waiting-IsOpen, task_url, fresh_unsigned, fresh_unsubmitted,
  sent, declined, polling, ca,
}

abbrev sent_once : CertificateRequest
sent_once = after cm_util reconciler (world signing) fresh

contacted : Any IsSubmission (reconcile_found cm_util reconciler (world signing) fresh).1.actions
unfolding reconcile_found body deny initialise sign open_signer route submit poll await fetch
    deferred report is_ignored signer get_refresh_token submit_certificate_request parse_csr
    custom_fields submission submitted_response request_task_status task_response fetch_certificate
    fetched_response get_spec_and_status is_ready get_ready_condition
    signer_from_issuer_and_secret_data is_signed get_signed_condition says_signed is_submitted
    get_submitted_condition says_submitted message_url has_prefix after_colon trim_space contains
    text_eq codes
contacted = inr (inl tt)

unrefused : is_refused (ended_by cm_util reconciler (world unreachable) sent_once) ≡ false
unfolding reconcile_found body deny initialise sign open_signer route submit poll await fetch
    deferred report is_ignored signer get_refresh_token submit_certificate_request parse_csr
    custom_fields submission submitted_response request_task_status task_response fetch_certificate
    fetched_response get_spec_and_status is_ready get_ready_condition
    signer_from_issuer_and_secret_data is_signed get_signed_condition says_signed is_submitted
    get_submitted_condition says_submitted message_url has_prefix after_colon trim_space contains
    text_eq codes
unrefused = refl

submitted_now :
    (reconcile_found cm_util reconciler (world signing) fresh).0
    ≡ returned (record { requeue_after = 15 }) none
unfolding signer
submitted_now =
    (submit_run cm_util reconciler (ca signing) (codes "T") (world signing) fresh
      (healthy signing fresh) fresh-IsOpen (codes "https://ca/t/1") task_url fresh_unsigned
      fresh_unsubmitted sent).0

reconcile_contact-IsEligible_example : IsEligible reconciler fresh
reconcile_contact-IsEligible_example =
    reconcile_contact-IsEligible cm_util reconciler (world signing) fresh asked_now

cert_full : (after cm_util reconciler (world signing) fetching).status.certificate ≢ []
unfolding reconcile_found body deny initialise sign open_signer route submit poll await fetch
    deferred report is_ignored signer get_refresh_token submit_certificate_request parse_csr
    custom_fields submission submitted_response request_task_status task_response fetch_certificate
    fetched_response get_spec_and_status is_ready get_ready_condition
    signer_from_issuer_and_secret_data is_signed get_signed_condition says_signed is_submitted
    get_submitted_condition says_submitted message_url has_prefix after_colon trim_space contains
    text_eq codes
cert_full e = ground arith

certificate_issued_example :
    ((reconcile_found cm_util reconciler (world signing) fetching).0 ≡ returned empty none)
    × Any
        (HasReason ready is_true issued)
        (after cm_util reconciler (world signing) fetching).status.conditions
certificate_issued_example =
    certificate_issued cm_util reconciler (world signing) fetching cert_full

waiting_quiet : All (λ d. d.type ≢ ready → says_submitted d ≡ false) waiting.status.conditions
unfolding says_submitted has_prefix codes
waiting_quiet = ((λ _. refl), ((λ n. absurd (n refl)), tt))

await_run_example :
    let (e, r) = reconcile_found cm_util reconciler (world declining) waiting in
    ((is_given_up (codes "DECLINED") ≡ true)
      × (e ≡ returned (record { requeue_after = 0 }) none)
      × Any (HasReason ready is_false Request.failed) r.stored.status.conditions)
    ⊎ ((is_given_up (codes "DECLINED") ≡ false)
        × (e ≡ returned (record { requeue_after = 15 }) none)
        × IsPolling (codes "https://ca/t/1") r.stored.status.conditions)
unfolding signer
await_run_example =
    await_run cm_util reconciler (ca declining) (codes "T") (world declining) waiting
      (healthy declining waiting) waiting-IsOpen (codes "https://ca/t/1") (codes "DECLINED")
      task_url waiting_quiet polling declined

unreached_waits_example :
    (reconcile_found cm_util reconciler (world unreachable) waiting).0
    ≡ returned (record { requeue_after = 15 }) none
unreached_waits_example =
    (unreached_waits cm_util reconciler (http unreachable) ca_signer (codes "T") (world unreachable)
      waiting (codes "https://ca/t/1") (codes "https://ca/t/1")
      (record { text = codes "no route to host" }) (healthy unreachable waiting) waiting-IsOpen
      task_url waiting_quiet polling refl refl refl).0

abbrev issued_request : CertificateRequest
issued_request = request_with (
    approval
    ∷ record { type = ready; status = is_true; reason = issued; message = codes "Signed" }
    ∷ [])

final_absorbs_example :
    (after_all cm_util reconciler (world signing ∷ []) issued_request ≡ issued_request)
    × (reconcile_found cm_util reconciler (world declining) issued_request
        ≡ (returned empty none, start issued_request))
final_absorbs_example =
    final_absorbs cm_util reconciler (world signing ∷ []) (world declining) issued_request
      (inr (inl refl))

abbrev denied_request : CertificateRequest
denied_request = request_with (
    approval
    ∷ record {
      type = denied;
      status = is_true;
      reason = Request.Reason.other (codes "Policy");
      message = [];
    }
    ∷ [])

denied_live : is_ignored cm_util reconciler denied_request ≡ false
unfolding is_ignored text_eq codes
denied_live = refl

deny_run_example :
    (reconcile_found cm_util reconciler (world signing) denied_request).0 ≡ returned empty none
deny_run_example =
    (deny_run cm_util reconciler (world signing) denied_request denied_live refl (λ c. refl)).0

unapproved_untouched_example :
    reconcile_found cm_util reconciler (world signing) (request_with [])
    ≡ (returned empty none, start (request_with []))
unapproved_untouched_example =
    unapproved_untouched cm_util reconciler (world signing) (request_with []) refl (λ a. a)

abbrev unreachable_error : Error
unreachable_error = record { text = codes "failed to build the signer: no route to host" }

submit_failed :
    (reconcile_found cm_util reconciler (world unreachable) fresh).0
    ≡ returned empty (some unreachable_error)
unfolding reconcile_found body deny initialise sign open_signer route submit poll await fetch
    deferred report is_ignored signer get_refresh_token submit_certificate_request parse_csr
    custom_fields submission submitted_response request_task_status task_response fetch_certificate
    fetched_response get_spec_and_status is_ready get_ready_condition
    signer_from_issuer_and_secret_data is_signed get_signed_condition says_signed is_submitted
    get_submitted_condition says_submitted message_url has_prefix after_colon trim_space contains
    text_eq codes
submit_failed = refl

unreachable_quiet : contains unreachable_error.text err_signer_refused ≡ false
unfolding contains has_prefix codes
unreachable_quiet = refl

error_unreported_example : after cm_util reconciler (world unreachable) fresh ≡ fresh
error_unreported_example =
    error_unreported cm_util reconciler (world unreachable) fresh (λ c. refl) empty
      unreachable_error submit_failed unreachable_quiet

abbrev spoken_approval : Condition
spoken_approval = record {
  type = approved;
  status = is_true;
  reason = Request.Reason.other (codes "Policy");
  message = codes "Certificate request approved by the policy";
}

abbrev spoken : CertificateRequest
spoken = request_with (spoken_approval ∷ pending_as (codes "Initialising Ready condition") ∷ [])

spoken-IsOpen : IsOpen cm_util reconciler spoken
unfolding is_ignored text_eq codes
spoken-IsOpen = record { kept = refl; allowed = refl; seen = λ e. ground arith }

spoken_unsigned : is_signed spoken.status.conditions ≡ false
unfolding is_signed get_signed_condition says_signed has_prefix codes
spoken_unsigned = refl

spoken_found : get_submitted_condition spoken.status.conditions ≡ some spoken_approval
unfolding get_submitted_condition says_submitted has_prefix codes
spoken_found = refl

spoken_colonless : after_colon spoken_approval.message ≡ none
unfolding after_colon codes
spoken_colonless = refl

colonless_panics_example : (reconcile_found cm_util reconciler (world signing) spoken).0 ≡ panicked
colonless_panics_example =
    (colonless_panics cm_util reconciler (world signing) spoken (ca signing) (codes "T")
      (healthy signing spoken) spoken-IsOpen spoken_approval spoken_unsigned spoken_found
      spoken_colonless).0
