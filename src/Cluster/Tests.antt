-- ===== src/Cluster/Tests.antt =====
-- A store with one issuer and one request, and a few steps on it.
mod Issued
mod Concurrent
use cert_manager_essendi_xc.Base.{
  ◌≡◌, Option, [], ◌∷◌, inl, inr, refl, sym, ap, arith, none, some, true, false, if◌then◌else◌,
  Bool-cases,
}
use cert_manager_essendi_xc.Base.Errors.{ok, err, Outcome}
use cert_manager_essendi_xc.Base.Text.{
  codes, text_eq, has_prefix, after_colon, trim_space, contains,
}
use cert_manager_essendi_xc.Api
use cert_manager_essendi_xc.Api.{Issuer, IssuerStatus}
use cert_manager_essendi_xc.Cluster.{
  IssuerObject, Cluster, name_eq, ref_eq, object_of, check_issuer, put_request, Answers, Steps,
  issuer_run, condition_written, done, next,
}
use cert_manager_essendi_xc.Cluster.Checked.{IsReferred, contact_checked}
use cert_manager_essendi_xc.Cluster.Issued.{
  IsServing, IsNew, Gives, checked_object, checked_twice, new_request_issued,
}
use cert_manager_essendi_xc.Cluster.Once.{submitted_once_among}
use cert_manager_essendi_xc.IssuerController
use cert_manager_essendi_xc.IssuerController.{check_health, reconcile_object}
use cert_manager_essendi_xc.IssuerUtil.{
  set_ready_condition, get_spec_and_status, get_ready_condition, is_ready, says_submitted,
  says_signed, get_submitted_condition, get_signed_condition, is_submitted, is_signed,
}
use cert_manager_essendi_xc.Signer.Essendi.{
  signer_from_issuer_and_secret_data, get_refresh_token, parse_csr,
}
use cert_manager_essendi_xc.Signer.Submit.{
  submit_certificate_request, custom_fields, submission, submitted_response,
}
use cert_manager_essendi_xc.Signer.Task.{request_task_status, task_response}
use cert_manager_essendi_xc.Signer.Fetch.{fetch_certificate, fetched_response}
use cert_manager_essendi_xc.Signer.Client.{signer}
use cert_manager_essendi_xc.Request.{CertificateRequest, Any}
use cert_manager_essendi_xc.Request.Sample.{cm_util}
use cert_manager_essendi_xc.RequestController.{
  is_ignored, reconcile_found, open_signer, message_url, body, deny, initialise, sign, route,
  submit, poll, await, fetch, deferred,
}
use cert_manager_essendi_xc.RequestController.Deferred.{after}
use cert_manager_essendi_xc.RequestController.Lifecycle.{IsForeign, IsWellFormed}
use cert_manager_essendi_xc.RequestController.Referenced.{Ref, issuer}
use cert_manager_essendi_xc.RequestController.Safety.{IsContact}
use cert_manager_essendi_xc.RequestController.Settled.Body.{IsSubmission}
use cert_manager_essendi_xc.RequestController.Sample.Facts
use cert_manager_essendi_xc.RequestController.Sample.Facts.{ca}
use cert_manager_essendi_xc.IssuerController.Health.{IsHealthy}
use cert_manager_essendi_xc.RequestController.Sample.{
  world, signing, reconciler, fresh, approval, spec, secret, request_with,
}
use cert_manager_essendi_xc.RequestController.Steps.{
  client_object, Kind, NamespacedName, Env, put, report, returned, found,
}
use cert_manager_essendi_xc.Signer.Essendi.{health_checker_from_issuer_and_secret_data}

abbrev ca_name : NamespacedName
ca_name = record { namespace = codes "ns"; name = codes "ca" }

abbrev request_name : NamespacedName
request_name = record { namespace = codes "ns"; name = codes "r" }

abbrev first_seen : IssuerObject
first_seen = record {
  spec = spec;
  status = record {
    conditions =
        record {
          type = Api.ready;
          status = Api.unknown;
          last_transition_time = some 1;
          reason = codes "IssuerReconciler";
          message = codes "First seen";
        }
        ∷ [];
  };
}

abbrev with_request : CertificateRequest → Cluster
with_request cr = record {
  issuers = λ q. if ref_eq q (issuer ca_name) then some first_seen else none;
  requests = λ n. if name_eq n request_name then some cr else none;
  verdicts = λ q. none;
}

abbrev health_env : IssuerController.Env
health_env = record {
  reconciler = record { kind = codes "Issuer"; cluster_resource_namespace = codes "cert-manager" };
  scheme_new = λ kind. ok (client_object Kind.issuer);
  get_object = λ kind n. found (object_of (issuer ca_name) first_seen);
  get_secret = λ n. ok (λ key. none);
  health_checker_builder = health_checker_from_issuer_and_secret_data;
  now = 9;
  update = λ s. none;
  aggregate = λ e u. u;
}

-- The store behind the health check.
abbrev checked : Cluster
checked = check_issuer (issuer ca_name) first_seen health_env (with_request fresh)

abbrev checked_status : IssuerStatus
checked_status =
    (reconcile_object health_env ca_name (object_of (issuer ca_name) first_seen) first_seen.spec
      first_seen.status).1.stored

there : (cr : CertificateRequest) → (with_request cr).issuers (issuer ca_name) ≡ some first_seen
unfolding text_eq codes
there cr = refl

abbrev health_steps : Steps cm_util reconciler (with_request fresh) checked
health_steps = next (issuer_run (issuer ca_name) first_seen health_env (there fresh)) done

abbrev checked_issuer : Issuer
checked_issuer = record {
  metadata = record { name = codes "ca"; namespace = codes "ns" };
  spec = spec;
  status = checked_status;
}

-- The request controller finds the issuer as the health check left it.
abbrev checked_world : Env
checked_world = record (world signing) {
  get_issuer = λ n.
      if name_eq n ca_name then ok checked_issuer else err (record { text = codes "not found" });
}

unready :
    (r : Ref) (o : IssuerObject)
    → (with_request fresh).issuers r ≡ some o
    → is_ready o.status ≡ false
unfolding is_ready get_ready_condition
unready r o h = elim (Bool-cases (ref_eq r (issuer ca_name))) [
  | inl here ↦ sym (
      ap (λ (x : Option IssuerObject). elim x [ none ↦ false | some y ↦ is_ready y.status ])
        (rw here at h))
  | inr other ↦ absurd (ground arith)
]

checked-Answers : Answers checked checked_world
checked-Answers = record {
  issuers = λ n i h. elim (Bool-cases (name_eq n ca_name)) [
    | inl here ↦ rw here (
        ap
          (λ (x : Outcome Issuer). elim x [
            | ok y ↦ some (record { spec = y.spec; status = y.status })
            | _ ↦ none
          ])
          (rw here at h))
    | inr other ↦ absurd (ground arith)
  ];
  cluster_issuers = λ n i h. absurd (ground arith);
}

asked_checked : Any IsContact (reconcile_found cm_util reconciler checked_world fresh).1.actions
unfolding reconcile_found body deny initialise sign open_signer route submit poll await fetch
    deferred report is_ignored signer get_refresh_token submit_certificate_request parse_csr
    custom_fields submission submitted_response request_task_status task_response fetch_certificate
    fetched_response get_spec_and_status is_ready get_ready_condition
    signer_from_issuer_and_secret_data is_signed get_signed_condition says_signed is_submitted
    get_submitted_condition says_submitted message_url has_prefix after_colon trim_space contains
    text_eq codes reconcile_object check_health IssuerController.body IssuerController.deferred
    IssuerController.report health_checker_from_issuer_and_secret_data set_ready_condition
asked_checked = inl tt

contact_checked_example :
    (r : Ref) × (o : IssuerObject) × IsReferred cm_util reconciler checked_world fresh r
    × (checked.issuers r ≡ some o)
    × (is_ready o.status ≡ true)
    × (checked.verdicts r ≡ some true)
contact_checked_example =
    contact_checked cm_util reconciler health_steps checked_world fresh unready checked-Answers
      asked_checked

abbrev sent : CertificateRequest
sent = after cm_util reconciler (world signing) fresh

sent_now : Any IsSubmission (reconcile_found cm_util reconciler (world signing) fresh).1.actions
unfolding reconcile_found body deny initialise sign open_signer route submit poll await fetch
    deferred report is_ignored signer get_refresh_token submit_certificate_request parse_csr
    custom_fields submission submitted_response request_task_status task_response fetch_certificate
    fetched_response get_spec_and_status is_ready get_ready_condition
    signer_from_issuer_and_secret_data is_signed get_signed_condition says_signed is_submitted
    get_submitted_condition says_submitted message_url has_prefix after_colon trim_space contains
    text_eq codes
sent_now = inr (inl tt)

returned_now :
    (reconcile_found cm_util reconciler (world signing) fresh).0
    ≡ returned (record { requeue_after = 15 }) none
unfolding reconcile_found body deny initialise sign open_signer route submit poll await fetch
    deferred report is_ignored signer get_refresh_token submit_certificate_request parse_csr
    custom_fields submission submitted_response request_task_status task_response fetch_certificate
    fetched_response get_spec_and_status is_ready get_ready_condition
    signer_from_issuer_and_secret_data is_signed get_signed_condition says_signed is_submitted
    get_submitted_condition says_submitted message_url has_prefix after_colon trim_space contains
    text_eq codes
returned_now = refl

approval-IsForeign : IsForeign approval
unfolding says_submitted says_signed has_prefix codes
approval-IsForeign = record {
  other_type = λ e. ground arith;
  no_submitted = refl;
  no_signed = refl;
}

fresh-IsWellFormed : IsWellFormed fresh.status.conditions
fresh-IsWellFormed = inr (approval-IsForeign, inl (refl, tt))

sent_there : (cr : CertificateRequest) → (with_request cr).requests request_name ≡ some cr
unfolding text_eq codes
sent_there cr = refl

abbrev approved_again : Cluster
approved_again =
    check_issuer (issuer ca_name) first_seen health_env
      (put_request request_name (put cm_util approval sent) (with_request sent))

-- The request is approved once more, and its issuer is checked.
abbrev among_steps : Steps cm_util reconciler (with_request sent) approved_again
among_steps =
    next (condition_written request_name sent approval (sent_there sent) approval-IsForeign)
      (next (issuer_run (issuer ca_name) first_seen health_env (there sent)) done)

approved_there : approved_again.requests request_name ≡ some (put cm_util approval sent)
unfolding text_eq codes
approved_there = refl
