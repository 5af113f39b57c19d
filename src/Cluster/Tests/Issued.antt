-- ===== src/Cluster/Tests/Issued.antt =====
-- A new issuer and a new request, and the runs that lead to the certificate.
use cert_manager_essendi_xc.Base.{
  ◌≡◌, true, [], ◌∷◌, inl, inr, refl, ap, arith, none, some, if◌then◌else◌, Bool-cases,
}
use cert_manager_essendi_xc.Base.Errors.{ok, err, Outcome}
use cert_manager_essendi_xc.Base.Text.{codes, text_eq, has_prefix}
use cert_manager_essendi_xc.Api.{Issuer}
use cert_manager_essendi_xc.Cluster.{IssuerObject, Cluster, name_eq, ref_eq, Answers}
use cert_manager_essendi_xc.Cluster.Issued.{
  IsServing, IsNew, Gives, checked_object, checked_twice, new_request_issued,
}
use cert_manager_essendi_xc.IssuerUtil.{
  get_ready_condition, says_submitted, says_signed, get_submitted_condition, get_signed_condition,
  is_submitted, is_signed, is_ready,
}
use cert_manager_essendi_xc.Signer.Essendi.{signer_from_issuer_and_secret_data, get_refresh_token}
use cert_manager_essendi_xc.Signer.Client.{signer}
use cert_manager_essendi_xc.Request.{CertificateRequest, Any, HasReason, ready, is_true, issued}
use cert_manager_essendi_xc.Request.Sample.{cm_util}
use cert_manager_essendi_xc.RequestController.{is_ignored}
use cert_manager_essendi_xc.RequestController.Deferred.{after}
use cert_manager_essendi_xc.RequestController.Referenced.{issuer}
use cert_manager_essendi_xc.RequestController.Sample.Facts
use cert_manager_essendi_xc.RequestController.Sample.Facts.{ca}
use cert_manager_essendi_xc.IssuerController.Checks.{IsPassed}
use cert_manager_essendi_xc.RequestController.Sample.{
  world, signing, reconciler, approval, spec, secret, request_with,
}
use cert_manager_essendi_xc.RequestController.Steps.{Env}
use cert_manager_essendi_xc.Signer.Essendi.{health_checker_from_issuer_and_secret_data}
use cert_manager_essendi_xc.Cluster.Tests.{ca_name, request_name, health_env}

abbrev new_issuer : IssuerObject
new_issuer = record { spec = spec; status = record { conditions = [] } }

abbrev new_request : CertificateRequest
new_request = request_with (approval ∷ [])

abbrev new_store : Cluster
new_store = record {
  issuers = λ q. if ref_eq q (issuer ca_name) then some new_issuer else none;
  requests = λ n. if name_eq n request_name then some new_request else none;
  verdicts = λ q. none;
}

abbrev ready_issuer : Issuer
ready_issuer = record {
  metadata = record { name = codes "ca"; namespace = codes "ns" };
  spec = spec;
  status =
      (checked_object ca_name (checked_object ca_name new_issuer health_env) health_env).status;
}

abbrev ready_world : Env
ready_world = record (world signing) {
  get_issuer =
      λ n. if name_eq n ca_name then ok ready_issuer else err (record { text = codes "not found" });
}

ready-Answers :
    Answers (checked_twice ca_name new_issuer health_env health_env new_store) ready_world
ready-Answers = record {
  issuers = λ n i h. elim (Bool-cases (name_eq n ca_name)) [
    | inl here ↦ rw here (
        ap
          (λ (x : Outcome Issuer). elim x [
            | ok y ↦ some (record { spec = y.spec; status = y.status })
            | _ ↦ none
          ])
          (rw here at h))
    | inr other ↦ absurd (ground arith)
  ];
  cluster_issuers = λ n i h. absurd (ground arith);
}

ready-IsServing :
    IsServing reconciler
      (ca signing)
      new_request
      (checked_twice ca_name new_issuer health_env health_env new_store)
      ready_world
unfolding text_eq codes signer_from_issuer_and_secret_data
ready-IsServing = record {
  answers = ready-Answers;
  found = ready_issuer;
  given = refl;
  kind = refl;
  secret = secret;
  read = refl;
  built = refl;
  stores = λ x. refl;
}

ca-Gives :
    Gives
      (ca signing)
      (codes "T")
      (codes "CSR")
      (codes "https://ca/t/1")
      (codes "https://ca/c/1")
      []
      (codes "CERT")
unfolding signer get_refresh_token
ca-Gives = record {
  token = refl;
  sent = Facts.sent;
  told = Facts.told;
  given = Facts.given;
  url_trimmed = Facts.task_url;
  resource_trimmed = Facts.certificate_url;
  resource_full = Facts.resource_full;
}

new_request-IsNew : IsNew cm_util reconciler new_request
unfolding is_ignored text_eq codes is_signed get_signed_condition says_signed is_submitted
    get_submitted_condition says_submitted has_prefix
new_request-IsNew = record {
  live = refl;
  free = refl;
  unseen = refl;
  unsigned = refl;
  unsubmitted = refl;
}

new_issuer-IsPassed :
    IsPassed health_env spec (record { namespace = codes "ns"; name = spec.auth_secret_name })
unfolding health_checker_from_issuer_and_secret_data
new_issuer-IsPassed = record { secret = _; checker = _; read = refl; built = refl; passed = refl }

new_found : new_store.issuers (issuer ca_name) ≡ some new_issuer
unfolding text_eq codes
new_found = refl

new_unseen : get_ready_condition new_issuer.status ≡ none
unfolding get_ready_condition
new_unseen = refl

new_request_issued_example :
    let last = after cm_util reconciler ready_world (
      after cm_util reconciler ready_world (
        after cm_util reconciler ready_world (after cm_util reconciler ready_world new_request))) in
    ((o2 : IssuerObject) × ((checked_twice ca_name new_issuer health_env health_env
            new_store).issuers
          (issuer ca_name)
        ≡ some o2)
      × (is_ready o2.status ≡ true))
    × (last.status.certificate ≡ codes "CERT")
    × Any (HasReason ready is_true issued) last.status.conditions
new_request_issued_example =
    new_request_issued cm_util reconciler new_request (ca signing) (codes "T")
      (codes "https://ca/t/1") (codes "https://ca/c/1") [] (codes "CERT") new_store new_issuer
      health_env health_env ready_world ready_world ready_world ready_world new_found new_unseen
      (λ x. refl) new_issuer-IsPassed (λ x. refl) new_request-IsNew ca-Gives ready-IsServing
      ready-IsServing ready-IsServing ready-IsServing
