-- ===== src/RequestController/Tests/Refusals.antt =====
-- A CA that refuses to give a certificate which it has signed.
use cert_manager_essendi_xc.Base.{false, true, ◌≡◌, refl, inl, inr, arith}
use cert_manager_essendi_xc.Base.Errors.{Error, ok, err}
use cert_manager_essendi_xc.Base.Text.{codes, contains, has_prefix}
use cert_manager_essendi_xc.IssuerUtil.{
  get_spec_and_status, get_ready_condition, is_ready, is_signed, says_submitted, says_signed,
}
use cert_manager_essendi_xc.Request.Sample.{cm_util}
use cert_manager_essendi_xc.RequestController.{err_signer_builder, err_signer_refused, open_signer}
use cert_manager_essendi_xc.RequestController.Deferred.{after}
use cert_manager_essendi_xc.RequestController.Lifecycle.{IsForeign, IsWellFormed}
use cert_manager_essendi_xc.RequestController.Refused.{refused_resubmits}
use cert_manager_essendi_xc.RequestController.Routes.{IsHealthy}
use cert_manager_essendi_xc.RequestController.Sample.{
  world, signing, reconciler, fetching, approval,
}
use cert_manager_essendi_xc.RequestController.Sample.Facts.{
  fetching-IsOpen, signed_request-IsFetching, task_url,
}
use cert_manager_essendi_xc.RequestController.Steps.{Env, wrap}
use cert_manager_essendi_xc.Signer.{Signer}

abbrev refusal : Error
refusal = record { text = codes "unexpected status code: 409 (signing refused)" }

abbrev refusing : Signer
refusing = record {
  get_refresh_token = ok (codes "T");
  submit_certificate_request = λ t csr. ok (codes "https://ca/t/1");
  request_task_status = λ t url. err refusal;
  fetch_certificate = λ t url. err refusal;
}

abbrev refusing_world : Env
refusing_world = record (world signing) { signer_builder = λ spec realm secret. ok refusing }

refusing-IsHealthy : IsHealthy cm_util reconciler refusing (codes "T") refusing_world fetching
unfolding open_signer get_spec_and_status is_ready get_ready_condition
refusing-IsHealthy = record { opened = λ r same. refl; token = refl; stores = λ c. refl }

speaks : contains (wrap err_signer_builder refusal.text) err_signer_refused ≡ true
unfolding contains has_prefix codes
speaks = refl

approval-IsForeign : IsForeign approval
unfolding says_submitted says_signed has_prefix codes
approval-IsForeign = record {
  other_type = λ e. ground arith;
  no_submitted = refl;
  no_signed = refl;
}

fetching-IsWellFormed : IsWellFormed fetching.status.conditions
fetching-IsWellFormed = inr (approval-IsForeign, inl (refl, tt))

refused_resubmits_example :
    is_signed (after cm_util reconciler refusing_world fetching).status.conditions ≡ false
refused_resubmits_example =
    (refused_resubmits cm_util reconciler refusing (codes "T") refusing_world fetching
      refusing-IsHealthy fetching-IsOpen (codes "https://ca/c/1") refusal signed_request-IsFetching
      refl speaks fetching-IsWellFormed refusing_world (codes "https://ca/t/1") refusing-IsHealthy
      refl task_url).0
