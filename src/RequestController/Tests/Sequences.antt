-- ===== src/RequestController/Tests/Sequences.antt =====
-- Sequences of runs, failing updates and other secrets, in a small world.
use cert_manager_essendi_xc.Base.{true, false, ◌≡◌, ◌⊎◌, if◌then◌else◌, refl, some, [], ◌∷◌}
use cert_manager_essendi_xc.Base.Errors.{Error, Outcome, ok, err}
use cert_manager_essendi_xc.Base.Text.{
  codes, text_eq, has_prefix, contains, after_colon, trim_space,
}
use cert_manager_essendi_xc.IssuerUtil.{
  get_spec_and_status, get_ready_condition, is_ready, says_signed, get_signed_condition, is_signed,
}
use cert_manager_essendi_xc.Request.{Any}
use cert_manager_essendi_xc.Request.Sample.{cm_util}
use cert_manager_essendi_xc.Signer.{SecretData}
use cert_manager_essendi_xc.Signer.Essendi.{signer_from_issuer_and_secret_data, get_refresh_token}
use cert_manager_essendi_xc.Signer.Fetch.{fetch_certificate, fetched_response}
use cert_manager_essendi_xc.Signer.Client.{signer}
use cert_manager_essendi_xc.RequestController.{
  is_ignored, open_signer, reconcile_found, message_url, body, sign, route, fetch,
}
use cert_manager_essendi_xc.RequestController.Deferred.{after, after_all, ended_by, is_refused}
use cert_manager_essendi_xc.RequestController.Isolation.{AgreeOn, with_secrets, secrets_isolated}
use cert_manager_essendi_xc.RequestController.Progress.{IsStepBack, signed_goes_on}
use cert_manager_essendi_xc.RequestController.Sample.{
  world, signing, unreachable, reconciler, fresh, fetching,
}
use cert_manager_essendi_xc.RequestController.Settled.{is_final}
use cert_manager_essendi_xc.RequestController.Steps.{NamespacedName, Kind, Env}
use cert_manager_essendi_xc.RequestController.Update.{joined, taking, update_failed}

unrefused : is_refused (ended_by cm_util reconciler (world unreachable) fetching) ≡ false
unfolding body sign route fetch open_signer signer get_refresh_token fetch_certificate
    fetched_response get_spec_and_status is_ready get_ready_condition
    signer_from_issuer_and_secret_data is_signed get_signed_condition says_signed message_url
    has_prefix after_colon trim_space contains text_eq codes
unrefused = refl

signed_now : is_signed fetching.status.conditions ≡ true
unfolding is_signed get_signed_condition says_signed has_prefix codes
signed_now = refl

signed_goes_on_example :
    let now = after_all cm_util reconciler (world unreachable ∷ []) fetching in
    (Any (λ c. is_final c ≡ true) now.status.conditions ⊎ (is_signed now.status.conditions ≡ true))
    × (¬ Any IsStepBack (reconcile_found cm_util reconciler (world signing) now).1.actions)
signed_goes_on_example =
    signed_goes_on cm_util reconciler (world unreachable ∷ []) (world signing) fetching signed_now
      (unrefused, tt)

abbrev conflict : Error
conflict = record { text = codes "the object has been modified" }

abbrev contended : Env
contended = record (world signing) { update = λ c. some conflict }

fresh_live : is_ignored cm_util reconciler fresh ≡ false
unfolding is_ignored text_eq codes
fresh_live = refl

update_failed_example :
    ((reconcile_found cm_util reconciler contended fresh).0
      ≡ joined contended conflict (reconcile_found cm_util reconciler (taking contended) fresh).0)
    × (after cm_util reconciler contended fresh ≡ fresh)
update_failed_example =
    update_failed cm_util reconciler contended conflict (λ c. refl) fresh fresh_live

-- Only the namespace of the request has secrets.
abbrev own_secrets : NamespacedName → Outcome SecretData
own_secrets n =
    if text_eq n.namespace (codes "ns")
    then ok (λ key. some key)
    else err (record { text = codes "not found" })

own_agree : AgreeOn cm_util reconciler (world signing) own_secrets fresh Kind.issuer
unfolding text_eq codes
own_agree name = refl

secrets_isolated_example :
    reconcile_found cm_util reconciler
      (with_secrets cm_util reconciler (world signing) own_secrets fresh)
      fresh
    ≡ reconcile_found cm_util reconciler (world signing) fresh
secrets_isolated_example =
    secrets_isolated cm_util reconciler (world signing) own_secrets fresh Kind.issuer refl own_agree
