-- ===== src/RequestController/Journey.antt =====
-- The runs that take a request from its submission to the issued certificate.
use cert_manager_essendi_xc.Base.{List, false, [], ◌∷◌, ◌≡◌, refl, some, none, Option, ◌∙◌}
use cert_manager_essendi_xc.Base.Errors.{ok}
use cert_manager_essendi_xc.Base.Text.{has_prefix, Text, codes, is_empty, trim_space}
use cert_manager_essendi_xc.IssuerUtil.{
  is_submitted, is_signed, get_submitted_condition, get_signed_condition, says_submitted,
  says_signed,
}
use cert_manager_essendi_xc.IssuerUtil.Submitted.{find-Puts_none}
use cert_manager_essendi_xc.Request.{
  CertificateRequest, ready, issued, is_true, CmUtil, Any, HasReason, Condition, Puts,
}
use cert_manager_essendi_xc.Request.Laws.{Any-Puts_new}
use cert_manager_essendi_xc.Signer.{Signer}
use cert_manager_essendi_xc.RequestController.{
  reconcile_found, set_ca, set_certificate, is_ignored, body, initialise,
}
use cert_manager_essendi_xc.RequestController.Deferred.{start, after, reconcile_body}
use cert_manager_essendi_xc.RequestController.Frame.{after-SameReference}
use cert_manager_essendi_xc.RequestController.Open.{IsOpen, put-IsOpen, report-IsOpen}
use cert_manager_essendi_xc.RequestController.Stages.{
  is_signed-find, is_submitted-find, pending_with, IsPolling, IsFetching, submitted_with,
  signed_with, submitted_with-IsPolling, signed_with-IsFetching,
}
use cert_manager_essendi_xc.RequestController.Steps.{
  event, normal, refreshed, submitted, polled, fetched, updated, Reconciler, Env, returned, report,
  put, stop,
}
use cert_manager_essendi_xc.RequestController.Routes.{
  IsHealthy, still-IsHealthy, issued_now, reconcile_route, route_submit, route_poll, route_fetch,
}

abbrev first_report : Condition
first_report = pending_with (codes "Initialising Ready condition")

still_unsigned :
    {cs cs' : List Condition}
    → Puts first_report cs cs'
    → is_signed cs ≡ false
    → is_signed cs' ≡ false
unfolding is_signed get_signed_condition says_signed has_prefix codes
still_unsigned {cs} p h =
    rw (find-Puts_none says_signed first_report p (is_signed-find cs h) refl) refl

still_unsubmitted :
    {cs cs' : List Condition}
    → Puts first_report cs cs'
    → is_submitted cs ≡ false
    → is_submitted cs' ≡ false
unfolding is_submitted get_submitted_condition says_submitted has_prefix codes
still_unsubmitted {cs} p h =
    rw (find-Puts_none says_submitted first_report p (is_submitted-find cs h) refl) refl

module _ (cm : CmUtil) (rc : Reconciler) where
  set_ca_certificate :
      (env : Env) (ca : Option Text) (cr : CertificateRequest)
      → (set_ca cm rc env ca cr).status.certificate ≡ cr.status.certificate
  set_ca_certificate env none cr = refl
  set_ca_certificate env (some ca) cr = refl

  module _ (s : Signer) (t : Text) (env : Env) (cr : CertificateRequest)
      (up : IsHealthy cm rc s t env cr) (o : IsOpen cm rc cr) where
    -- The run that submits an open request: it is sent once, the object is stored, the request stays
    -- open, and the next run will poll the URL that the CA gave, if no blanks are around it.
    pub submit_run :
        (url : Text)
        → trim_space url ≡ url
        → is_signed cr.status.conditions ≡ false
        → is_submitted cr.status.conditions ≡ false
        → s.submit_certificate_request t cr.spec.request ≡ ok url
        → let (e, r) = reconcile_found cm rc env cr in
          (e ≡ returned (record { requeue_after = 15 }) none)
          × (r.actions
              ≡ refreshed
                ∷ submitted cr.spec.request
                ∷ event normal (submitted_with url).message
                ∷ updated r.stored
                ∷ [])
          × IsOpen cm rc r.stored
          × IsPolling url r.stored.status.conditions
          × (r.stored.spec ≡ cr.spec)
    submit_run url trimmed unsigned unsubmitted answer =
        rw
          (reconcile_route cm rc s t env cr up o _ _
            (route_submit cm rc s t env cr up o url unsigned unsubmitted answer) refl)
          (
            refl,
            refl,
            put-IsOpen cm rc (submitted_with url).message cr o,
            submitted_with-IsPolling url trimmed unsigned (cm.set_condition-Puts _ _) unsubmitted,
            refl,
          )

    -- The run of an open request that polls a URL and is told a resource, with no blanks around it and
    -- not empty: the object is stored with the resource in a pending condition, the request stays open,
    -- and the next run will fetch the certificate from that resource.
    pub poll_run :
        (url resource task : Text)
        → trim_space resource ≡ resource
        → is_empty resource ≡ false
        → IsPolling url cr.status.conditions
        → s.request_task_status t url ≡ ok (resource, task)
        → let (e, r) = reconcile_found cm rc env cr in
          (e ≡ returned (record { requeue_after = 0 }) none)
          × (r.actions
              ≡ refreshed
                ∷ polled url
                ∷ event normal (signed_with resource).message
                ∷ updated r.stored
                ∷ [])
          × IsOpen cm rc r.stored
          × IsFetching resource r.stored.status.conditions
    poll_run url resource task trimmed full p answer =
        rw
          (reconcile_route cm rc s t env cr up o _ _
            (route_poll cm rc s t env cr up o url resource task p answer full) refl)
          (
            refl,
            refl,
            put-IsOpen cm rc (signed_with resource).message cr o,
            signed_with-IsFetching resource trimmed p.unsigned (cm.set_condition-Puts _ _),
          )

    -- The run of an open request that fetches the certificate: it is stored, and the request is Ready as
    -- Issued.
    pub fetch_run :
        (url certificate : Text)
        → IsFetching url cr.status.conditions
        → s.fetch_certificate t url ≡ ok certificate
        → let (e, r) = reconcile_found cm rc env cr in
          (e ≡ returned (record { requeue_after = 0 }) none)
          × (r.actions
              ≡ refreshed ∷ fetched url ∷ event normal (codes "Signed") ∷ updated r.stored ∷ [])
          × (r.stored.status.certificate ≡ certificate)
          × Any (HasReason ready is_true issued) r.stored.status.conditions
    fetch_run url certificate p answer =
        let c =
          set_ca_certificate env (env.extract_ca certificate)
            (set_certificate cm rc env certificate cr) in
        rw
          (reconcile_route cm rc s t env cr up o _ _
            (route_fetch cm rc s t env cr up o url certificate p answer) refl)
          (
            refl,
            refl,
            c,
            Any-Puts_new (HasReason ready is_true issued) (cm.set_condition-Puts issued_now _)
                (refl, refl, refl),
          )

-- Three runs with a healthy signer take an open request, not yet submitted, to the certificate that
-- the CA gives for it.
pub journey :
    (cm : CmUtil) (rc : Reconciler) (s : Signer) (t : Text) (env1 env2 env3 : Env)
    (cr : CertificateRequest) (url resource task certificate : Text)
    → IsHealthy cm rc s t env1 cr
    → IsHealthy cm rc s t env2 cr
    → IsHealthy cm rc s t env3 cr
    → IsOpen cm rc cr
    → is_signed cr.status.conditions ≡ false
    → is_submitted cr.status.conditions ≡ false
    → trim_space url ≡ url
    → trim_space resource ≡ resource
    → is_empty resource ≡ false
    → s.submit_certificate_request t cr.spec.request ≡ ok url
    → s.request_task_status t url ≡ ok (resource, task)
    → s.fetch_certificate t resource ≡ ok certificate
    → let last = after cm rc env3 (after cm rc env2 (after cm rc env1 cr)) in
      (last.status.certificate ≡ certificate)
      × Any (HasReason ready is_true issued) last.status.conditions
journey cm rc s t env1 env2 env3 cr url resource task certificate up1 up2 up3 o unsigned unsubmitted
      trim1 trim2 full sent told given =
    let once = after cm rc env1 cr in
    let twice = after cm rc env2 once in
    let same1 = after-SameReference cm rc env1 cr in
    let same2 = after-SameReference cm rc env2 once in
    let (_, _, open1, polling, _) =
      submit_run cm rc s t env1 cr up1 o url trim1 unsigned unsubmitted sent in
    let (_, _, open2, fetching) =
      poll_run cm rc s t env2 once (still-IsHealthy cm rc s t env2 once cr same1 up2) open1 url
        resource task trim2 full polling told in
    let (_, _, done, ready_now) =
      fetch_run cm rc s t env3 twice
        (still-IsHealthy cm rc s t env3 twice cr (same2.0 ∙ same1.0, same2.1 ∙ same1.1) up3) open2
        resource certificate fetching given in
    (done, ready_now)

body_first :
    (cm : CmUtil) (rc : Reconciler) (env : Env) (cr : CertificateRequest)
    → cm.is_denied cr.status.conditions ≡ false
    → cm.get_condition cr.status.conditions ready ≡ none
    → body cm rc env (start cr) ≡ (
      stop (returned (record { requeue_after = 0 }) none),
      record (start cr) {
        request = put cm first_report cr;
        actions = event normal first_report.message ∷ [];
      },
    )
unfolding body initialise report
body_first cm rc env cr free unseen = rw (free, unseen) refl

-- The run on a request that has no Ready condition yet, passes the early returns and is not denied: it
-- becomes open, and the next run will submit it.
pub first_run :
    (cm : CmUtil) (rc : Reconciler) (env : Env) (cr : CertificateRequest)
    → ((c : CertificateRequest) → env.update c ≡ none)
    → is_ignored cm rc cr ≡ false
    → cm.is_denied cr.status.conditions ≡ false
    → cm.get_condition cr.status.conditions ready ≡ none
    → is_signed cr.status.conditions ≡ false
    → is_submitted cr.status.conditions ≡ false
    → let (e, r) = reconcile_found cm rc env cr in
      (e ≡ returned (record { requeue_after = 0 }) none)
      × IsOpen cm rc r.stored
      × (is_signed r.stored.status.conditions ≡ false)
      × (is_submitted r.stored.status.conditions ≡ false)
first_run cm rc env cr stores live free unseen unsigned unsubmitted =
    let puts = cm.set_condition-Puts first_report cr.status.conditions in
    rw (reconcile_body cm rc env cr _ _ live (body_first cm rc env cr free unseen) refl (stores _))
      (
        refl,
        report-IsOpen cm rc first_report.message cr live free,
        still_unsigned puts unsigned,
        still_unsubmitted puts unsubmitted,
      )
