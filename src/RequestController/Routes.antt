-- ===== src/RequestController/Routes.antt =====
-- A run with a ready issuer and a working signer, by the answers of the CA.
use cert_manager_essendi_xc.Base.{false, [], ◌∷◌, ◌++◌, ◌≡◌, refl, arith, none, ◌∙◌}
use cert_manager_essendi_xc.Base.Errors.{ok}
use cert_manager_essendi_xc.Base.Text.{Text, codes, is_empty}
use cert_manager_essendi_xc.IssuerUtil.{is_submitted, is_signed}
use cert_manager_essendi_xc.Request.{CertificateRequest, Condition, ready, issued, is_true, CmUtil}
use cert_manager_essendi_xc.Signer.{Signer}
use cert_manager_essendi_xc.RequestController.{
  reconcile_found, route, submit, poll, fetch, sign, body, open_signer, set_ca, set_certificate,
}
use cert_manager_essendi_xc.RequestController.Deferred.{start, reconcile_body, is_refused}
use cert_manager_essendi_xc.RequestController.Frame.{SameReference}
use cert_manager_essendi_xc.RequestController.Open.{IsOpen}
use cert_manager_essendi_xc.RequestController.Stages.{
  IsPolling, IsFetching, submitted_with, signed_with,
}
use cert_manager_essendi_xc.RequestController.Steps.{
  event, normal, refreshed, submitted, polled, fetched, updated, Reconciler, Env, Run, Exit, report,
  returned, go, stop, put,
}

abbrev pub issued_now : Condition
issued_now = record { type = ready; status = is_true; reason = issued; message = codes "Signed" }

-- The API server answers, the issuer that `cr` refers to is ready, and the signer `s` can be built and
-- gets the token `t`.
pub record IsHealthy (cm : CmUtil) (rc : Reconciler) (s : Signer) (t : Text) (env : Env)
    (cr : CertificateRequest) : Type 0 where
  pub opened : (r : Run) → SameReference r.request cr → open_signer cm rc env r ≡ (go s, r)
  pub token : s.get_refresh_token ≡ ok t
  pub stores : (cr : CertificateRequest) → env.update cr ≡ none

-- It is so for every request with that reference.
pub still-IsHealthy :
    (cm : CmUtil) (rc : Reconciler) (s : Signer) (t : Text) (env : Env)
    (cr old : CertificateRequest)
    → SameReference cr old
    → IsHealthy cm rc s t env old
    → IsHealthy cm rc s t env cr
still-IsHealthy cm rc s t env cr old (n, e) up = record {
  opened = λ r same. up.opened r (same.0 ∙ n, same.1 ∙ e);
  token = up.token;
  stores = up.stores;
}

module _ (cm : CmUtil) (rc : Reconciler) where
  module _ (s : Signer) (t : Text) (env : Env) (cr : CertificateRequest)
      (up : IsHealthy cm rc s t env cr) (o : IsOpen cm rc cr) where
    abbrev pub under_way : Run
    under_way = record { request = cr; stored = cr; actions = refreshed ∷ [] }

    sign-route : sign cm rc env (start cr) ≡ route cm rc env s t cr under_way
    unfolding sign
    sign-route = ground (arith, up.opened (start cr) (refl, refl), up.token)

    pub body_route : body cm rc env (start cr) ≡ route cm rc env s t cr under_way
    unfolding body
    body_route = ground (arith, sign-route, o.allowed, o.seen)

    pub reconcile_route :
        (e : Exit) (r : Run)
        → route cm rc env s t cr under_way ≡ (stop e, r)
        → is_refused e ≡ false
        → reconcile_found cm rc env cr
          ≡ (e, record r { stored = r.request; actions = r.actions ++ updated r.request ∷ [] })
    reconcile_route e r h u =
        reconcile_body cm rc env cr e r o.kept (body_route ∙ h) u (up.stores r.request)

    pub route_submit :
        (url : Text)
        → is_signed cr.status.conditions ≡ false
        → is_submitted cr.status.conditions ≡ false
        → s.submit_certificate_request t cr.spec.request ≡ ok url
        → route cm rc env s t cr under_way ≡ (
          stop (returned (record { requeue_after = 15 }) none),
          record under_way {
            request = put cm (submitted_with url) cr;
            actions =
                refreshed
                ∷ submitted cr.spec.request
                ∷ event normal (submitted_with url).message
                ∷ [];
          },
        )
    unfolding route submit report
    route_submit url a b e = rw (a, b, e) refl

    pub route_poll :
        (url resource task : Text)
        → IsPolling url cr.status.conditions
        → s.request_task_status t url ≡ ok (resource, task)
        → is_empty resource ≡ false
        → route cm rc env s t cr under_way ≡ (
          stop (returned (record { requeue_after = 0 }) none),
          record under_way {
            request = put cm (signed_with resource) cr;
            actions = refreshed ∷ polled url ∷ event normal (signed_with resource).message ∷ [];
          },
        )
    unfolding route poll report
    route_poll url resource task p e h = rw (p.unsigned, p.submitted, p.url_read, e, h) refl

    abbrev pub issue : Text → CertificateRequest
    issue certificate =
        put cm issued_now
          (set_ca cm rc env (env.extract_ca certificate) (set_certificate cm rc env certificate cr))

    pub route_fetch :
        (url certificate : Text)
        → IsFetching url cr.status.conditions
        → s.fetch_certificate t url ≡ ok certificate
        → route cm rc env s t cr under_way ≡ (
          stop (returned (record { requeue_after = 0 }) none),
          record under_way {
            request = issue certificate;
            actions = refreshed ∷ fetched url ∷ event normal (codes "Signed") ∷ [];
          },
        )
    unfolding route fetch report
    route_fetch url certificate p e = rw (p.signed, p.url_read, e) refl
