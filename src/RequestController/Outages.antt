-- ===== src/RequestController/Outages.antt =====
-- Runs without end, among them runs that fail because of an outage.
use cert_manager_essendi_xc.Base.{
  ℕ, zero, suc, ◌+◌, false, some, none, [], ◌∷◌, refl, ◌∙◌, ◌≡◌, ◌⊎◌, inl, inr, ap, subst, arith,
}
use cert_manager_essendi_xc.Base.Errors.{Error, err}
use cert_manager_essendi_xc.Base.Text.{contains}
use cert_manager_essendi_xc.Request.{CertificateRequest, CmUtil}
use cert_manager_essendi_xc.RequestController.{
  body, sign, open_signer, err_signer_refused, err_signer_builder,
}
use cert_manager_essendi_xc.RequestController.Deferred.{
  start, empty, is_refused, after, reconcile_body,
}
use cert_manager_essendi_xc.RequestController.Frame.{SameReference}
use cert_manager_essendi_xc.RequestController.Open.{IsOpen}
use cert_manager_essendi_xc.RequestController.Steps.{
  Reconciler, Env, Run, Exit, Result, returned, stop, go, wrap, refreshed,
}
use cert_manager_essendi_xc.Signer.{Signer}
use cert_manager_essendi_xc.RequestController.Update.{update_failed}

module _ (cm : CmUtil) (rc : Reconciler) where
  -- The stored request after the first runs of an endless sequence.
  unfoldable pub after_runs : (ℕ → Env) → ℕ → CertificateRequest → CertificateRequest
  after_runs envs zero cr = cr
  after_runs envs (suc k) cr = after cm rc (envs k) (after_runs envs k cr)

  -- What keeps a run on a request with the reference of `cr` from getting anywhere, with an error that
  -- does not speak of a refusal: the API server refuses every update; there is no signer, as where the
  -- issuer is not ready or its secret is missing; or the signer gets no token.
  pub data IsOutage (cr : CertificateRequest) (env : Env) : Type 0 where
    update_refused :
        (x : Error) → ((c : CertificateRequest) → env.update c ≡ some x) → IsOutage cr env
    unopened :
        (n : Result) (e : Error)
        → ((r : Run)
            → SameReference r.request cr
            → open_signer cm rc env r ≡ (stop (returned n (some e)), r))
        → contains e.text err_signer_refused ≡ false
        → ((c : CertificateRequest) → env.update c ≡ none)
        → IsOutage cr env
    tokenless :
        (s : Signer) (e : Error)
        → ((r : Run) → SameReference r.request cr → open_signer cm rc env r ≡ (go s, r))
        → s.get_refresh_token ≡ err e
        → contains (wrap err_signer_builder e.text) err_signer_refused ≡ false
        → ((c : CertificateRequest) → env.update c ≡ none)
        → IsOutage cr env

  stopped_kept :
      (env : Env) (c : CertificateRequest) (x : Exit) (r : Run)
      → ((c : CertificateRequest) → env.update c ≡ none)
      → IsOpen cm rc c
      → body cm rc env (start c) ≡ (stop x, r)
      → is_refused x ≡ false
      → r.request ≡ c
      → after cm rc env c ≡ c
  stopped_kept env c x r stores o ends quiet same =
      ap (λ (y : Exit × Run). y.1.stored)
        (reconcile_body cm rc env c x r o.kept ends quiet (stores r.request))
      ∙ same

  -- An outage leaves an open request as it is.
  pub outage_kept :
      (cr c : CertificateRequest) (env : Env)
      → IsOutage cr env
      → SameReference c cr
      → IsOpen cm rc c
      → after cm rc env c ≡ c
  unfolding body sign
  outage_kept cr c env (update_refused x fails) same o =
      (update_failed cm rc env x fails c o.kept).1
  outage_kept cr c env (unopened n e fails quiet stores) same o =
      stopped_kept env c (returned n (some e)) (start c) stores o
        (ground (arith, fails (start c) same, o.allowed, o.seen)) quiet refl
  outage_kept cr c env (tokenless s e opened fails quiet stores) same o =
      stopped_kept env c (returned empty (some (record { text = wrap err_signer_builder e.text })))
        (record (start c) { actions = refreshed ∷ [] }) stores o
        (ground (arith, opened (start c) same, fails, o.allowed, o.seen)) quiet refl

  module _ (envs : ℕ → Env) (cr : CertificateRequest) (Good : CertificateRequest → Type 0)
      (IsTarget : ℕ → Type 0) where
    -- Where every run leaves a good request good unless it is a target, and one of the runs behind the
    -- first `k` is a target, a target comes about at a good request.
    pub reach_target :
        ((i : ℕ) (c : CertificateRequest) → Good c → IsTarget i ⊎ Good (after cm rc (envs i) c))
        → (gap k j : ℕ) → j ≡ k + gap
        → IsTarget j
        → Good (after_runs envs k cr)
        → (i : ℕ) × IsTarget i × Good (after_runs envs i cr)
    unfolding after_runs
    reach_target each zero k j e there good = (k, subst IsTarget (omega (arith, e)) there, good)
    reach_target each (suc gap) k j e there good = elim (each k (after_runs envs k cr) good) [
      | inl now ↦ (k, now, good)
      | inr still ↦ reach_target each gap (suc k) j (omega (arith, e)) there still
    ]
