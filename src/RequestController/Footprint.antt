-- ===== src/RequestController/Footprint.antt =====
-- What a run may write of a request: its Ready conditions, the certificate, the authority's certificate
-- and the failure time.
use cert_manager_essendi_xc.Base.{
  Bool, true, false, List, [], ◌∷◌, ◌≡◌, inl, inr, refl, arith, Bool-cases, if◌then◌else◌, ◌∙◌,
  Option, none,
}
use cert_manager_essendi_xc.Base.Errors.{Error}
use cert_manager_essendi_xc.Base.Text.{Text}
use cert_manager_essendi_xc.Signer.{Signer}
use cert_manager_essendi_xc.Request.{
  CertificateRequest, Condition, ConditionType, Reason, ready, CmUtil, Puts, added, replaced, kept,
}
use cert_manager_essendi_xc.RequestController.{
  say, is_ignored, deny, initialise, sign, body, submit, poll, await, fetch, route, open_signer,
  deferred, retry_report,
}
use cert_manager_essendi_xc.RequestController.Deferred.{
  start, ended, ended_by, reconcile_ignored, reconcile_kept, after, after_all,
}
use cert_manager_essendi_xc.RequestController.Frame.{SameReference, after-SameReference}
use cert_manager_essendi_xc.RequestController.Settled.Body.{body_stored, retry_report_stored}
use cert_manager_essendi_xc.RequestController.Steps.{Reconciler, Env, Run, Exit, report}

abbrev pub is_ready_type : ConditionType → Bool
is_ready_type ready = true
is_ready_type _ = false

-- The conditions of other types than Ready, in order.
abbrev pub others : List Condition → List Condition
others [] = []
others (c ∷ cs) = if is_ready_type c.type then others cs else c ∷ others cs

-- A condition of the type Ready leaves the others alone.
others-Puts :
    (c : Condition) {cs cs' : List Condition}
    → c.type ≡ ready
    → Puts c cs cs'
    → others cs' ≡ others cs
others-Puts c t added = rw t refl
others-Puts c t (replaced {d} e) = rw (e ∙ t) (rw t refl)
others-Puts c t (kept {d} {cs} {cs'} ne r) = rw (others-Puts c t r) refl

module _ (cm : CmUtil) (rc : Reconciler) (env : Env) where
  others-report :
      (reason : Reason) (message : Text) (e : Option Error) (r : Run)
      → others (report cm reason message false e r).1.request.status.conditions
        ≡ others r.request.status.conditions
  unfolding report
  others-report reason message e r = others-Puts _ refl (cm.set_condition-Puts _ _)

  others-say :
      (reason : Reason) (message : Text) (r : Run)
      → others (say cm rc env reason message r).1.request.status.conditions
        ≡ others r.request.status.conditions
  others-say reason message r = others-report reason message none r

  module _ (r : Run) where
    -- A stage leaves the other conditions as the run has them.
    abbrev Keeps : Run → Type 0
    Keeps r' = others r'.request.status.conditions ≡ others r.request.status.conditions

    submit-Keeps : (s : Signer) (t : Text) → Keeps (submit cm rc env s t r.request r).1
    unfolding submit
    submit-Keeps s t = grind (arith, others-say)

    await-Keeps : (url task : Text) (cs : List Condition) → Keeps (await cm rc env url task cs r).1
    unfolding await
    await-Keeps url task cs = grind (arith, others-say)

    fetch-Keeps : (s : Signer) (t : Text) (cs : List Condition) → Keeps (fetch cm rc env s t cs r).1
    unfolding fetch
    fetch-Keeps s t cs = grind (arith, others-say)

    open_signer-Keeps : Keeps (open_signer cm rc env r).1
    unfolding open_signer
    open_signer-Keeps = grind (arith, others-report)

    poll-Keeps : (s : Signer) (t : Text) (cs : List Condition) → Keeps (poll cm rc env s t cs r).1
    unfolding poll
    poll-Keeps s t cs = grind (arith, others-say, await-Keeps)

    route-Keeps : (s : Signer) (t : Text) → Keeps (route cm rc env s t r.request r).1
    unfolding route
    route-Keeps s t =
        let cs = r.request.status.conditions in
        ground (arith, fetch-Keeps s t cs, poll-Keeps s t cs, submit-Keeps s t)

  sign-Keeps : (r : Run) → Keeps r (sign cm rc env r).1
  unfolding sign
  sign-Keeps r = grind (arith, open_signer-Keeps r, route-Keeps)

  deny-Keeps : (r : Run) → Keeps r (deny cm rc env r).1
  unfolding deny
  deny-Keeps r = grind (arith, others-report)

  body-Keeps : (r : Run) → Keeps r (body cm rc env r).1
  unfolding body initialise
  body-Keeps r = grind (arith, deny-Keeps r, sign-Keeps r, others-say)

  retry_report-Keeps : (e : Exit) (r : Run) → Keeps r (retry_report cm rc env e r)
  retry_report-Keeps e r = grind (arith, others-report)

  module _ (cr : CertificateRequest) where
    pub after-others : others (after cm rc env cr).status.conditions ≡ others cr.status.conditions
    unfolding deferred
    after-others = elim (Bool-cases (is_ignored cm rc cr)) [
      | inl ignored ↦ rw (reconcile_ignored cm rc env cr ignored, after) refl
      | inr live ↦
          rw (after, reconcile_kept cm rc env cr live)
            (ground (
              arith,
              retry_report-Keeps (ended_by cm rc env cr) (ended cm rc env cr),
              body-Keeps (start cr),
              retry_report_stored cm rc env (ended_by cm rc env cr) (ended cm rc env cr),
              body_stored cm rc env cr,
            ))
    ]

    body_name : (ended cm rc env cr).request.name ≡ cr.name
    unfolding body deny initialise report sign open_signer route submit poll await fetch
    body_name = ground arith

    retry_report_name :
        (e : Exit) (r : Run)
        → r.request.name ≡ cr.name
        → (retry_report cm rc env e r).request.name ≡ cr.name
    unfolding report
    retry_report_name e r h = ground arith

    after_name : (after cm rc env cr).name ≡ cr.name
    unfolding deferred
    after_name = elim (Bool-cases (is_ignored cm rc cr)) [
      | inl ignored ↦ rw (reconcile_ignored cm rc env cr ignored, after) refl
      | inr live ↦
          rw (after, reconcile_kept cm rc env cr live)
            (ground (
              arith,
              retry_report_name (ended_by cm rc env cr) (ended cm rc env cr) body_name,
              retry_report_stored cm rc env (ended_by cm rc env cr) (ended cm rc env cr),
              body_stored cm rc env cr,
            ))
    ]

-- The requests agree on everything that the controller has no part in.
abbrev pub SameElsewhere : CertificateRequest → CertificateRequest → Type 0
SameElsewhere a b =
    (a.name ≡ b.name)
    × SameReference a b
    × (others a.status.conditions ≡ others b.status.conditions)

-- After any number of runs, whatever they meet, the request has the name, the namespace and the spec that
-- it had, and the same conditions of other types than Ready, in the same order.
pub runs_footprint :
    (cm : CmUtil) (rc : Reconciler) (envs : List Env) (cr : CertificateRequest)
    → SameElsewhere (after_all cm rc envs cr) cr
unfolding after_all
runs_footprint cm rc [] cr = (refl, (refl, refl), refl)
runs_footprint cm rc (env ∷ envs) cr =
    let (name, (namespace, spec), same) = runs_footprint cm rc envs (after cm rc env cr) in
    let (namespace1, spec1) = after-SameReference cm rc env cr in
    (
      name ∙ after_name cm rc env cr,
      (namespace ∙ namespace1, spec ∙ spec1),
      same ∙ after-others cm rc env cr,
    )
