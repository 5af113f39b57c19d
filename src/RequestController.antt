-- ===== src/RequestController.antt =====
-- internal/controllers/certificaterequest_controller.go: `Reconcile` for certificate requests. Its
-- stages are functions here and in Resolve and Issuance, in the order of the source.
pub mod Steps
mod Resolve
mod Issuance
pub mod Deferred
pub mod Safety
pub mod Stages
pub mod Outages
pub mod Endless
pub mod Open
pub mod Settled
pub mod Once
pub mod Routes
pub mod Final
pub mod Errors
pub mod Certificate
pub mod Await
pub mod Journey
pub mod Essendi
pub mod Progress
pub mod Lifecycle
pub mod Bounds
pub mod Frame
pub mod Footprint
pub mod Refused
pub mod Referenced
pub mod Update
pub mod Isolation
pub mod Kinds
pub mod Lost
pub mod Sample
mod Tests
unfoldable pub use Resolve.{
  give_up, known_kind, get_object, known_spec, require_ready, secret_error, get_secret, open_signer,
}
unfoldable pub use Issuance.{
  status_message, message_url, url_of, say, submit, await, poll, set_certificate, set_ca, fetch,
  route,
}
unfoldable pub use Steps.{
  default_task_check_interval, err_signer_builder, err_get_auth_secret, err_signer_refused,
}
use cert_manager_essendi_xc.Base.{
  ℕ, Bool, true, false, not, ◌&&◌, ◌||◌, Option, none, some, List, [], ◌∷◌, ◌++◌, if◌then◌else◌,
}
use mathlib.Core.Option as Opt
use cert_manager_essendi_xc.Base.Text.{
  Text, codes, text_eq, is_empty, contains, after_colon, trim_space,
}
use cert_manager_essendi_xc.Base.Errors.{Error, Outcome, ok, err, panic}
use cert_manager_essendi_xc.Api.{
  Object, IssuerSpec, IssuerStatus, group, issuer_condition_status_submitted,
  issuer_condition_status_processing, issuer_condition_status_approved,
  issuer_condition_status_signed, task_status_processing, task_status_approved, task_status_failed,
  task_status_declined, task_status_canceled,
}
use cert_manager_essendi_xc.IssuerUtil
use cert_manager_essendi_xc.IssuerUtil.{
  get_spec_and_status, is_ready, is_signed, is_submitted, is_processing, get_signed_condition,
  get_submitted_condition,
}
use cert_manager_essendi_xc.Request.{
  CertificateRequest, RequestStatus, Condition, Reason, ready, is_true, is_false, pending, denied,
  issued, CmUtil,
}
use cert_manager_essendi_xc.Request
use cert_manager_essendi_xc.Signer.{Signer, SecretData}
use cert_manager_essendi_xc.RequestController.Steps.{
  Lookup, found, not_found, Kind, Action, Reconciler, Env, Run, Exit, Flow, returned, panicked, go,
  stop, NamespacedName, Step, pass, crash, return_with, or_return, or_panic, ◌>>=◌, ◌>>◌, act, gets,
  modify, wrap, report,
}

-- `Watchdog`
abbrev watchdog : Option Error
watchdog = none

module _ (cm : CmUtil) (rc : Reconciler) where
  -- The returns before the deferred function: nothing is reported or stored.
  unfoldable pub is_ignored : CertificateRequest → Bool
  is_ignored cr =
      not (text_eq cr.spec.issuer_ref.group group)
      || cm.has_status cr.status.conditions ready is_true
      || cm.has_reason cr.status.conditions ready is_false Request.failed
      || cm.has_reason cr.status.conditions ready is_false denied
      || rc.check_approved_condition && not (cm.is_approved cr.status.conditions)

  module _ (env : Env) where
    -- The request was denied by an approver.
    abbrev fail_at : Option ℕ → Option ℕ
    fail_at none = some env.now
    fail_at (some t) = some t

    abbrev set_failure_time : CertificateRequest → CertificateRequest
    set_failure_time cr = record cr {
      status = record cr.status { failure_time = fail_at cr.status.failure_time };
    }

    unfoldable pub deny : Step ⊥
    deny = do
      modify set_failure_time
      report cm denied (codes "The CertificateRequest was denied by an approval controller") false
          none
      return_with 0 none

    unfoldable pub sign : Step ⊥
    sign = do
      signer ← open_signer cm rc env
      act Action.refreshed
      token ← or_return (wrap err_signer_builder) signer.get_refresh_token
      cr ← gets (λ cr. cr)
      route cm rc env signer token cr

    unfoldable pub initialise : Step ⊥
    initialise = do say cm rc env pending (codes "Initialising Ready condition"); return_with 0 none

    -- What follows the `defer` statement.
    unfoldable pub body : Step ⊥
    body r =
        if cm.is_denied r.request.status.conditions
        then deny r
        else elim (cm.get_condition r.request.status.conditions ready) [
          | none ↦ initialise r
          | some _ ↦ sign r
        ]

    -- The deferred function: a report for an error that speaks of a refusal, then the update.
    abbrev exit_of : Flow ⊥ → Exit
    exit_of (go x) = absurd x
    exit_of (stop e) = e

    abbrev retry_report : Exit → Run → Run
    retry_report (returned _ (some e)) r =
        if contains e.text err_signer_refused
        then (report cm pending (codes "Temporary error. Retrying") false (some e) r).1
        else r
    retry_report _ r = r

    abbrev after_update : Option Error → Exit → Exit
    after_update none e = e
    after_update (some u) panicked = panicked
    after_update (some u) (returned _ e) =
        returned (record { requeue_after = 0 }) (some (env.aggregate e u))

    abbrev store : Option Error → Run → Run
    store none r = record r { stored = r.request }
    store (some _) r = r

    unfoldable pub deferred : Exit → Run → Exit × Run
    deferred e r =
        let (_, r') = act (Action.updated (retry_report e r).request) (retry_report e r) in
        let answer = env.update r'.request in (after_update answer e, store answer r')

    unfoldable pub reconcile_found : CertificateRequest → Exit × Run
    unfolding deferred
    reconcile_found cr =
        let start : Run = record { request = cr; stored = cr; actions = [] } in
        let ended = body start in
        if is_ignored cr
        then (returned (record { requeue_after = 0 }) none, start)
        else deferred (exit_of ended.0) ended.1

    -- `Reconcile`, by what `r.Get` answers for the request's name.
    unfoldable reconcile : Lookup CertificateRequest → Exit × List Action
    reconcile (found cr) = let (e, r) = reconcile_found cr in (e, r.actions)
    reconcile not_found = (returned (record { requeue_after = 0 }) none, [])
    reconcile (Lookup.failed e) = (
      returned (record { requeue_after = 0 })
          (some (record { text = codes "unexpected get error: " ++ e.text })),
      [],
    )
