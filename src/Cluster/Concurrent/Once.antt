-- ===== src/Cluster/Concurrent/Once.antt =====
-- Submissions of a request by runs on copies of it, by the version of the copy.
use cert_manager_essendi_xc.Base.{ℕ, ◌≤◌, some, none, ◌≡◌}
use cert_manager_essendi_xc.Cluster.{IsUnrefused}
use cert_manager_essendi_xc.Cluster.Concurrent.{Server, IsConsistent, FineSteps, AreCalmSteps}
use cert_manager_essendi_xc.Cluster.Concurrent.Versions.{kept_since}
use cert_manager_essendi_xc.Cluster.Once.{
  IsSettledRequest, settled-IsInvariant, submission-IsSettledRequest,
}
use cert_manager_essendi_xc.Request.{CertificateRequest, CmUtil, Any}
use cert_manager_essendi_xc.RequestController.{reconcile_found}
use cert_manager_essendi_xc.RequestController.Deferred.{after}
use cert_manager_essendi_xc.RequestController.Lifecycle.{IsWellFormed}
use cert_manager_essendi_xc.RequestController.Once.{no-IsSubmission}
use cert_manager_essendi_xc.RequestController.Settled.Body.{IsSubmission}
use cert_manager_essendi_xc.RequestController.Steps.{
  NamespacedName, Reconciler, Env, Result, returned,
}

module _ (cm : CmUtil) (rc : Reconciler) (n : NamespacedName) where
  -- Where a run has submitted the well-formed request `cr` and returned without an error, and the
  -- server has what that run made of it as the newest version: after any steps, whose runs may be
  -- under way at the same time and have read copies of any age, as long as no run on the request whose
  -- update is taken ends in an error that speaks of a refusal, and it is not removed, a run on a copy
  -- of the request of that version or a newer one does not submit it.
  pub submitted_once_since :
      {s t : Server} (steps : FineSteps cm rc s t) (env last : Env) (cr copy : CertificateRequest)
      (result : Result) (v : ℕ)
      → IsConsistent s
      → IsWellFormed cr.status.conditions
      → Any IsSubmission (reconcile_found cm rc env cr).1.actions
      → (reconcile_found cm rc env cr).0 ≡ returned result none
      → s.cluster.requests n ≡ some (after cm rc env cr)
      → AreCalmSteps cm rc (IsUnrefused cm rc) n steps
      → s.request_version n ≤ v
      → t.request_at n v ≡ some copy
      → ¬ Any IsSubmission (reconcile_found cm rc last copy).1.actions
  submitted_once_since steps env last cr copy result v c w sent quiet stored calm newer read =
      no-IsSubmission cm rc last copy
        (kept_since cm rc IsSettledRequest (IsUnrefused cm rc) (settled-IsInvariant cm rc) n steps
          (after cm rc env cr) copy v c stored
          (submission-IsSettledRequest cm rc env cr result w sent quiet) calm newer read).1
