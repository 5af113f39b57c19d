-- ===== src/Cluster/Concurrent/Final.antt =====
-- Requests that the controller is done with, under concurrent runs.
use cert_manager_essendi_xc.Base.{ℕ, ◌≤◌, [], true, some, none, ◌≡◌, refl, ◌∙◌, arith, sym}
use cert_manager_essendi_xc.Base.Text.{Text}
use cert_manager_essendi_xc.Cluster.Concurrent.{Server, IsConsistent, FineSteps, AreCalmSteps}
use cert_manager_essendi_xc.Cluster.Concurrent.Versions.{kept_since}
use cert_manager_essendi_xc.Cluster.Kept.{IsInvariant}
use cert_manager_essendi_xc.Request.{CertificateRequest, Condition, CmUtil, Any, ready}
use cert_manager_essendi_xc.Request.Laws.{Any-Puts_keep}
use cert_manager_essendi_xc.RequestController.{reconcile_found}
use cert_manager_essendi_xc.RequestController.Deferred.{after, start, empty}
use cert_manager_essendi_xc.RequestController.Final.{final_absorbs}
use cert_manager_essendi_xc.RequestController.Settled.{is_final}
use cert_manager_essendi_xc.RequestController.Steps.{NamespacedName, Reconciler, Env, returned}

-- The request is Ready, Failed or Denied, and has this certificate.
abbrev pub IsDoneWith : Text → CertificateRequest → Type 0
IsDoneWith certificate cr =
    Any (λ c. is_final c ≡ true) cr.status.conditions × (cr.status.certificate ≡ certificate)

final_ready : (c : Condition) → is_final c ≡ true → c.type ≡ ready
final_ready c h = ground arith

-- Whatever a run meets.
abbrev pub Whatever : Env → CertificateRequest → Type 0
Whatever env cr = Unit

module _ (cm : CmUtil) (rc : Reconciler) where
  done-IsInvariant : (certificate : Text) → IsInvariant cm rc (IsDoneWith certificate) Whatever
  done-IsInvariant certificate = record {
    run = λ env cr fine (final, same).
        let (_, idle) = final_absorbs cm rc [] env cr final in rw (after, idle) (final, same);
    written = λ d cr f (final, same). (
      Any-Puts_keep (λ c. is_final c ≡ true) (cm.set_condition-Puts d cr.status.conditions)
          (λ x p e. f.other_type (sym e ∙ final_ready x p)) final,
      same,
    );
  }

  -- Where the newest copy of a request is Ready, Failed or Denied: after any steps, whose runs may be
  -- under way at the same time, have read copies of any age and meet whatever they may, as long as the
  -- request is not removed, every copy of that version or a newer one is still so and has the same
  -- certificate, and a run on it has no action.
  pub done_stays :
      (n : NamespacedName) {s t : Server} (steps : FineSteps cm rc s t) (last : Env)
      (cr copy : CertificateRequest) (v : ℕ)
      → IsConsistent s
      → s.cluster.requests n ≡ some cr
      → Any (λ c. is_final c ≡ true) cr.status.conditions
      → AreCalmSteps cm rc Whatever n steps
      → s.request_version n ≤ v
      → t.request_at n v ≡ some copy
      → (copy.status.certificate ≡ cr.status.certificate)
        × (reconcile_found cm rc last copy ≡ (returned empty none, start copy))
  done_stays n steps last cr copy v c there final calm newer read =
      let (still, same) =
        kept_since cm rc (IsDoneWith cr.status.certificate) Whatever
          (done-IsInvariant cr.status.certificate) n steps cr copy v c there (final, refl) calm
          newer read in
      (same, (final_absorbs cm rc [] last copy still).1)
