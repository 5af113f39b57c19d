-- ===== src/Main/Settings.antt =====
-- What the program's flags mean for the runs of the controllers that it starts.
use cert_manager_essendi_xc.Base.{
  false, not, ◌≡◌, inl, inr, sym, ap, arith, subst, ◌∙◌, [], ◌∷◌, ◌++◌,
}
use cert_manager_essendi_xc.Base.Text.{Text, is_empty}
use cert_manager_essendi_xc.Base.Errors.{Outcome, ok}
use cert_manager_essendi_xc.Main.{
  Flags, NamespaceFile, choose_namespace, requests, Runtime, Event, registered, started, Ended,
  request_reconciler, main,
}
use cert_manager_essendi_xc.Request.{CertificateRequest, CmUtil, Any, HasStatus, approved, is_true}
use cert_manager_essendi_xc.RequestController.{reconcile_found}
use cert_manager_essendi_xc.RequestController.Isolation.{AgreeIn, with_secrets, secrets_isolated}
use cert_manager_essendi_xc.RequestController.Safety.{IsContact, reconcile_contact-IsEligible}
use cert_manager_essendi_xc.RequestController.Steps.{
  client_object, Kind, NamespacedName, Reconciler, Env,
}
use cert_manager_essendi_xc.Signer.{SecretData}
use cert_manager_essendi_xc.Main.Start.{IsRequestController, IsStart, launch_events, main_starts}

module _ (flags : Flags) (file : NamespaceFile) (rt : Runtime) where
  -- The controllers of requests that a started program has run with the settings of its flags.
  registered_settings :
      (rc : Reconciler)
      → Any IsStart (main rt flags file).1
      → Any (IsRequestController rc) (main rt flags file).1
      → (namespace : Text) × (choose_namespace flags file ≡ ok namespace)
        × (rc ≡ request_reconciler rt flags namespace)
  registered_settings rc start there = elim (main_starts flags file rt) [
    | inr (never, _) ↦ absurd (never start)
    | inl (namespace, (ready, e)) ↦ (
      namespace,
      ready.chosen,
      registered_one namespace (subst (λ (x : Ended). Any (IsRequestController rc) x.1) e there),
    )
  ]
    where
      request_of : Event → Reconciler
      request_of (registered (requests r)) = r
      request_of _ = rc

      registered_one :
          (namespace : Text)
          → Any (IsRequestController rc) (launch_events flags file rt namespace ++ started ∷ [])
          → rc ≡ request_reconciler rt flags namespace
      registered_one namespace (inr (inr (inr (inl h)))) = sym (ap request_of h)
      registered_one namespace (inl h) = ground arith
      registered_one namespace (inr (inl h)) = ground arith
      registered_one namespace (inr (inr (inl h))) = ground arith
      registered_one namespace (inr (inr (inr (inr (inl h))))) = ground arith
      registered_one namespace (inr (inr (inr (inr (inr h))))) = absurd h

  -- Unless the approval check is disabled by its flag, a run of a request controller that a started
  -- program has registered contacts the CA only for a request that is approved.
  pub contact_approved :
      (rc : Reconciler) (cm : CmUtil) (env : Env) (cr : CertificateRequest)
      → Any IsStart (main rt flags file).1
      → Any (IsRequestController rc) (main rt flags file).1
      → flags.disable_approved_check ≡ false
      → Any IsContact (reconcile_found cm rc env cr).1.actions
      → Any (HasStatus approved is_true) cr.status.conditions
  contact_approved rc cm env cr start there on asked =
      let (namespace, _, e) = registered_settings rc start there in
      (reconcile_contact-IsEligible cm rc env cr asked).is_approved
        (ap (λ (r : Reconciler). r.check_approved_condition) e ∙ ap not on)

  choose_namespace_given :
      (namespace : Text)
      → is_empty flags.cluster_resource_namespace ≡ false
      → choose_namespace flags file ≡ ok namespace
      → namespace ≡ flags.cluster_resource_namespace
  unfolding choose_namespace
  choose_namespace_given namespace given h = ground arith

  -- With a namespace given by the flag, the runs of a started program for cluster issuers depend on no
  -- secret outside of that namespace.
  pub flag_isolates :
      (rc : Reconciler) (cm : CmUtil) (env : Env) (secrets : NamespacedName → Outcome SecretData)
      (cr : CertificateRequest)
      → Any IsStart (main rt flags file).1
      → Any (IsRequestController rc) (main rt flags file).1
      → is_empty flags.cluster_resource_namespace ≡ false
      → env.scheme_new cr.spec.issuer_ref.kind ≡ ok (client_object Kind.cluster_issuer)
      → AgreeIn cm rc env secrets cr flags.cluster_resource_namespace
      → reconcile_found cm rc (with_secrets cm rc env secrets cr) cr ≡ reconcile_found cm rc env cr
  flag_isolates rc cm env secrets cr start there given k agree =
      let (namespace, chosen, e) = registered_settings rc start there in
      secrets_isolated cm rc env secrets cr Kind.cluster_issuer k (
        rw
          (ap (λ (r : Reconciler). r.cluster_resource_namespace) e
            ∙ choose_namespace_given namespace given chosen)
          agree)
