-- ===== src/Cluster/Checked.antt =====
-- What a ready issuer in the store says of its health, and whom the CA is asked for.
use cert_manager_essendi_xc.Base.{
  false, true, Option, none, some, ◌≡◌, ◌⊎◌, inl, inr, refl, sym, ap, ◌∙◌, subst, arith, Bool-cases,
}
use cert_manager_essendi_xc.Base.Errors.{ok}
use cert_manager_essendi_xc.Cluster.{
  IssuerObject, Cluster, name_of, object_of, ref_eq, check_issuer, put_issuer, Answers, IsUserEdit,
  Step, issuer_run, request_run, issuer_written, request_created, condition_written,
  request_removed, Steps, done, next,
}
use cert_manager_essendi_xc.Cluster.Store.{ref_eq-true}
use cert_manager_essendi_xc.IssuerController
use cert_manager_essendi_xc.IssuerController.Verdict.{stored-is_ready}
use cert_manager_essendi_xc.IssuerUtil.{is_ready}
use cert_manager_essendi_xc.Request.{CertificateRequest, CmUtil, Any}
use cert_manager_essendi_xc.RequestController.{reconcile_found}
use cert_manager_essendi_xc.RequestController.Referenced.{
  Ref, issuer, cluster_issuer, issuer_name, cluster_issuer_name, contact-SawReady,
}
use cert_manager_essendi_xc.RequestController.Safety.{IsContact}
use cert_manager_essendi_xc.RequestController.Steps.{client_object, Kind, Reconciler, Env}

-- The last stored health check of every ready issuer succeeded.
abbrev pub IsVouched : Cluster → Type 0
IsVouched c =
    (r : Ref) (o : IssuerObject)
    → c.issuers r ≡ some o
    → is_ready o.status ≡ true
    → c.verdicts r ≡ some true

some_status : {o p : IssuerObject} → some o ≡ some p → o.status ≡ p.status
some_status {o} h =
    ap (λ (x : Option IssuerObject). elim x [ none ↦ o.status | some y ↦ y.status ]) h

check_issuer-IsVouched :
    (c : Cluster) (r : Ref) (o : IssuerObject) (env : IssuerController.Env)
    → c.issuers r ≡ some o
    → IsVouched c
    → IsVouched (check_issuer r o env c)
check_issuer-IsVouched c r o env there h q p at ready = elim (Bool-cases (ref_eq q r)) [
  | inr other ↦ rw other (h q p (rw other at at) ready)
  | inl here ↦ rw here (
      stored-is_ready env (name_of r) (object_of r o) o.spec o.status (c.verdicts r) (h r o there)
        (ap is_ready (some_status (rw here at at)) ∙ ready))
]

put_issuer-IsVouched :
    (c : Cluster) (r : Ref) (o : Option IssuerObject)
    → IsUserEdit (c.issuers r) o
    → IsVouched c
    → IsVouched (put_issuer r o c)
put_issuer-IsVouched c r o edit h q p at ready = elim (Bool-cases (ref_eq q r)) [
  | inr other ↦ h q p (rw other at at) ready
  | inl here ↦
      subst (λ (x : Ref). c.verdicts x ≡ some true) (sym (ref_eq-true q r here))
        (vouched o edit (rw here at at))
]
  where
    vouched :
        (x : Option IssuerObject)
        → IsUserEdit (c.issuers r) x
        → x ≡ some p
        → c.verdicts r ≡ some true
    vouched none e k = absurd (ground arith)
    vouched (some x) (inl unready) k = absurd (cc (ap is_ready (some_status k), unready, ready))
    vouched (some x) (inr (y, old, same)) k = h r y old (ap is_ready (same ∙ some_status k) ∙ ready)

module _ (cm : CmUtil) (rc : Reconciler) where
  step-IsVouched : {c d : Cluster} → Step cm rc c d → IsVouched c → IsVouched d
  step-IsVouched (issuer_run {c} r o env there) h = check_issuer-IsVouched c r o env there h
  step-IsVouched (request_run n cr env there) h = h
  step-IsVouched (issuer_written {c} r o edit) h = put_issuer-IsVouched c r o edit h
  step-IsVouched (request_created n cr new) h = h
  step-IsVouched (condition_written n cr d there foreign) h = h
  step-IsVouched (request_removed n) h = h

  steps-IsVouched : {c d : Cluster} → Steps cm rc c d → IsVouched c → IsVouched d
  steps-IsVouched done h = h
  steps-IsVouched (next s rest) h = steps-IsVouched rest (step-IsVouched s h)

  -- The request refers to the issuer at `r`.
  abbrev pub IsReferred : Env → CertificateRequest → Ref → Type 0
  IsReferred env cr r =
      ((env.scheme_new cr.spec.issuer_ref.kind ≡ ok (client_object Kind.issuer))
        × (r ≡ issuer (issuer_name cm rc env cr)))
      ⊎ ((env.scheme_new cr.spec.issuer_ref.kind ≡ ok (client_object Kind.cluster_issuer))
          × (r ≡ cluster_issuer (cluster_issuer_name cm rc env cr)))

  -- From a store with no ready issuer, after any steps of the controllers and of other writers that
  -- make no issuer ready themselves: a run that turns to the CA does so for a request whose issuer is
  -- in the store and ready, and whose last stored health check succeeded.
  pub contact_checked :
      {c d : Cluster} (steps : Steps cm rc c d) (env : Env) (cr : CertificateRequest)
      → ((r : Ref) (o : IssuerObject) → c.issuers r ≡ some o → is_ready o.status ≡ false)
      → Answers d env
      → Any IsContact (reconcile_found cm rc env cr).1.actions
      → (r : Ref) × (o : IssuerObject) × IsReferred env cr r
        × (d.issuers r ≡ some o)
        × (is_ready o.status ≡ true)
        × (d.verdicts r ≡ some true)
  contact_checked {c} {d} steps env cr unready answers asked =
      let vouched : IsVouched d =
        steps-IsVouched steps (λ r o at ready. absurd (cc (unready r o at, ready))) in
      elim (contact-SawReady cm rc env cr asked) [
        | inl (i, kind, given, ready) ↦
            let r = issuer (issuer_name cm rc env cr) in
            let at = answers.issuers _ i given in
            (
              r,
              record { spec = i.spec; status = i.status },
              inl (kind, refl),
              at,
              ready,
              vouched r _ at ready,
            )
        | inr (i, kind, given, ready) ↦
            let r = cluster_issuer (cluster_issuer_name cm rc env cr) in
            let at = answers.cluster_issuers _ i given in
            (
              r,
              record { spec = i.spec; status = i.status },
              inr (kind, refl),
              at,
              ready,
              vouched r _ at ready,
            )
      ]
