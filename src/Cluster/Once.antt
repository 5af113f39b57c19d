-- ===== src/Cluster/Once.antt =====
-- Submissions of a request under the runs of both controllers and the writes of users and approvers.
use cert_manager_essendi_xc.Base.{
  false, true, none, some, List, [], ◌∷◌, ◌≡◌, inl, inr, refl, sym, ◌∙◌, arith, Bool-cases, All,
}
use cert_manager_essendi_xc.Cluster.{Cluster, Steps, AreCalm, IsUnrefused}
use cert_manager_essendi_xc.Cluster.Kept.{IsInvariant, kept_there, steps-IsKept}
use cert_manager_essendi_xc.Request.{
  CertificateRequest, Condition, CmUtil, Any, Puts, added, replaced, kept,
}
use cert_manager_essendi_xc.RequestController.{reconcile_found}
use cert_manager_essendi_xc.RequestController.Deferred.{after}
use cert_manager_essendi_xc.RequestController.Lifecycle.{IsForeign, IsWellFormed}
use cert_manager_essendi_xc.RequestController.Lifecycle.Refines.{reconcile-Moves}
use cert_manager_essendi_xc.RequestController.Once.{
  reconcile_settled, no-IsSubmission, submission_settles,
}
use cert_manager_essendi_xc.RequestController.Settled.{settles, is_settled}
use cert_manager_essendi_xc.RequestController.Settled.Body.{IsSubmission}
use cert_manager_essendi_xc.RequestController.Steps.{
  NamespacedName, Reconciler, Env, Result, returned,
}

foreign_settles : (d : Condition) → IsForeign d → settles d ≡ false
unfolding settles
foreign_settles d f = ground (arith, f.other_type, f.no_submitted, f.no_signed)

All-IsWellFormed : (cs : List Condition) → All IsForeign cs → IsWellFormed cs
All-IsWellFormed [] h = tt
All-IsWellFormed (c ∷ cs) h = inr (h.0, All-IsWellFormed cs h.1)

well-formed_tail : (c : Condition) (cs : List Condition) → IsWellFormed (c ∷ cs) → IsWellFormed cs
well-formed_tail c cs (inl (t, h)) = All-IsWellFormed cs h
well-formed_tail c cs (inr (f, w)) = w

-- A condition of another writer leaves the conditions well-formed, and a settled request settled.
module _ (x : Condition) (f : IsForeign x) where
  Puts-All-IsForeign :
      {cs cs' : List Condition} → Puts x cs cs' → All IsForeign cs → All IsForeign cs'
  Puts-All-IsForeign added h = (f, tt)
  Puts-All-IsForeign (replaced e) h = (f, h.1)
  Puts-All-IsForeign (kept ne r) h = (h.0, Puts-All-IsForeign r h.1)

  foreign-IsWellFormed :
      {cs cs' : List Condition} → Puts x cs cs' → IsWellFormed cs → IsWellFormed cs'
  foreign-IsWellFormed added w = inr (f, tt)
  foreign-IsWellFormed (replaced e) (inl (t, h)) = absurd (f.other_type (sym e ∙ t))
  foreign-IsWellFormed (replaced e) (inr (g, w)) = inr (f, w)
  foreign-IsWellFormed (kept ne r) (inl (t, h)) = inl (t, Puts-All-IsForeign r h)
  foreign-IsWellFormed (kept ne r) (inr (g, w)) = inr (g, foreign-IsWellFormed r w)

  foreign_settled :
      {cs cs' : List Condition}
      → Puts x cs cs'
      → IsWellFormed cs
      → is_settled cs ≡ true
      → is_settled cs' ≡ true
  unfolding is_settled
  foreign_settled added w h = absurd (ground arith)
  foreign_settled (replaced e) (inl (t, g)) h = absurd (f.other_type (sym e ∙ t))
  foreign_settled (replaced {d} e) (inr (g, w)) h =
      rw (foreign_settles x f) (rw (foreign_settles d g) at h)
  foreign_settled (kept {d} {cs} ne r) w h = elim (Bool-cases (settles d)) [
    | inl here ↦ rw here refl
    | inr later ↦ rw later (foreign_settled r (well-formed_tail d cs w) (rw later at h))
  ]

-- The request has one Ready condition at most, and was submitted, signed or ended.
abbrev pub IsSettledRequest : CertificateRequest → Type 0
IsSettledRequest cr = IsWellFormed cr.status.conditions × (is_settled cr.status.conditions ≡ true)

module _ (cm : CmUtil) (rc : Reconciler) where
  pub settled-IsInvariant : IsInvariant cm rc IsSettledRequest (IsUnrefused cm rc)
  settled-IsInvariant = record {
    run = λ env cr quiet (w, s).
        ((reconcile-Moves cm rc env cr w).well, reconcile_settled cm rc env cr quiet s);
    written = λ d cr f (w, s).
        let p = cm.set_condition-Puts d cr.status.conditions in
        (foreign-IsWellFormed d f p w, foreign_settled d f p w s);
  }

  -- A run that submits a well-formed request and returns without an error settles it.
  pub submission-IsSettledRequest :
      (env : Env) (cr : CertificateRequest) (result : Result)
      → IsWellFormed cr.status.conditions
      → Any IsSubmission (reconcile_found cm rc env cr).1.actions
      → (reconcile_found cm rc env cr).0 ≡ returned result none
      → IsSettledRequest (after cm rc env cr)
  submission-IsSettledRequest env cr result w sent quiet =
      ((reconcile-Moves cm rc env cr w).well, submission_settles cm rc env cr result sent quiet)

  -- Where a run has submitted the well-formed request `cr` and returned without an error, and the store
  -- has what that run made of the request: after any steps of both controllers and of other writers,
  -- none of which is a run on the request that ends in an error that speaks of a refusal, or removes
  -- it, no run on the request that the store then has at that name submits it.
  pub submitted_once_among :
      (n : NamespacedName) {c d : Cluster} (steps : Steps cm rc c d) (env last : Env)
      (cr now : CertificateRequest) (result : Result)
      → IsWellFormed cr.status.conditions
      → Any IsSubmission (reconcile_found cm rc env cr).1.actions
      → (reconcile_found cm rc env cr).0 ≡ returned result none
      → c.requests n ≡ some (after cm rc env cr)
      → AreCalm cm rc (IsUnrefused cm rc) n steps
      → d.requests n ≡ some now
      → ¬ Any IsSubmission (reconcile_found cm rc last now).1.actions
  submitted_once_among n {d} steps env last cr now result w sent quiet stored calm at =
      let k =
        steps-IsKept cm rc n IsSettledRequest (IsUnrefused cm rc) settled-IsInvariant steps calm
          (record {
            request = after cm rc env cr;
            found = stored;
            holds = submission-IsSettledRequest env cr result w sent quiet;
          }) in
      no-IsSubmission cm rc last now (kept_there IsSettledRequest n d now k at).1
