-- ===== src/RequestController/Lifecycle/Messages.antt =====
-- The messages that `Reconcile` writes into the Ready condition, and what the next run does by them.
use cert_manager_essendi_xc.Base.{
  Option, none, some, true, false, List, [], ◌∷◌, ◌≡◌, ap, ◌∙◌, refl, arith,
}
use cert_manager_essendi_xc.Base.Text.{Text, codes, has_prefix, after_colon, trim_space}
use cert_manager_essendi_xc.Api.{
  issuer_condition_status_submitted, issuer_condition_status_processing,
  issuer_condition_status_approved, issuer_condition_status_signed,
}
use cert_manager_essendi_xc.IssuerUtil.{
  says_submitted, says_signed, is_submitted, is_signed, get_submitted_condition,
  get_signed_condition,
}
use cert_manager_essendi_xc.Request.{CertificateRequest, Condition, CmUtil, pending}
use cert_manager_essendi_xc.RequestController.{
  say, status_message, message_url, route, poll, await, fetch,
}
use cert_manager_essendi_xc.RequestController.Deferred.{start}
use cert_manager_essendi_xc.RequestController.Lifecycle.{
  Phase, phase, phase_of, ready_of, IsWellFormed,
}
use cert_manager_essendi_xc.RequestController.Lifecycle.Moves.{Puts-ready_of, Puts-IsWellFormed}
use cert_manager_essendi_xc.RequestController.Lifecycle.View.{signed-ready_of, submitted-ready_of}
use cert_manager_essendi_xc.RequestController.Stages.{pending_with, IsPolling, IsFetching}
use cert_manager_essendi_xc.RequestController.Steps.{
  Reconciler, Env, Run, report, Action, polled, fetched,
}
use cert_manager_essendi_xc.Signer.{Signer}

abbrev pub first : List Action → Option Action
first [] = none
first (a ∷ rest) = some a

module _ (cm : CmUtil) (rc : Reconciler) (env : Env) (s : Signer) (t : Text)
    (cr : CertificateRequest) where
  -- What a run does first once it has a signer and a token.
  abbrev pub first_action : Option Action
  first_action = first (route cm rc env s t cr (start cr)).1.actions

  first-polled :
      (url : Text) → IsPolling url cr.status.conditions → first_action ≡ some (polled url)
  unfolding route poll await report
  first-polled url p = rw (p.unsigned, p.submitted, p.url_read) (ground arith)

  first-fetched :
      (url : Text) → IsFetching url cr.status.conditions → first_action ≡ some (fetched url)
  unfolding route fetch report
  first-fetched url p = rw (p.signed, p.url_read) (ground arith)

module _ (cs : List Condition) (w : IsWellFormed cs) (c : Condition)
    (e : ready_of cs ≡ some c) where
  ready-IsPolling :
      (url : Text)
      → says_signed c ≡ false
      → says_submitted c ≡ true
      → message_url c ≡ some url
      → IsPolling url cs
  unfolding is_signed get_signed_condition is_submitted get_submitted_condition
  ready-IsPolling url u v m = record {
    unsigned = rw (signed-ready_of cs w, e, u) refl;
    submitted = rw (submitted-ready_of cs w, e, v) refl;
    url_read = rw (submitted-ready_of cs w, e, v) m;
  }

  ready-IsFetching :
      (url : Text) → says_signed c ≡ true → message_url c ≡ some url → IsFetching url cs
  unfolding is_signed get_signed_condition
  ready-IsFetching url u m = record {
    signed = rw (signed-ready_of cs w, e, u) refl;
    url_read = rw (signed-ready_of cs w, e, u) m;
  }

-- The request is in the phase `p`, and a run on it does `a` first once it has a signer and a token.
abbrev pub Leads :
    CmUtil → Reconciler → Env → Signer → Text → Phase → Action → CertificateRequest → Type 0
Leads cm rc env s t p a cr =
    (phase cr.status.conditions ≡ p) × (first_action cm rc env s t cr ≡ some a)

module _ (cm : CmUtil) (rc : Reconciler) (env next : Env) (s : Signer) (t url : Text) (r : Run)
    (w : IsWellFormed r.request.status.conditions) where
  said :
      (message : Text)
      → let cs = (say cm rc env pending message r).1.request.status.conditions in
        IsWellFormed cs × (ready_of cs ≡ some (pending_with message))
  unfolding report
  said message = (
    Puts-IsWellFormed (pending_with message) (cm.set_condition-Puts _ _) refl w,
    Puts-ready_of (pending_with message) (cm.set_condition-Puts _ _) refl,
  )

  polled_by :
      (p : Phase) (message : Text)
      → phase_of (some (pending_with message)) ≡ p
      → says_signed (pending_with message) ≡ false
      → says_submitted (pending_with message) ≡ true
      → message_url (pending_with message) ≡ some (trim_space url)
      → Leads cm rc next s t p (polled (trim_space url)) (say cm rc env pending message r).1.request
  polled_by p message h u v m =
      let (well, e) = said message in
      (
        ap phase_of e ∙ h,
        first-polled cm rc next s t _ (trim_space url)
            (ready-IsPolling _ well (pending_with message) e (trim_space url) u v m),
      )

  fetched_by :
      (p : Phase) (message : Text)
      → phase_of (some (pending_with message)) ≡ p
      → says_signed (pending_with message) ≡ true
      → message_url (pending_with message) ≡ some (trim_space url)
      → Leads cm rc next s t p
          (fetched (trim_space url))
          (say cm rc env pending message r).1.request
  fetched_by p message h u m =
      let (well, e) = said message in
      (
        ap phase_of e ∙ h,
        first-fetched cm rc next s t _ (trim_space url)
            (ready-IsFetching _ well (pending_with message) e (trim_space url) u m),
      )

  -- On well-formed conditions, each of the four messages that carry a URL puts the request into a phase
  -- of its own, whatever the URL is. What a later run does first on that request, once it has a signer
  -- and a token, is to poll that URL, blanks at its ends aside, after the messages submitted, processing
  -- and approved, and to fetch the certificate from it after the message signed.
  pub messages_round_trip :
      Leads cm rc next s t Phase.submitted
        (polled (trim_space url))
        (say cm rc env pending
          (status_message issuer_condition_status_submitted (codes ", status: ") url)
          r).1.request
      × Leads cm rc next s t Phase.processing
          (polled (trim_space url))
          (say cm rc env pending
            (status_message issuer_condition_status_processing (codes ", resource: ") url)
            r).1.request
      × Leads cm rc next s t Phase.approved
          (polled (trim_space url))
          (say cm rc env pending
            (status_message issuer_condition_status_approved (codes ", resource: ") url)
            r).1.request
      × Leads cm rc next s t Phase.signed
          (fetched (trim_space url))
          (say cm rc env pending
            (status_message issuer_condition_status_signed (codes ", resource: ") url)
            r).1.request
  unfolding says_submitted says_signed has_prefix codes message_url after_colon trim_space
  messages_round_trip = (
    polled_by Phase.submitted _ refl refl refl refl,
    polled_by Phase.processing _ refl refl refl refl,
    polled_by Phase.approved _ refl refl refl refl,
    fetched_by Phase.signed _ refl refl refl,
  )
