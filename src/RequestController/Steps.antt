-- ===== src/RequestController/Steps.antt =====
-- One run of `Reconcile`: what it finds (`Env`), what it has done so far (`Run`), and the steps that
-- it is made of. A step goes on with a value, or ends the function by a return or a panic.
use cert_manager_essendi_xc.Base.{
  ◌≡◌, ◌⊎◌, inl, inr, refl, ℕ, Bool, Option, none, some, List, [], ◌∷◌, ◌++◌, if◌then◌else◌,
}
use cert_manager_essendi_xc.Base.Text.{Text, codes}
use cert_manager_essendi_xc.Base.Errors.{Error, Outcome, ok, err, panic}
use cert_manager_essendi_xc.Api.{IssuerSpec, Issuer, ClusterIssuer}
use cert_manager_essendi_xc.Request
use cert_manager_essendi_xc.Request.{
  CertificateRequest, Condition, ConditionStatus as Status, Reason, is_true, is_false, ready,
  issued, CmUtil,
}
use cert_manager_essendi_xc.Signer.{Signer, SecretData}

-- `defaultTaskCheckInterval`, in seconds
abbrev pub default_task_check_interval : ℕ
default_task_check_interval = 15

abbrev pub err_issuer_ref : Text
err_issuer_ref = codes "error interpreting issuerRef"

abbrev pub err_get_issuer : Text
err_get_issuer = codes "error getting issuer"

abbrev pub err_issuer_not_ready : Text
err_issuer_not_ready = codes "issuer is not ready"

abbrev pub err_signer_builder : Text
err_signer_builder = codes "failed to build the signer"

abbrev pub err_get_auth_secret : Text
err_get_auth_secret = codes "failed to get Secret containing Issuer credentials"

abbrev pub err_signer_refused : Text
err_signer_refused = codes "signing refused"

-- What `client.Client.Get` answers; `client.IgnoreNotFound` keeps every error but the second.
pub data Lookup (A : Type 0) : Type 0 where
  found : A → Lookup A
  not_found : Lookup A
  failed : Error → Lookup A

-- The Go type of a `client.Object`.
pub data Kind : Type 0 where
  issuer cluster_issuer : Kind
  foreign : Text → Kind

-- What `Scheme.New` makes: a new `client.Object`, or an object that is none, by the name of its kind:
-- lists, and the options and answers of the API machinery.
pub data RuntimeObject : Type 0 where
  client_object : Kind → RuntimeObject
  issuer_list cluster_issuer_list : RuntimeObject
  machinery : Text → RuntimeObject

-- `ro.(client.Object)`, which panics for `none`.
abbrev pub as_client_object : RuntimeObject → Option Kind
as_client_object (client_object k) = some k
as_client_object _ = none

pub record NamespacedName : Type 0 where
  pub namespace : Text
  pub name : Text

-- `ctrl.Result`, with `RequeueAfter` in seconds.
pub record Result : Type 0 where
  pub requeue_after : ℕ

pub data EventType : Type 0 where
  normal warning : EventType

-- What a run does to the world, in order.
pub data Action : Type 0 where
  event : EventType → Text → Action
  refreshed : Action
  submitted : Text → Action
  polled : Text → Action
  fetched : Text → Action
  updated : CertificateRequest → Action

-- The fields of `CertificateRequestReconciler` that are plain data.
pub record Reconciler : Type 0 where
  pub cluster_resource_namespace : Text
  pub auth_realm : Text
  pub check_approved_condition : Bool

-- The answers that one run gets from the API server, the clock and the signer; `update` is
-- `Status().Update`, with `none` for success, and `aggregate` joins errors as `NewAggregate` does.
pub record Env : Type 0 where
  pub scheme_new : Text → Outcome RuntimeObject
  pub get_issuer : NamespacedName → Outcome Issuer
  pub get_cluster_issuer : NamespacedName → Outcome ClusterIssuer
  pub get_secret : NamespacedName → Outcome SecretData
  pub signer_builder : IssuerSpec → Text → SecretData → Outcome Signer
  pub extract_ca : Text → Option Text
  pub now : ℕ
  pub update : CertificateRequest → Option Error
  pub aggregate : Option Error → Error → Error

-- `request` is the local variable `certificateRequest`, `stored` the API server's copy.
pub record Run : Type 0 where
  pub request : CertificateRequest
  pub stored : CertificateRequest
  pub actions : List Action

pub data Exit : Type 0 where
  returned : Result → Option Error → Exit
  panicked : Exit

pub data Flow (A : Type 0) : Type 0 where
  go : A → Flow A
  stop : Exit → Flow A

pub Flow-cases : {A : Type 0} (x : Flow A) → ((a : A) × (x ≡ go a)) ⊎ ((e : Exit) × (x ≡ stop e))
Flow-cases (go a) = inl (a, refl)
Flow-cases (stop e) = inr (e, refl)

abbrev pub Step : Type 0 → Type 0
Step A = Run → Flow A × Run

module _ {A : Type 0} where
  abbrev pub pass : A → Step A
  pass x r = (go x, r)

  abbrev pub crash : Step A
  crash r = (stop panicked, r)

  -- `return result, err`
  abbrev pub return_with : ℕ → Option Error → Step A
  return_with seconds e r = (stop (returned (record { requeue_after = seconds }) e), r)

  -- A failed call ends the run by `return ctrl.Result{}, wrap(err)`.
  abbrev pub or_return : (Text → Text) → Outcome A → Step A
  or_return wrap (ok x) r = (go x, r)
  or_return wrap (err e) r =
      (stop (returned (record { requeue_after = 0 }) (some (record { text = wrap e.text }))), r)
  or_return wrap panic r = (stop panicked, r)

  -- An index out of range panics.
  abbrev pub or_panic : Option A → Step A
  or_panic none r = (stop panicked, r)
  or_panic (some x) r = (go x, r)

infixl 5 ◌>>=◌ ◌>>◌
abbrev pub ◌>>=◌ : {A B : Type 0} → Step A → (A → Step B) → Step B
◌>>=◌ m f r = let (x, r') = m r in elim x [ go a ↦ f a r' | stop e ↦ (stop e, r') ]

abbrev pub ◌>>◌ : {A B : Type 0} → Step A → Step B → Step B
m >> k = m >>= λ _. k

abbrev pub act : Action → Step (Unit {0})
act a r = (go tt, record r { actions = r.actions ++ a ∷ [] })

abbrev pub gets : {A : Type 0} → (CertificateRequest → A) → Step A
gets f r = (go (f r.request), r)

abbrev pub modify : (CertificateRequest → CertificateRequest) → Step (Unit {0})
modify f r = (go tt, record r { request = f r.request })

-- `fmt.Errorf("%w: %v", sentinel, err)`, and the message of a report with an error.
abbrev pub wrap : Text → Text → Text
wrap outer inner = outer ++ (codes ": " ++ inner)

abbrev with_error : Text → Option Error → Text
with_error message none = message
with_error message (some e) = wrap message e.text

abbrev event_type : Option Error → EventType
event_type none = normal
event_type (some _) = warning

abbrev status_of : Reason → Status
status_of issued = is_true
status_of _ = is_false

-- The condition that `report` sets.
abbrev pub reported : Reason → Text → Bool → Option Error → Condition
reported reason message is_failed e = record {
  type = if is_failed then Request.failed else ready;
  status = status_of reason;
  reason = reason;
  message = with_error message e;
}

-- `Status.Conditions` after `SetCertificateRequestCondition`.
abbrev pub put : CmUtil → Condition → CertificateRequest → CertificateRequest
put cm c cr = record cr {
  status = record cr.status { conditions = cm.set_condition c cr.status.conditions };
}

-- The closure `report`: an event, and the condition.
unfoldable pub report : CmUtil → Reason → Text → Bool → Option Error → Step (Unit {0})
report cm reason message is_failed e = do
  act (event (event_type e) (with_error message e))
  modify (put cm (reported reason message is_failed e))
