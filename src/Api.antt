-- ===== src/Api.antt =====
-- api/v1alpha1: the custom resources Issuer and ClusterIssuer, and the texts that the controllers
-- write into conditions and compare with.
use cert_manager_essendi_xc.Base.{ℕ, Bool, true, false, Option, List}
use cert_manager_essendi_xc.Base.Text.{Text, codes}

pub record IssuerCustomField : Type 0 where
  pub name : Text
  pub value : Text

pub record IssuerSpec : Type 0 where
  pub url : Text
  pub custom_fields : List IssuerCustomField
  pub auth_secret_name : Text
  pub profile_name : Text
  pub subscriber_name : Text
  pub ignore_host_in_api_response : Bool

-- `type IssuerConditionType string`; `other` holds a text that is not "Ready".
pub data IssuerConditionType : Type 0 where
  ready : IssuerConditionType
  other : Text → IssuerConditionType

-- `type ConditionStatus string`; `unset` is the zero value "". The resource's schema admits no text
-- but the three others.
pub data ConditionStatus : Type 0 where
  unset is_true is_false unknown : ConditionStatus

-- A `*metav1.Time` is an optional instant.
pub record IssuerCondition : Type 0 where
  pub type : IssuerConditionType
  pub status : ConditionStatus
  pub last_transition_time : Option ℕ
  pub reason : Text
  pub message : Text

pub record IssuerStatus : Type 0 where
  pub conditions : List IssuerCondition

-- Of the metadata the program reads the name and the namespace.
pub record ObjectMeta : Type 0 where
  pub name : Text
  pub namespace : Text

pub record Issuer : Type 0 where
  pub metadata : ObjectMeta
  pub spec : IssuerSpec
  pub status : IssuerStatus

pub record ClusterIssuer : Type 0 where
  pub metadata : ObjectMeta
  pub spec : IssuerSpec
  pub status : IssuerStatus

-- A `client.Object`; a foreign object shows itself to `%t` and `%v` by a text.
pub data Object : Type 0 where
  issuer : Issuer → Object
  cluster_issuer : ClusterIssuer → Object
  foreign : Text → Object

-- `c.Type == IssuerConditionReady`
abbrev pub is_ready_type : IssuerConditionType → Bool
is_ready_type ready = true
is_ready_type (other _) = false

-- `==` on condition statuses
abbrev pub status_eq : ConditionStatus → ConditionStatus → Bool
status_eq unset unset = true
status_eq is_true is_true = true
status_eq is_false is_false = true
status_eq unknown unknown = true
status_eq _ _ = false

abbrev pub group : Text
group = codes "essendixc.angeloxx.ch"

abbrev pub event_reason_certificate_request_reconciler : Text
event_reason_certificate_request_reconciler = codes "CertificateRequestReconciler"

abbrev pub event_reason_issuer_reconciler : Text
event_reason_issuer_reconciler = codes "IssuerReconciler"

abbrev pub issuer_condition_status_submitted : Text
issuer_condition_status_submitted = codes "Certificate request submitted"

abbrev pub issuer_condition_status_processing : Text
issuer_condition_status_processing = codes "Certificate request in progress"

abbrev pub issuer_condition_status_approved : Text
issuer_condition_status_approved = codes "Certificate request approved"

abbrev pub issuer_condition_status_signed : Text
issuer_condition_status_signed = codes "Certificate is signed"

abbrev pub task_status_processing : Text
task_status_processing = codes "PROCESSING"

abbrev pub task_status_approved : Text
task_status_approved = codes "APPROVED"

abbrev pub task_status_failed : Text
task_status_failed = codes "FAILED_IN_REVIEW"

abbrev pub task_status_declined : Text
task_status_declined = codes "DECLINED"

abbrev pub task_status_canceled : Text
task_status_canceled = codes "CANCELED"
