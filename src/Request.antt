-- ===== src/Request.antt =====
-- cert-manager's CertificateRequest, as far as the program reads and writes it, and the functions
-- of cert-manager's package api/util that the program calls, as an interface.
pub mod Laws
pub mod Sample
use cert_manager_essendi_xc.Base.{ℕ, ◌≡◌, ◌≢◌, ◌↔◌, ◌⊎◌, Bool, true, Option, List, [], ◌∷◌}
use cert_manager_essendi_xc.Base.Text.{Text}

-- A text that the program compares with no constant stays a text; `other` is any other text.
pub data ConditionType : Type 0 where
  ready approved denied failed : ConditionType
  other : Text → ConditionType

pub data ConditionStatus : Type 0 where
  is_true is_false unknown : ConditionStatus

pub data Reason : Type 0 where
  pending failed issued denied : Reason
  other : Text → Reason

-- The program does not look at the time of the last transition.
pub record Condition : Type 0 where
  pub type : ConditionType
  pub status : ConditionStatus
  pub reason : Reason
  pub message : Text

pub record IssuerRef : Type 0 where
  pub name : Text
  pub kind : Text
  pub group : Text

pub record RequestSpec : Type 0 where
  pub issuer_ref : IssuerRef
  pub request : Text

-- `certificate` and `ca` are `[]byte`, with `[]` for nil.
pub record RequestStatus : Type 0 where
  pub conditions : List Condition
  pub certificate : Text
  pub ca : Text
  pub failure_time : Option ℕ

pub record CertificateRequest : Type 0 where
  pub name : Text
  pub namespace : Text
  pub spec : RequestSpec
  pub status : RequestStatus

-- Some element of the list satisfies `P`.
abbrev pub Any {ℓ} : {A : Type ℓ} → (A → Type 0) → List A → Type 0
Any P [] = ⊥
Any P (x ∷ xs) = P x ⊎ Any P xs

abbrev pub HasType : ConditionType → Condition → Type 0
HasType t c = c.type ≡ t

abbrev pub HasStatus : ConditionType → ConditionStatus → Condition → Type 0
HasStatus t s c = (c.type ≡ t) × (c.status ≡ s)

abbrev pub HasReason : ConditionType → ConditionStatus → Reason → Condition → Type 0
HasReason t s r c = (c.type ≡ t) × (c.status ≡ s) × (c.reason ≡ r)

-- `Puts c cs cs'`: the first condition of the type of `c` is replaced by `c`, or `c` is added at the
-- end where no condition has that type.
pub data Puts (c : Condition) : List Condition → List Condition → Type 0 where
  added : Puts c [] (c ∷ [])
  replaced : {d : Condition} {cs : List Condition} → d.type ≡ c.type → Puts c (d ∷ cs) (c ∷ cs)
  kept :
      {d : Condition} {cs cs' : List Condition}
      → d.type ≢ c.type
      → Puts c cs cs'
      → Puts c (d ∷ cs) (d ∷ cs')

-- cert-manager's package api/util. `has_status` and `has_reason` are
-- `CertificateRequestHasCondition` without and with a reason.
pub record CmUtil : Type 0 where
  pub has_status : List Condition → ConditionType → ConditionStatus → Bool
  pub has_reason : List Condition → ConditionType → ConditionStatus → Reason → Bool
  pub is_approved : List Condition → Bool
  pub is_denied : List Condition → Bool
  pub get_condition : List Condition → ConditionType → Option Condition
  pub set_condition : Condition → List Condition → List Condition
  pub has_status_iff :
      (cs : List Condition) (t : ConditionType) (s : ConditionStatus)
      → (has_status cs t s ≡ true) ↔ Any (HasStatus t s) cs
  pub has_reason_iff :
      (cs : List Condition) (t : ConditionType) (s : ConditionStatus) (r : Reason)
      → (has_reason cs t s r ≡ true) ↔ Any (HasReason t s r) cs
  pub is_approved_iff :
      (cs : List Condition) → (is_approved cs ≡ true) ↔ Any (HasStatus approved is_true) cs
  pub is_denied_iff :
      (cs : List Condition) → (is_denied cs ≡ true) ↔ Any (HasStatus denied is_true) cs
  pub get_condition-eq-none_iff :
      (cs : List Condition) (t : ConditionType)
      → (get_condition cs t ≡ Option.none) ↔ (¬ Any (HasType t) cs)
  pub set_condition-Puts : (c : Condition) (cs : List Condition) → Puts c cs (set_condition c cs)
