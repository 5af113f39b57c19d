-- ===== src/Signer.antt =====
-- internal/issuer/signer/signer.go: the interfaces `Signer` and `HealthChecker`, through which the
-- controllers use the signer.
pub mod Host
pub mod Http
pub mod Essendi
pub mod Submit
pub mod Task
pub mod Fetch
pub mod Client
pub mod Payload
pub mod Keys
pub mod OwnUrl
pub mod Signed
pub mod Accepted
pub mod Hosts
pub mod Panics
pub mod Located
pub mod Fields
pub mod X509Util
mod Tests
use cert_manager_essendi_xc.Base.{Option}
use cert_manager_essendi_xc.Base.Text.{Text}
use cert_manager_essendi_xc.Base.Errors.{Error, Outcome}

-- The data of a Secret, a `map[string][]byte`.
abbrev pub SecretData : Type 0
SecretData = Text → Option Text

pub record HealthChecker : Type 0 where
  pub check : Option Error

pub record Signer : Type 0 where
  pub submit_certificate_request : Text → Text → Outcome Text
  pub get_refresh_token : Outcome Text
  pub request_task_status : Text → Text → Outcome (Text × Text)
  pub fetch_certificate : Text → Text → Outcome Text
