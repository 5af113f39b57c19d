-- ===== src/Signer/Client.antt =====
-- signer.go: `essendixcSigner` as an implementation of `Signer`.
use cert_manager_essendi_xc.Signer.{Signer}
use cert_manager_essendi_xc.Signer.Http.{Http}
use cert_manager_essendi_xc.Signer.Essendi.{EssendiSigner, get_refresh_token}
use cert_manager_essendi_xc.Signer.Submit.{submit_certificate_request}
use cert_manager_essendi_xc.Signer.Task.{request_task_status}
use cert_manager_essendi_xc.Signer.Fetch.{fetch_certificate}

module _ (http : Http) where
  -- The signer as the controllers see it.
  unfoldable pub signer : EssendiSigner → Signer
  signer o = record {
    submit_certificate_request = submit_certificate_request http o;
    get_refresh_token = get_refresh_token http o;
    request_task_status = request_task_status http o;
    fetch_certificate = fetch_certificate http o;
  }
