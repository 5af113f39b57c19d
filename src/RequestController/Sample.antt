-- ===== src/RequestController/Sample.antt =====
-- A small world for tests of the controller: a ready issuer, its secret, a CA, and requests.
pub mod Facts
use cert_manager_essendi_xc.Base.{
  ℕ, Bool, true, false, Option, none, some, List, [], ◌∷◌, ◌++◌, if◌then◌else◌,
}
use cert_manager_essendi_xc.Base.Errors.{Error, Outcome, ok, err, ◌>>=◌}
use cert_manager_essendi_xc.Base.Text.{Text, codes, text_eq}
use cert_manager_essendi_xc.Api
use cert_manager_essendi_xc.Api.{Issuer, IssuerSpec, IssuerStatus, ObjectMeta, group}
use cert_manager_essendi_xc.Request
use cert_manager_essendi_xc.Request.{
  Condition, Reason, CertificateRequest, RequestSpec, RequestStatus, IssuerRef, ready, approved,
  is_true, is_false, pending,
}
use cert_manager_essendi_xc.Signer.{SecretData, Signer}
use cert_manager_essendi_xc.Signer.Http.{Http, HttpRequest, Response, Csr, str}
use cert_manager_essendi_xc.Signer.Essendi.{EssendiSigner, signer_from_issuer_and_secret_data}
use cert_manager_essendi_xc.Signer.Client.{signer}
use cert_manager_essendi_xc.RequestController.Steps.{client_object, Kind, Reconciler, Env}

abbrev pub spec : IssuerSpec
spec = record {
  url = codes "https://ca";
  custom_fields = [];
  auth_secret_name = codes "auth";
  profile_name = codes "p";
  subscriber_name = codes "s";
  ignore_host_in_api_response = false;
}

abbrev pub ready_status : IssuerStatus
ready_status = record {
  conditions =
      record {
        type = Api.ready;
        status = Api.is_true;
        last_transition_time = some 3;
        reason = codes "IssuerReconciler";
        message = codes "Success";
      }
      ∷ [];
}

abbrev pub secret : SecretData
secret key = some key

abbrev pub ca_signer : EssendiSigner
ca_signer = record {
  issuer = spec;
  client_id = codes "client-id";
  client_secret = codes "client-secret";
  token = codes "token";
  realm = codes "xc";
  signature_key = codes "signature-key";
}

abbrev pub csr : Csr
csr = record {
  common_name = codes "host";
  country = [];
  locality = [];
  organization = [];
  organizational_unit = [];
  province = [];
  email_addresses = [];
}

-- A request is sent to `respond`; every body is a JSON object whose fields all are the body.
abbrev pub http : (HttpRequest → Outcome Response) → Http
http respond = record {
  now = 7;
  token = λ id key url refresh. ok (codes "T");
  pem_decode =
      λ s. some (record { type = codes "CERTIFICATE REQUEST"; header = []; bytes = s }, []);
  parse_certificate_request = λ s. ok csr;
  execute = λ t v. ok t;
  marshal = λ s. ok s.csr;
  mac = λ k m. k ++ m;
  url_path = λ u. ok u;
  new_request = λ m u. none;
  do_request = respond;
  json_valid = λ b. true;
  unmarshal_object = λ b. ok (λ k. str b);
  unmarshal_strings = λ b. ok (λ k. b);
}

abbrev pub answer : ℕ → Text → Text → Outcome Response
answer status_code location body =
    ok (record { status_code = status_code; location = location; body = body; read_error = none })

-- The CA accepts a submission, and has signed what it is asked for.
abbrev pub signing : HttpRequest → Outcome Response
signing r =
    if text_eq r.method (codes "POST")
    then answer 202 (codes "https://ca/t/1") []
    else if text_eq r.url (codes "https://ca/t/1")
    then answer 303 (codes "https://ca/c/1") []
    else answer 200 [] (codes "CERT")

-- The CA has declined the task.
abbrev pub declining : HttpRequest → Outcome Response
declining r = answer 200 [] (codes "DECLINED")

abbrev pub unreachable : HttpRequest → Outcome Response
unreachable r = err (record { text = codes "no route to host" })

abbrev pub reconciler : Reconciler
reconciler = record {
  cluster_resource_namespace = codes "cert-manager";
  auth_realm = codes "xc";
  check_approved_condition = true;
}

abbrev pub world : (HttpRequest → Outcome Response) → Env
world respond = record {
  scheme_new = λ kind. ok (client_object Kind.issuer);
  get_issuer = λ n. ok (record {
    metadata = record { name = n.name; namespace = n.namespace };
    spec = spec;
    status = ready_status;
  });
  get_cluster_issuer = λ n. err (record { text = codes "not found" });
  get_secret = λ n. ok secret;
  signer_builder = λ spec realm secret.
      signer_from_issuer_and_secret_data spec realm secret >>= λ o. ok (signer (http respond) o);
  extract_ca = λ pem. none;
  now = 5;
  update = λ cr. none;
  aggregate = λ e u. u;
}

abbrev pub request_with : List Condition → CertificateRequest
request_with cs = record {
  name = codes "r";
  namespace = codes "ns";
  spec = record {
    issuer_ref = record { name = codes "ca"; kind = codes "Issuer"; group = group };
    request = codes "CSR";
  };
  status = record { conditions = cs; certificate = []; ca = []; failure_time = none };
}

abbrev pub approval : Condition
approval = record {
  type = approved;
  status = is_true;
  reason = Reason.other (codes "Policy");
  message = [];
}

abbrev pub pending_as : Text → Condition
pending_as message = record { type = ready; status = is_false; reason = pending; message = message }

abbrev pub fresh : CertificateRequest
fresh = request_with (approval ∷ pending_as (codes "Initialising Ready condition") ∷ [])

abbrev pub waiting : CertificateRequest
waiting =
    request_with
      (approval ∷ pending_as (codes "Certificate request submitted, status: https://ca/t/1") ∷ [])

abbrev pub fetching : CertificateRequest
fetching =
    request_with
      (approval ∷ pending_as (codes "Certificate is signed, resource: https://ca/c/1") ∷ [])
