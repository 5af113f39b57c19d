-- ===== src/Signer/Task.antt =====
-- signer.go: `RequestTaskStatus`.
use cert_manager_essendi_xc.Base.{not, [], ◌==◌, if◌then◌else◌}
use cert_manager_essendi_xc.Base.Text.{Text, codes, is_empty}
use cert_manager_essendi_xc.Base.Errors.{Outcome, ok, err, panic, ◌>>=◌, ◌>>◌}
use cert_manager_essendi_xc.Signer.Http.{Http, Response}
use cert_manager_essendi_xc.Signer.Essendi.{EssendiSigner, own_url, checked_request, api_request}

module _ (http : Http) where
  -- `response["status"]` of a body that is a JSON object of strings, or "".
  abbrev string_field : Outcome (Text → Text) → Text
  string_field (ok object) = object (codes "status")
  string_field (err _) = []
  string_field panic = []

  abbrev pub request_status : Text → Text
  request_status body =
      if http.json_valid body then string_field (http.unmarshal_strings body) else []

  -- What `RequestTaskStatus` makes of the response: the resource's URL and the task's status.
  unfoldable pub task_response : EssendiSigner → Response → Text × Text
  task_response o resp =
      if not (resp.status_code == 303)
      then ([], request_status resp.body)
      else if is_empty resp.location
      then ([], [])
      else (own_url o resp.location, request_status resp.body)

  -- A request that could not be sent is logged, and is no error.
  abbrev pub task_of : EssendiSigner → Outcome Response → Outcome (Text × Text)
  task_of o (ok resp) = ok (task_response o resp)
  task_of o (err _) = ok ([], [])
  task_of o panic = panic

  -- `RequestTaskStatus`
  unfoldable pub request_task_status : EssendiSigner → Text → Text → Outcome (Text × Text)
  request_task_status o token status_endpoint = do
    urlpath ← http.url_path status_endpoint
    checked_request http (codes "GET") status_endpoint
    task_of o (http.do_request (api_request http o token (codes "GET") status_endpoint urlpath []))
