-- ===== src/Signer/Located.antt =====
-- signer.go: when the API has told where the certificate of a task is.
use cert_manager_essendi_xc.Base.{none, false, [], ◌≡◌, ◌↔◌, refl, ap, arith, ◌∙◌, sym, subst}
use cert_manager_essendi_xc.Base.Text.{Text, codes, is_empty}
use cert_manager_essendi_xc.Base.Errors.{Error, Outcome, ok, err, >>=-ok, >>=-from}
use cert_manager_essendi_xc.Signer.Http.{Http, HttpRequest, Response}
use cert_manager_essendi_xc.Signer.Essendi.{EssendiSigner, api_request, checked_request, own_url}
use cert_manager_essendi_xc.Signer.OwnUrl.{IsOwnUrl, own_url-IsOwnUrl, IsOwnUrl-own_url}
use cert_manager_essendi_xc.Signer.Signed.{IsSigned, api_request-IsSigned, IsSigned-api_request}
use cert_manager_essendi_xc.Signer.Task.{
  request_status, task_of, task_response, request_task_status,
}

module _ (http : Http) (o : EssendiSigner) (token url : Text) where
  abbrev pub asked : Text → HttpRequest
  asked path = api_request http o token (codes "GET") url path []

  -- The API answered the GET of `url`, which is signed, by 303 with a location, `resource` is what
  -- becomes of it, and the body tells the status `task`.
  pub record IsLocated (resource task : Text) : Type 0 where
    pub path : Text
    pub resp : Response
    pub parsed : http.url_path url ≡ ok path
    pub checked : http.new_request (codes "GET") url ≡ none
    pub request : HttpRequest
    pub is_signed : IsSigned http o token (codes "GET") url path [] request
    pub answered : http.do_request request ≡ ok resp
    pub see_other : resp.status_code ≡ 303
    pub located : is_empty resp.location ≡ false
    pub resource_made : IsOwnUrl o resp.location resource
    pub task_read : request_status http resp.body ≡ task

  sent :
      (path : Text) (x : Outcome (Text × Text))
      → http.url_path url ≡ ok path
      → http.new_request (codes "GET") url ≡ none
      → task_of http o (http.do_request (asked path)) ≡ x
      → request_task_status http o token url ≡ x
  unfolding request_task_status
  sent path x p c d =
      >>=-from _ _ path _ p
        (>>=-from (checked_request http (codes "GET") url) _ tt _ (rw (c, checked_request) refl) d)

  task_of-ok :
      (m : Outcome Response) (x : Text × Text)
      → task_of http o m ≡ ok x
      → is_empty x.0 ≡ false
      → (resp : Response) × (m ≡ ok resp) × (task_response http o resp ≡ x)
  task_of-ok m x h n = ground arith

  response_located :
      (resp : Response) (resource task : Text)
      → task_response http o resp ≡ (resource, task)
      → is_empty resource ≡ false
      → (resp.status_code ≡ 303)
        × (is_empty resp.location ≡ false)
        × (own_url o resp.location ≡ resource)
        × (request_status http resp.body ≡ task)
  unfolding task_response
  response_located resp resource task h n = ground arith

  located_response :
      (resp : Response)
      → resp.status_code ≡ 303
      → is_empty resp.location ≡ false
      → task_response http o resp ≡ (own_url o resp.location, request_status http resp.body)
  unfolding task_response
  located_response resp a b = ground arith

  -- A poll yields a resource that is not empty exactly where the API answered the GET of the task's URL,
  -- with the token and the signature of client, method, type, time and path, by 303 with a location,
  -- the resource is what becomes of the location in the same way as in a submission, and the body tells
  -- the status.
  pub task-IsLocated :
      (resource task : Text)
      → is_empty resource ≡ false
      → (request_task_status http o token url ≡ ok (resource, task)) ↔ IsLocated resource task
  unfolding request_task_status
  task-IsLocated resource task full = (
    (λ h.
        let (path, p, h1) = >>=-ok (http.url_path url) _ (resource, task) h in
        let (_, c, h2) = >>=-ok (checked_request http (codes "GET") url) _ (resource, task) h1 in
        let (resp, d, h3) = task_of-ok (http.do_request (asked path)) (resource, task) h2 full in
        let (status, located, made, told) = response_located resp resource task h3 full in
        record {
          path = path;
          resp = resp;
          parsed = p;
          checked = ground arith;
          request = asked path;
          is_signed = api_request-IsSigned http o token _ _ _ _;
          answered = d;
          see_other = status;
          located = located;
          resource_made = subst (IsOwnUrl o resp.location) made (own_url-IsOwnUrl o resp.location);
          task_read = told;
        }),
    (λ a. sent a.path _ a.parsed a.checked (
        ap (task_of http o) (
          ap http.do_request (sym (IsSigned-api_request http o token _ _ _ _ a.request a.is_signed))
          ∙ a.answered)
        ∙ ap ok (located_response a.resp a.see_other a.located)
        ∙ λ i. ok (IsOwnUrl-own_url o a.resp.location resource a.resource_made i, a.task_read i))),
  )

  -- A poll that does not reach the API is no error: it yields neither a resource nor a status.
  pub task_unreached :
      (path : Text) (e : Error)
      → http.url_path url ≡ ok path
      → http.new_request (codes "GET") url ≡ none
      → http.do_request (asked path) ≡ err e
      → request_task_status http o token url ≡ ok ([], [])
  task_unreached path e p c d = sent path _ p c (ap (task_of http o) d)
