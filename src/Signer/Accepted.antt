-- ===== src/Signer/Accepted.antt =====
-- signer.go: when a submission counts as accepted.
use cert_manager_essendi_xc.Base.{
  none, some, inl, inr, Option-cases, Bool-cases, false, List, [], ◌++◌, ◌≡◌, ◌↔◌, refl, arith, ap,
  sym, subst, ◌∙◌,
}
use cert_manager_essendi_xc.Base.Text.{Text, codes, is_empty, text_eq}
use cert_manager_essendi_xc.Base.Text.Laws.{text_eq_iff}
use cert_manager_essendi_xc.Base.Errors.{ok, >>=-ok, >>=-from}
use cert_manager_essendi_xc.PemChain.{Block}
use cert_manager_essendi_xc.Signer.Http.{Http, HttpRequest, Response, Csr}
use cert_manager_essendi_xc.Signer.Essendi.{
  EssendiSigner, parse_csr, checked_request, api_request, own_url,
}
use cert_manager_essendi_xc.Signer.OwnUrl.{IsOwnUrl, own_url-IsOwnUrl, IsOwnUrl-own_url}
use cert_manager_essendi_xc.Signer.Signed.{IsSigned, api_request-IsSigned, IsSigned-api_request}
use cert_manager_essendi_xc.Signer.Submit.{
  variables, custom_fields, api_url, submission, submitted_response, submit_certificate_request,
}

-- The bytes are a PEM block of a certificate request, which is parsed; the custom fields are filled in
-- and the content made; the API answered the POST of that content, which is signed, by 202 with a
-- location, and `url` is what becomes of it.
pub record IsAccepted (http : Http) (o : EssendiSigner) (token csr_bytes url : Text) : Type 0 where
  pub csr : Csr
  pub fields : List (Text × Text)
  pub content : Text
  pub resp : Response
  pub block : Block
  pub rest : Text
  pub decoded : http.pem_decode csr_bytes ≡ some (block, rest)
  pub is_request : block.type ≡ codes "CERTIFICATE REQUEST"
  pub parsed : http.parse_certificate_request block.bytes ≡ ok csr
  pub filled : custom_fields http (variables o csr) o.issuer.custom_fields [] ≡ ok fields
  pub made :
      http.marshal (record {
        csr = csr_bytes;
        profile_name = o.issuer.profile_name;
        subscriber = o.issuer.subscriber_name;
        custom_fields = fields;
      })
      ≡ ok content
  pub checked :
      http.new_request (codes "POST") (o.issuer.url ++ codes "/api/v2/csr-process/request") ≡ none
  pub request : HttpRequest
  pub is_signed :
      IsSigned http o token
        (codes "POST")
        (o.issuer.url ++ codes "/api/v2/csr-process/request")
        (codes "/api/v2/csr-process/request")
        content
        request
  pub answered : http.do_request request ≡ ok resp
  pub accepted : resp.status_code ≡ 202
  pub located : is_empty resp.location ≡ false
  pub url_made : IsOwnUrl o resp.location url

-- The bytes are a PEM block of the type of a certificate request, which is parsed.
record IsParsed (http : Http) (csr_bytes : Text) (csr : Csr) : Type 0 where
  block : Block
  rest : Text
  decoded : http.pem_decode csr_bytes ≡ some (block, rest)
  is_request : block.type ≡ codes "CERTIFICATE REQUEST"
  parsed : http.parse_certificate_request block.bytes ≡ ok csr

parse_csr-IsParsed :
    (http : Http) (csr_bytes : Text) (csr : Csr)
    → parse_csr http csr_bytes ≡ ok csr
    → IsParsed http csr_bytes csr
unfolding parse_csr
parse_csr-IsParsed http csr_bytes csr h = elim (Option-cases (http.pem_decode csr_bytes)) [
  | inl e ↦ absurd (ground arith)
  | inr ((block, rest), e) ↦ elim (Bool-cases (text_eq block.type (codes "CERTIFICATE REQUEST"))) [
    | inl same ↦ record {
      block = block;
      rest = rest;
      decoded = e;
      is_request = (text_eq_iff block.type (codes "CERTIFICATE REQUEST")).0 same;
      parsed = rw (parse_csr, e, same) at h;
    }
    | inr other ↦ absurd (ground arith)
  ]
]

IsParsed-parse_csr :
    (http : Http) (csr_bytes : Text) (csr : Csr)
    → IsParsed http csr_bytes csr
    → parse_csr http csr_bytes ≡ ok csr
unfolding parse_csr
IsParsed-parse_csr http csr_bytes csr p =
    rw
      (
        parse_csr,
        p.decoded,
        (text_eq_iff p.block.type (codes "CERTIFICATE REQUEST")).1 p.is_request,
      )
      p.parsed

module _ (http : Http) (o : EssendiSigner) (token csr_bytes : Text) where
  abbrev posted : Text → HttpRequest
  posted content = api_request http o token (codes "POST") (o.issuer.url ++ api_url) api_url content

  response_accepted :
      (resp : Response) (url : Text)
      → submitted_response http o resp ≡ ok url
      → (resp.status_code ≡ 202)
        × (is_empty resp.location ≡ false)
        × (own_url o resp.location ≡ url)
  unfolding submitted_response
  response_accepted resp url h = ground arith

  accepted_response :
      (resp : Response) (url : Text)
      → resp.status_code ≡ 202
      → is_empty resp.location ≡ false
      → own_url o resp.location ≡ url
      → submitted_response http o resp ≡ ok url
  unfolding submitted_response
  accepted_response resp url a b c = ground arith

  -- A submission succeeds with a URL exactly where the bytes are a PEM block of a certificate
  -- request that is parsed, the custom fields are filled in, the content is made of the bytes, the
  -- issuer's profile and subscriber and the fields, the API answered the POST of that content,
  -- with the token and the signature of client, method, type, time, path and content, by 202 with
  -- a location, and the URL is what becomes of the location: the location itself, or, where hosts
  -- are ignored and it has a scheme, a host and a path, the location with the issuer's URL, as a
  -- template where that has a dollar sign, in place of scheme and host.
  pub submit-IsAccepted :
      (url : Text)
      → (submit_certificate_request http o token csr_bytes ≡ ok url)
        ↔ IsAccepted http o token csr_bytes url
  unfolding submit_certificate_request submission
  submit-IsAccepted url = (
    (λ h.
        let (csr, p, h1) = >>=-ok (parse_csr http csr_bytes) _ url h in
        let (fields, f, h2) =
          >>=-ok (custom_fields http (variables o csr) o.issuer.custom_fields []) _ url h1 in
        let (content, m, h3) =
          >>=-ok (http.marshal (submission http o csr_bytes fields)) _ url h2 in
        let (_, c, h4) =
          >>=-ok (checked_request http (codes "POST") (o.issuer.url ++ api_url)) _ url h3 in
        let (resp, d, h5) = >>=-ok (http.do_request (posted content)) _ url h4 in
        let (status, located, made) = response_accepted resp url h5 in
        let csr_block = parse_csr-IsParsed http csr_bytes csr p in
        record {
          csr = csr;
          fields = fields;
          content = content;
          resp = resp;
          block = csr_block.block;
          rest = csr_block.rest;
          decoded = csr_block.decoded;
          is_request = csr_block.is_request;
          parsed = csr_block.parsed;
          filled = f;
          made = m;
          checked = ground arith;
          request = posted content;
          is_signed = api_request-IsSigned http o token _ _ _ _;
          answered = d;
          accepted = status;
          located = located;
          url_made = subst (IsOwnUrl o resp.location) made (own_url-IsOwnUrl o resp.location);
        }),
    (λ a.
        >>=-from _ _ a.csr _
          (IsParsed-parse_csr http csr_bytes a.csr (record {
            block = a.block;
            rest = a.rest;
            decoded = a.decoded;
            is_request = a.is_request;
            parsed = a.parsed;
          }))
          (>>=-from _ _ a.fields _ a.filled (
            >>=-from _ _ a.content _ a.made (
              >>=-from (checked_request http (codes "POST") (o.issuer.url ++ api_url)) _ tt _
                (rw (a.checked, checked_request) refl)
                (>>=-from _ _ a.resp _
                  (ap http.do_request
                      (sym (IsSigned-api_request http o token _ _ _ _ a.request a.is_signed))
                    ∙ a.answered)
                  (accepted_response a.resp url a.accepted a.located
                    (IsOwnUrl-own_url o a.resp.location url a.url_made))))))),
  )
