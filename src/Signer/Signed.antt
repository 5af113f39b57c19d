-- ===== src/Signer/Signed.antt =====
-- signer.go: a request with the headers of the API and the signature of its content.
use cert_manager_essendi_xc.Base.{◌++◌, ◌≡◌, refl}
use cert_manager_essendi_xc.Base.Text.{Text, codes, decimal}
use cert_manager_essendi_xc.Signer.Http.{Http, HttpRequest}
use cert_manager_essendi_xc.Signer.Essendi.{
  EssendiSigner, api_request, sign_essendi_api_request, signed_text,
}

-- The request goes to `url`, bears the token, the time of day and the content, and its signature is
-- the code, under the signature key, of the text of the client, the method, the type of the content,
-- the time, the path and the content.
pub record IsSigned (http : Http) (o : EssendiSigner) (token method url urlpath content : Text)
    (q : HttpRequest) : Type 0 where
  pub with_method : q.method ≡ method
  pub to_url : q.url ≡ url
  pub of_type : q.content_type ≡ codes "application/json"
  pub by_token : q.authorization ≡ codes "Bearer " ++ token
  pub at_time : q.x_timestamp ≡ decimal http.now
  pub signed :
      q.x_signature
      ≡ http.mac o.signature_key (
          o.client_id
          ++ (codes "\n"
              ++ (method
                  ++ (codes "\napplication/json\n"
                      ++ (decimal http.now
                          ++ (codes "\n"
                              ++ (urlpath ++ (codes "\n--\n" ++ (content ++ codes "\n--")))))))))
  pub with_content : q.body ≡ content

module _ (http : Http) (o : EssendiSigner) (token method url urlpath content : Text) where
  pub api_request-IsSigned :
      IsSigned http o token method url urlpath content
        (api_request http o token method url urlpath content)
  unfolding sign_essendi_api_request signed_text codes
  api_request-IsSigned = record {
    with_method = refl;
    to_url = refl;
    of_type = refl;
    by_token = refl;
    at_time = refl;
    signed = refl;
    with_content = refl;
  }

  pub IsSigned-api_request :
      (q : HttpRequest)
      → IsSigned http o token method url urlpath content q
      → q ≡ api_request http o token method url urlpath content
  unfolding sign_essendi_api_request signed_text codes
  IsSigned-api_request q s = λ i. record {
    method = s.with_method i;
    url = s.to_url i;
    content_type = s.of_type i;
    authorization = s.by_token i;
    x_timestamp = s.at_time i;
    x_signature = s.signed i;
    body = s.with_content i;
  }
