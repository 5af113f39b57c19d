-- ===== src/Signer/Panics.antt =====
-- signer.go: when the fetch of a certificate succeeds, and when it panics.
use cert_manager_essendi_xc.Base.{
  none, false, [], ◌≡◌, ◌≢◌, ◌↔◌, ◌⊎◌, inl, inr, refl, sym, ap, arith, ◌∙◌,
}
use cert_manager_essendi_xc.Base.Text.{Text, codes, is_empty}
use cert_manager_essendi_xc.Base.Errors.{
  Error, Outcome, ok, err, panic, ◌>>=◌, >>=-ok, >>=-panic, >>=-from, Outcome-cases,
}
use cert_manager_essendi_xc.Signer.Http.{Http, HttpRequest, Response, Json, null, str}
use cert_manager_essendi_xc.Signer.Essendi.{EssendiSigner, api_request, checked_request}
use cert_manager_essendi_xc.Signer.Fetch.{data_of, unchecked, fetched_response, fetch_certificate}

module _ (http : Http) (o : EssendiSigner) (token url : Text) where
  abbrev pub get : Text → HttpRequest
  get path = api_request http o token (codes "GET") url path []

  -- The API answered the signed GET by 200 with a JSON object whose `data` is `v`.
  pub record IsAnswered (v : Json) : Type 0 where
    pub path : Text
    pub resp : Response
    pub object : Text → Json
    pub parsed : http.url_path url ≡ ok path
    pub checked : http.new_request (codes "GET") url ≡ none
    pub answered : http.do_request (get path) ≡ ok resp
    pub fine : resp.status_code ≡ 200
    pub whole : resp.read_error ≡ none
    pub unmarshaled : http.unmarshal_object resp.body ≡ ok object
    pub data_found : object (codes "data") ≡ v

  data_panics : (v : Json) → ((s : Text) → v ≢ str s) → data_of http v ≡ panic
  data_panics null n = refl
  data_panics (str s) n = absurd (n s refl)
  data_panics (Json.other s) n = refl

  fetched_ok :
      (resp : Response) (certificate : Text)
      → fetched_response http resp ≡ ok certificate
      → (resp.status_code ≡ 200)
        × (resp.read_error ≡ none)
        × (is_empty certificate ≡ false)
        × ((object : Text → Json) × (http.unmarshal_object resp.body ≡ ok object)
            × (object (codes "data") ≡ str certificate))
  unfolding fetched_response
  fetched_ok resp certificate h = ground arith

  fetched_at :
      (resp : Response) (object : Text → Json) (s : Text)
      → resp.status_code ≡ 200
      → resp.read_error ≡ none
      → http.unmarshal_object resp.body ≡ ok object
      → object (codes "data") ≡ str s
      → is_empty s ≡ false
      → fetched_response http resp ≡ ok s
  unfolding fetched_response
  fetched_at resp object s a b c d e = ground arith

  fetched_panic :
      (resp : Response)
      → fetched_response http resp ≡ panic
      → ((body : Text) → http.unmarshal_object body ≢ panic)
      → (resp.status_code ≡ 200)
        × (resp.read_error ≡ none)
        × ((object : Text → Json) × (http.unmarshal_object resp.body ≡ ok object)
            × ((s : Text) → object (codes "data") ≢ str s))
  unfolding fetched_response
  fetched_panic resp h n = ground (arith, n resp.body)

  panic_at :
      (resp : Response) (object : Text → Json)
      → resp.status_code ≡ 200
      → resp.read_error ≡ none
      → http.unmarshal_object resp.body ≡ ok object
      → ((s : Text) → object (codes "data") ≢ str s)
      → fetched_response http resp ≡ panic
  unfolding fetched_response
  panic_at resp object a b c n =
      rw (a, b, fetched_response) (>>=-from _ _ object _ c (data_panics (object (codes "data")) n))

  unchecked-ok : (path : Outcome Text) (p : Text) → unchecked http path ≡ ok p → path ≡ ok p
  unchecked-ok path p h = ground arith

  unchecked-panic :
      (path : Outcome Text)
      → path ≢ panic
      → unchecked http path ≡ panic
      → (e : Error) × (path ≡ err e)
  unchecked-panic path n h = ground arith

  reach :
      (path : Text) (resp : Response) (x : Outcome Text)
      → http.url_path url ≡ ok path
      → http.new_request (codes "GET") url ≡ none
      → http.do_request (get path) ≡ ok resp
      → fetched_response http resp ≡ x
      → fetch_certificate http o token url ≡ x
  unfolding fetch_certificate
  reach path resp x p c d f = >>=-from (unchecked http (http.url_path url)) _ path _ (rw p refl) (
      >>=-from (checked_request http (codes "GET") url) _ tt _ (rw (c, checked_request) refl)
        (>>=-from _ _ resp _ d f))

  unparsed : (e : Error) → http.url_path url ≡ err e → fetch_certificate http o token url ≡ panic
  unfolding fetch_certificate
  unparsed e p =
      ap
        (λ (m : Outcome Text). unchecked http m >>= (λ urlpath.
          checked_request http (codes "GET") url
          >>= (λ _. http.do_request (get urlpath) >>= fetched_response http)))
        p

  -- A fetch yields a certificate exactly where the API answered with an object that has it, not
  -- empty, as a string.
  pub fetch-IsAnswered :
      (certificate : Text)
      → (fetch_certificate http o token url ≡ ok certificate)
        ↔ (IsAnswered (str certificate) × (is_empty certificate ≡ false))
  unfolding fetch_certificate
  fetch-IsAnswered certificate = (
    (λ h.
        let (path, p, h1) = >>=-ok (unchecked http (http.url_path url)) _ certificate h in
        let (_, c, h2) = >>=-ok (checked_request http (codes "GET") url) _ certificate h1 in
        let (resp, d, h3) = >>=-ok (http.do_request (get path)) _ certificate h2 in
        let (status, whole, full, good) = fetched_ok resp certificate h3 in
        let (object, u, f) = good in
        (
          record {
            path = path;
            resp = resp;
            object = object;
            parsed = unchecked-ok _ path p;
            checked = ground arith;
            answered = d;
            fine = status;
            whole = whole;
            unmarshaled = u;
            data_found = f;
          },
          full,
        )),
    (λ (a, full).
        reach a.path a.resp (ok certificate) a.parsed a.checked a.answered
          (fetched_at a.resp a.object certificate a.fine a.whole a.unmarshaled a.data_found full)),
  )

  -- With calls that do not panic themselves, the fetch panics exactly where the URL cannot be parsed,
  -- or where the API answered with an object that has no string as its data.
  pub fetch_panics :
      http.url_path url ≢ panic
      → ((r : HttpRequest) → http.do_request r ≢ panic)
      → ((body : Text) → http.unmarshal_object body ≢ panic)
      → (fetch_certificate http o token url ≡ panic) ↔ (
          ((e : Error) × (http.url_path url ≡ err e))
          ⊎ ((v : Json) × IsAnswered v × ((s : Text) → v ≢ str s)))
  unfolding fetch_certificate
  fetch_panics a b c = (
    (λ h. elim (Outcome-cases (http.url_path url)) [
      | inl (path, p) ↦
          let (_, k, h2) =
            >>=-panic (checked_request http (codes "GET") url) _ (rw p at h) (ground arith) in
          let (resp, d, h3) = >>=-panic (http.do_request (get path)) _ h2 (b _) in
          let (status, whole, bad) = fetched_panic resp h3 c in
          let (object, u, f) = bad in
          inr (
            object (codes "data"),
            record {
              path = path;
              resp = resp;
              object = object;
              parsed = p;
              checked = ground arith;
              answered = d;
              fine = status;
              whole = whole;
              unmarshaled = u;
              data_found = refl;
            },
            f,
          )
      | inr (inl bad) ↦ inl bad
      | inr (inr p) ↦ absurd (a p)
    ]),
    (λ h. elim h [
      | inl (e, p) ↦ unparsed e p
      | inr (v, k, n) ↦ reach k.path k.resp panic k.parsed k.checked k.answered (
          panic_at k.resp k.object k.fine k.whole k.unmarshaled (λ s e. n s (sym k.data_found ∙ e)))
    ]),
  )
