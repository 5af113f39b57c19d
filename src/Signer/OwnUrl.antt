-- ===== src/Signer/OwnUrl.antt =====
-- signer.go: the URL that the signer makes of a location that the API returns, in terms of the two
-- URLs' parts.
use cert_manager_essendi_xc.Base.{
  true, false, some, none, [], ◌∷◌, ◌++◌, ◌==◌, ◌≡◌, ◌⊎◌, inl, inr, refl, arith, length, ap, ◌∙◌,
  sym, Bool-cases, Option-cases, subst,
}
use cert_manager_essendi_xc.Base.Text.{Text, codes, has_prefix}
use cert_manager_essendi_xc.Signer.Essendi.{EssendiSigner, own_url}
use cert_manager_essendi_xc.Signer.Host.{after_slash, after_host, replace_host, replaced, drop}
use cert_manager_essendi_xc.Signer.Hosts.{IsHost, IsPlain, after_host_url, replace_host_lem}

-- The URL has the scheme http or https, a host and, behind the slash, the path.
pub record HasPath (url path : Text) : Type 0 where
  pub scheme : Text
  pub host : Text
  pub by_http : (scheme ≡ codes "http://") ⊎ (scheme ≡ codes "https://")
  pub is_host : IsHost host
  pub parts : url ≡ scheme ++ (host ++ b'/' ∷ path)

-- What becomes of a location: with the host of the API's answers ignored, the issuer's URL takes the
-- place of the scheme and the host of a URL that has them. A dollar sign in the issuer's URL makes it a
-- template.
pub data IsOwnUrl (o : EssendiSigner) : Text → Text → Type 0 where
  host_kept : (url : Text) → o.issuer.ignore_host_in_api_response ≡ false → IsOwnUrl o url url
  rehosted :
      (url path : Text)
      → o.issuer.ignore_host_in_api_response ≡ true
      → IsPlain o.issuer.url
      → HasPath url path
      → IsOwnUrl o url ((o.issuer.url ++ codes "/") ++ path)
  pathless :
      (url : Text)
      → o.issuer.ignore_host_in_api_response ≡ true
      → ((path : Text) → ¬ HasPath url path)
      → IsOwnUrl o url url
  templated :
      (url path : Text)
      → o.issuer.ignore_host_in_api_response ≡ true
      → ¬ IsPlain o.issuer.url
      → HasPath url path
      → IsOwnUrl o url (replace_host o.issuer.url url)

has_prefix-drop : (s p : Text) → has_prefix s p ≡ true → s ≡ p ++ drop (length p) s
unfolding has_prefix
has_prefix-drop s [] h = refl
has_prefix-drop [] (b ∷ p) h = ground arith
has_prefix-drop (a ∷ s) (b ∷ p) h = ground (arith, has_prefix-drop s p)

after_slash-parts :
    (s path : Text)
    → after_slash s ≡ some path
    → (host : Text) × IsHost host × (s ≡ host ++ b'/' ∷ path)
unfolding after_slash
after_slash-parts [] path h = absurd (ground arith)
after_slash-parts (c ∷ s) path h = elim (Bool-cases (c == b'/')) [
  | inl slash ↦ ([], tt, ground arith)
  | inr other ↦ elim (Bool-cases (c == 10)) [
    | inl line ↦ absurd (ground arith)
    | inr same ↦
        let (host, is_host, parts) = after_slash-parts s path (rw (other, same) at h) in
        (
          c ∷ host,
          ((λ e. absurd (ground arith)), (λ e. absurd (ground arith)), is_host),
          ap (λ (t : Text). c ∷ t) parts,
        )
  ]
]

schemed :
    (url scheme path : Text)
    → (scheme ≡ codes "http://") ⊎ (scheme ≡ codes "https://")
    → has_prefix url scheme ≡ true
    → after_slash (drop (length scheme) url) ≡ some path
    → HasPath url path
schemed url scheme path by_http h behind =
    let (host, is_host, parts) = after_slash-parts (drop (length scheme) url) path behind in
    record {
      scheme = scheme;
      host = host;
      by_http = by_http;
      is_host = is_host;
      parts = has_prefix-drop url scheme h ∙ ap (λ (t : Text). scheme ++ t) parts;
    }

after_host-HasPath : (url path : Text) → after_host url ≡ some path → HasPath url path
unfolding after_host codes
after_host-HasPath url path h = elim (Bool-cases (has_prefix url (codes "http://"))) [
  | inl p ↦ schemed url (codes "http://") path (inl refl) p (rw p at h)
  | inr n ↦ elim (Bool-cases (has_prefix url (codes "https://"))) [
    | inl p ↦ schemed url (codes "https://") path (inr refl) p (rw (n, p) at h)
    | inr m ↦ absurd (ground arith)
  ]
]

HasPath-after_host : (url path : Text) → HasPath url path → after_host url ≡ some path
HasPath-after_host url path p =
    ap after_host p.parts ∙ after_host_url p.scheme p.host path p.by_http p.is_host

HasPath-replace_host :
    (base url path : Text)
    → IsPlain base
    → HasPath url path
    → replace_host base url ≡ (base ++ codes "/") ++ path
HasPath-replace_host base url path plain p =
    ap (replace_host base) p.parts
    ∙ replace_host_lem base p.scheme p.host path p.by_http p.is_host plain

pathless-replace_host : (base url : Text) → after_host url ≡ none → replace_host base url ≡ url
unfolding replace_host
pathless-replace_host base url h = ap (replaced base url) h

IsPlain-cases : (s : Text) → IsPlain s ⊎ (¬ IsPlain s)
IsPlain-cases [] = inl tt
IsPlain-cases (c ∷ s) = elim (Bool-cases (c == b'$')) [
  | inl dollar ↦ inr (λ p. p.0 (ground arith))
  | inr other ↦ elim (IsPlain-cases s) [
    | inl p ↦ inl ((λ e. absurd (ground arith)), p)
    | inr n ↦ inr (λ p. n p.1)
  ]
]

module _ (o : EssendiSigner) where
  replaced-IsOwnUrl :
      (url : Text)
      → o.issuer.ignore_host_in_api_response ≡ true
      → IsOwnUrl o url (replace_host o.issuer.url url)
  replaced-IsOwnUrl url on = elim (Option-cases (after_host url)) [
    | inl n ↦
        subst (IsOwnUrl o url) (sym (pathless-replace_host o.issuer.url url n))
          (pathless url on (λ path p. absurd (ground (arith, HasPath-after_host url path p))))
    | inr (path, e) ↦
        let p = after_host-HasPath url path e in
        elim (IsPlain-cases o.issuer.url) [
          | inl plain ↦
              subst (IsOwnUrl o url) (sym (HasPath-replace_host o.issuer.url url path plain p))
                (rehosted url path on plain p)
          | inr template ↦ templated url path on template p
        ]
  ]

  own_url_on :
      (url : Text)
      → o.issuer.ignore_host_in_api_response ≡ true
      → own_url o url ≡ replace_host o.issuer.url url
  own_url_on url on = rw on refl

  own_url_off : (url : Text) → o.issuer.ignore_host_in_api_response ≡ false → own_url o url ≡ url
  own_url_off url off = rw off refl

  pub own_url-IsOwnUrl : (url : Text) → IsOwnUrl o url (own_url o url)
  own_url-IsOwnUrl url = elim (Bool-cases o.issuer.ignore_host_in_api_response) [
    | inl on ↦ subst (IsOwnUrl o url) (sym (own_url_on url on)) (replaced-IsOwnUrl url on)
    | inr off ↦ subst (IsOwnUrl o url) (sym (own_url_off url off)) (host_kept url off)
  ]

  pub IsOwnUrl-own_url : (location url : Text) → IsOwnUrl o location url → own_url o location ≡ url
  IsOwnUrl-own_url location url (host_kept u off) = own_url_off u off
  IsOwnUrl-own_url location url (rehosted u path on plain p) =
      own_url_on u on ∙ HasPath-replace_host o.issuer.url u path plain p
  IsOwnUrl-own_url location url (pathless u on n) = rw on (elim (Option-cases (after_host u)) [
    | inl e ↦ pathless-replace_host o.issuer.url u e
    | inr (path, e) ↦ absurd (n path (after_host-HasPath u path e))
  ])
  IsOwnUrl-own_url location url (templated u path on t p) = own_url_on u on
