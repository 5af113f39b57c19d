-- ===== src/Signer/Keys.antt =====
-- signer.go: which secrets make a signer.
use cert_manager_essendi_xc.Base.{some, ◌≡◌, ◌↔◌, refl, sym, arith}
use cert_manager_essendi_xc.Base.Text.{Text, codes}
use cert_manager_essendi_xc.Base.Errors.{ok, >>=-from}
use cert_manager_essendi_xc.Api.{IssuerSpec}
use cert_manager_essendi_xc.Signer.{SecretData}
use cert_manager_essendi_xc.Signer.Essendi.{
  from_secret, EssendiSigner, signer_from_issuer_and_secret_data,
}

-- The signer holds the issuer, the realm and the four values of the secret.
pub record IsKeyed (issuer : IssuerSpec) (realm : Text) (secret : SecretData) (o : EssendiSigner)
    : Type 0 where
  pub client_id : secret (codes "client-id") ≡ some o.client_id
  pub client_secret : secret (codes "client-secret") ≡ some o.client_secret
  pub token : secret (codes "token") ≡ some o.token
  pub signature_key : secret (codes "signature-key") ≡ some o.signature_key
  pub issuer_kept : o.issuer ≡ issuer
  pub realm_kept : o.realm ≡ realm

from_secret-some :
    (secret : SecretData) (key value : Text)
    → secret key ≡ some value
    → from_secret secret key ≡ ok value
from_secret-some secret key value h = rw (h, from_secret) refl

-- A signer is built exactly from a secret that has the keys client-id, client-secret, token and
-- signature-key, and it holds their values, the issuer's spec and the realm.
pub signer_keys :
    (issuer : IssuerSpec) (realm : Text) (secret : SecretData) (o : EssendiSigner)
    → (signer_from_issuer_and_secret_data issuer realm secret ≡ ok o)
      ↔ IsKeyed issuer realm secret o
unfolding signer_from_issuer_and_secret_data
signer_keys issuer realm secret o = (
  (λ h. record {
    client_id = ground arith;
    client_secret = ground arith;
    token = ground arith;
    signature_key = ground arith;
    issuer_kept = ground arith;
    realm_kept = ground arith;
  }),
  (λ k. >>=-from _ _ o.client_id _ (from_secret-some secret _ _ k.client_id) (
      >>=-from _ _ o.client_secret _ (from_secret-some secret _ _ k.client_secret) (
        >>=-from _ _ o.token _ (from_secret-some secret _ _ k.token) (
          >>=-from _ _ o.signature_key _ (from_secret-some secret _ _ k.signature_key)
            λ i. ok (record o { issuer = sym k.issuer_kept i; realm = sym k.realm_kept i }))))),
)
