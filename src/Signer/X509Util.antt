-- ===== src/Signer/X509Util.antt =====
-- internal/issuer/signer/x509util.go, the parsers that nothing calls, and signer.go's error type. The
-- parser of requests is in Essendi.
use cert_manager_essendi_xc.Base.{
  [], ◌∷◌, Bool, true, false, Option, none, some, ◌≡◌, arith, if◌then◌else◌,
}
use cert_manager_essendi_xc.Base.Errors.{Outcome, ok}
use cert_manager_essendi_xc.Base.Text.{Text, codes, text_eq}
use cert_manager_essendi_xc.PemChain.{Block}
use cert_manager_essendi_xc.Signer.Essendi.{failure}

-- `EssendiXCIssuingError`
record IssuingError : Type 0 where
  definitive : Bool
  msg : Text

-- `Error` and `IsDefinitive`
abbrev shown : IssuingError → Text
shown e = e.msg

abbrev is_definitive : IssuingError → Bool
is_definitive e = e.definitive

-- `pem.Decode`, `x509.ParsePKCS1PrivateKey` and `x509.ParseCertificate` are parameters.
module _ {A : Type 0} (decode : Text → Option (Block × Text)) (parse : Text → Outcome A) where
  -- `parseKey`
  unfoldable parse_key : Text → Outcome A
  parse_key pem_bytes = elim (decode pem_bytes) [
    | none ↦ failure (codes "PEM block type must be RSA PRIVATE KEY")
    | some (block, _) ↦
        if text_eq block.type (codes "RSA PRIVATE KEY")
        then parse block.bytes
        else failure (codes "PEM block type must be RSA PRIVATE KEY")
  ]

  -- `parseCert`
  unfoldable parse_cert : Text → Outcome A
  parse_cert pem_bytes = elim (decode pem_bytes) [
    | none ↦ failure (codes "PEM block type must be CERTIFICATE")
    | some (block, _) ↦
        if text_eq block.type (codes "CERTIFICATE")
        then parse block.bytes
        else failure (codes "PEM block type must be CERTIFICATE")
  ]

one_type :
    (t : Text)
    → text_eq t (codes "CERTIFICATE") ≡ true
    → text_eq t (codes "RSA PRIVATE KEY") ≡ false
unfolding text_eq codes
one_type [] h = ground arith
one_type (c ∷ t) h = ground arith

-- A text that one of the two parsers accepts has one type of block, so that the other refuses it.
key-cert_apart :
    {A B : Type 0} (decode : Text → Option (Block × Text)) (key : Text → Outcome A)
    (cert : Text → Outcome B) (pem_bytes : Text) (x : A) (y : B)
    → parse_key decode key pem_bytes ≡ ok x
    → ¬ (parse_cert decode cert pem_bytes ≡ ok y)
unfolding parse_key parse_cert
key-cert_apart decode key cert pem_bytes x y h k = grind (arith, one_type)
