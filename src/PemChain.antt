-- ===== src/PemChain.antt =====
-- internal/controllers/pem_chain.go: the root CA of a PEM bundle.
pub mod First
mod Tests
use cert_manager_essendi_xc.Base.{
  ℕ, zero, suc, Bool, false, ◌&&◌, Option, none, some, length, if◌then◌else◌,
}
use cert_manager_essendi_xc.Base.Text.{Text, codes, text_eq}

-- A `pem.Block`; the headers are part of `header`.
pub record Block : Type 0 where
  pub type : Text
  pub header : Text
  pub bytes : Text

-- Packages encoding/pem and crypto/x509, over a type of certificates. `decode` is `pem.Decode`;
-- `parse_certificate` is `x509.ParseCertificate`, with `none` for an error; `self_signed c` is
-- `c.CheckSignatureFrom(c) == nil`; `encode` is `pem.EncodeToMemory`.
pub record Pem : Type 1 where
  pub Certificate : Type 0
  pub decode : Text → Option (Block × Text)
  pub parse_certificate : Text → Option Certificate
  pub is_ca : Certificate → Bool
  pub self_signed : Certificate → Bool
  pub encode : Block → Text

module _ (p : Pem) where
  abbrev is_root : Option p.Certificate → Bool
  is_root none = false
  is_root (some c) = p.is_ca c && p.self_signed c

  -- The test that a block passes to be returned: a certificate that parses, is a CA and is
  -- self-signed.
  unfoldable pub is_root_ca : Block → Bool
  is_root_ca b = text_eq b.type (codes "CERTIFICATE") && is_root (p.parse_certificate b.bytes)

  -- The loop: `fuel` bounds its rounds.
  unfoldable pub scan : ℕ → Option (Block × Text) → Option Text
  scan zero _ = none
  scan (suc fuel) none = none
  scan (suc fuel) (some (block, r)) =
      let more = scan fuel (p.decode r) in if is_root_ca block then some (p.encode block) else more

  -- `extractCAFromPEMBundle`. Each block takes at least one byte of the bundle.
  unfoldable pub extract_ca_from_pem_bundle : Text → Option Text
  unfolding scan
  extract_ca_from_pem_bundle bundle = scan (suc (length bundle)) (p.decode bundle)
