-- ===== src/PemChain/Tests.antt =====
-- A bundle of one-character blocks, of which `r` is a root CA.
use cert_manager_essendi_xc.Base.{
  ◌<◌, ◌≡◌, refl, arith, true, Option, none, some, List, [], ◌∷◌, length, find,
}
use mathlib.Core.Option as Opt
use cert_manager_essendi_xc.Base.Text.{Text, codes, text_eq}
use cert_manager_essendi_xc.PemChain.{Block, Pem, is_root_ca, extract_ca_from_pem_bundle}
use cert_manager_essendi_xc.PemChain.First.{Blocks, extract_ca_first}

abbrev split : Text → Option (Block × Text)
split [] = none
split (c ∷ s) = some (record { type = codes "CERTIFICATE"; header = []; bytes = c ∷ [] }, s)

abbrev pem : Pem
pem = record {
  Certificate = Text;
  decode = split;
  parse_certificate = λ s. some s;
  is_ca = λ s. true;
  self_signed = λ s. text_eq s (codes "r");
  encode = λ b. b.bytes;
}

split-shrinks : (s : Text) (b : Block) (r : Text) → split s ≡ some (b, r) → length r < length s
split-shrinks [] b r e = ground arith
split-shrinks (c ∷ s) b r e = ground arith

root_found : extract_ca_from_pem_bundle pem (codes "abrc") ≡ some (codes "r")
unfolding extract_ca_from_pem_bundle is_root_ca text_eq codes
root_found = refl

extract_ca_first_example :
    (bs : List Block) × Blocks pem (codes "abrc") bs
    × (extract_ca_from_pem_bundle pem (codes "abrc")
        ≡ Opt.map pem.encode (find (is_root_ca pem) bs))
extract_ca_first_example = extract_ca_first pem split-shrinks (codes "abrc")
