-- ===== src/PemChain/First.antt =====
-- pem_chain.go: the rounds of the loop, and the first root CA of a bundle.
use cert_manager_essendi_xc.Base.{
  ℕ, zero, suc, ◌<◌, List, [], ◌∷◌, ◌≡◌, inl, inr, refl, arith, some, none, Option, find, length,
  Option-cases, Bool-cases,
}
use mathlib.Core.Option as Opt
use cert_manager_essendi_xc.Base.Text.{Text}
use cert_manager_essendi_xc.PemChain.{Block, Pem, is_root_ca, scan, extract_ca_from_pem_bundle}

-- The PEM blocks of a text, up to the first point at which no block is found.
pub data Blocks (p : Pem) : Text → List Block → Type 0 where
  done : {s : Text} → p.decode s ≡ none → Blocks p s []
  more :
      {s : Text} {b : Block} {r : Text} {bs : List Block}
      → p.decode s ≡ some (b, r)
      → Blocks p r bs
      → Blocks p s (b ∷ bs)

module _ (p : Pem)
    (shrinks : (s : Text) (b : Block) (r : Text)
      → p.decode s ≡ some (b, r)
      → length r < length s) where
  -- The answer is the first block of a list that is a root CA.
  abbrev pub IsAnswer : Option Text → List Block → Type 0
  IsAnswer o bs = o ≡ Opt.map p.encode (find (is_root_ca p) bs)

  scan_found :
      (fuel : ℕ) (b : Block) (r : Text) (bs : List Block)
      → IsAnswer (scan p fuel (p.decode r)) bs
      → IsAnswer (scan p (suc fuel) (some (b, r))) (b ∷ bs)
  unfolding scan
  scan_found fuel b r bs h = elim (Bool-cases (is_root_ca p b)) [
    | inl root ↦ rw root refl
    | inr other ↦ rw (other, h) refl
  ]

  scan_first :
      (fuel : ℕ) (s : Text)
      → length s < fuel
      → (bs : List Block) × Blocks p s bs × IsAnswer (scan p fuel (p.decode s)) bs
  unfolding scan
  scan_first zero s h = absurd (omega arith)
  scan_first (suc fuel) s h = elim (Option-cases (p.decode s)) [
    | inl e ↦ ([], done e, rw e refl)
    | inr ((b, r), e) ↦
        let lt = shrinks s b r e in
        let (bs, blocks, answer) = scan_first fuel r (omega arith) in
        (b ∷ bs, more e blocks, rw e (scan_found fuel b r bs answer))
  ]

  -- Where each decoded block takes something of the text, the bundle has a list of blocks, and the
  -- result is the encoding of its first root CA; there is none exactly where no block is a root CA.
  pub extract_ca_first :
      (bundle : Text)
      → (bs : List Block) × Blocks p bundle bs × IsAnswer (extract_ca_from_pem_bundle p bundle) bs
  unfolding extract_ca_from_pem_bundle
  extract_ca_first bundle = scan_first (suc (length bundle)) bundle (omega arith)
