-- ===== src/Signer/Hosts.antt =====
-- signer.go: what the replacement of a URL's host yields.
use cert_manager_essendi_xc.Base.{
  ℕ, zero, suc, ◌≤◌, some, [], ◌∷◌, ◌++◌, ◌≡◌, ◌≢◌, refl, arith, length, ◌⊎◌, inl, inr, ap, ◌∙◌,
  ◌-◌,
}
use cert_manager_essendi_xc.Base.Text.{Text, codes, has_prefix}
use cert_manager_essendi_xc.Signer.Host.{
  after_slash, after_host, expand, replaced, replace_host, take,
}

-- No slash and no line break.
abbrev pub IsHost : Text → Type 0
IsHost [] = Unit
IsHost (c ∷ s) = (c ≢ b'/') × (c ≢ 10) × IsHost s

-- No dollar sign, which a template would read.
abbrev pub IsPlain : Text → Type 0
IsPlain [] = Unit
IsPlain (c ∷ s) = (c ≢ b'$') × IsPlain s

after_slash-host : (host path : Text) → IsHost host → after_slash (host ++ b'/' ∷ path) ≡ some path
unfolding after_slash
after_slash-host [] path h = refl
after_slash-host (c ∷ host) path h = ground (arith, after_slash-host host path)

expand-plain : (fuel : ℕ) (whole s : Text) → IsPlain s → length s ≤ fuel → expand fuel whole s ≡ s
unfolding expand
expand-plain zero whole s h e = refl
expand-plain (suc fuel) whole [] h e = refl
expand-plain (suc fuel) whole (c ∷ s) h e = ground (arith, expand-plain fuel whole s h.1)

IsPlain-slash : (base : Text) → IsPlain base → IsPlain (base ++ codes "/")
unfolding codes
IsPlain-slash [] h = ground arith
IsPlain-slash (c ∷ base) h = (h.0, IsPlain-slash base h.1)

pub after_host_url :
    (scheme host path : Text)
    → (scheme ≡ codes "http://") ⊎ (scheme ≡ codes "https://")
    → IsHost host
    → after_host (scheme ++ (host ++ b'/' ∷ path)) ≡ some path
unfolding after_host codes has_prefix
after_host_url scheme host path (inl e) h = rw e (after_slash-host host path h)
after_host_url scheme host path (inr e) h = rw e (after_slash-host host path h)

module _ (base : Text) (plain : IsPlain base) where
  expand-base :
      (whole : Text)
      → expand (suc (length (base ++ codes "/"))) whole (base ++ codes "/") ≡ base ++ codes "/"
  expand-base whole =
      expand-plain (suc (length (base ++ codes "/"))) whole (base ++ codes "/")
        (IsPlain-slash base plain) (omega arith)

  replaced_plain : (url r : Text) → replaced base url (some r) ≡ (base ++ codes "/") ++ r
  replaced_plain url r = ap (λ (x : Text). x ++ r) (expand-base (take (length url - length r) url))

-- A URL with the scheme http or https keeps its path, and its scheme and host give way to the base,
-- provided that no dollar sign is in the base.
pub replace_host_lem :
    (base scheme host path : Text)
    → (scheme ≡ codes "http://") ⊎ (scheme ≡ codes "https://")
    → IsHost host
    → IsPlain base
    → replace_host base (scheme ++ (host ++ b'/' ∷ path)) ≡ (base ++ codes "/") ++ path
unfolding replace_host
replace_host_lem base scheme host path s h plain =
    ap (replaced base (scheme ++ (host ++ b'/' ∷ path))) (after_host_url scheme host path s h)
    ∙ replaced_plain base plain (scheme ++ (host ++ b'/' ∷ path)) path
