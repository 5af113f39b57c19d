-- ===== src/Base/Text/Laws.antt =====
-- Comparison, prefixes, splitting and trimming of texts.
use Prim.Native.Nat.{ℕ}
use mathlib.Core.Path.{◌≡◌, refl}
use mathlib.Core.Logic.{◌↔◌, ◌≢◌}
use mathlib.Core.Bool.{true, false}
use mathlib.Core.List.{[], ◌∷◌, ◌++◌}
use native.Mathlib.Omega.{arith}
use cert_manager_essendi_xc.Base.Text.{Text, text_eq, has_prefix}

pub text_eq_refl : (s : Text) → text_eq s s ≡ true
unfolding text_eq
text_eq_refl [] = refl
text_eq_refl (a ∷ s) = ground (arith, text_eq_refl s)

pub text_eq_iff : (s t : Text) → (text_eq s t ≡ true) ↔ (s ≡ t)
unfolding text_eq
text_eq_iff [] [] = ground arith
text_eq_iff [] (b ∷ t) = ground arith
text_eq_iff (a ∷ s) [] = ground arith
text_eq_iff (a ∷ s) (b ∷ t) = ground (arith, text_eq_iff s t)

-- A text begins with each text that it was put behind.
pub has_prefix-append : (p s : Text) → has_prefix (p ++ s) p ≡ true
unfolding has_prefix
has_prefix-append [] s = refl
has_prefix-append (a ∷ p) s = ground (arith, has_prefix-append p s)

-- Two texts that part after a common beginning are not both the beginning of a third.
pub has_prefix_clash :
    (s p : Text) (a : ℕ) (t : Text) (b : ℕ) (u : Text)
    → a ≢ b
    → has_prefix s (p ++ a ∷ t) ≡ true
    → has_prefix s (p ++ b ∷ u) ≡ false
unfolding has_prefix
has_prefix_clash [] [] a t b u ne h = refl
has_prefix_clash [] (c ∷ p) a t b u ne h = refl
has_prefix_clash (d ∷ s) [] a t b u ne h = ground arith
has_prefix_clash (d ∷ s) (c ∷ p) a t b u ne h = ground (arith, has_prefix_clash s p a t b u ne)
