-- ===== src/Signer/Payload.antt =====
-- signer.go: the text that a request's signature covers.
use cert_manager_essendi_xc.Base.{ℕ, ◌≡◌, arith, [], ◌∷◌, ◌++◌}
use cert_manager_essendi_xc.Base.Text.{Text, codes, decimal}
use cert_manager_essendi_xc.Base.Text.Decimal.{NoNewline, decimal-NoNewline, decimal_injective}
use cert_manager_essendi_xc.Signer.Essendi.{signed_text}
use mathlib.Core.List.{append_cancel_right}

-- Two texts that are cut at their first newline have the same parts.
line_split :
    (x y s t : Text) → NoNewline x → NoNewline y → x ++ 10 ∷ s ≡ y ++ 10 ∷ t → (x ≡ y) × (s ≡ t)
line_split [] [] s t hx hy e = ground arith
line_split [] (b ∷ y) s t hx hy e = ground arith
line_split (a ∷ x) [] s t hx hy e = ground arith
line_split (a ∷ x) (b ∷ y) s t hx hy e = ground (arith, line_split x y s t)

NoNewline-dashes : NoNewline (45 ∷ 45 ∷ [])
NoNewline-dashes = ground arith

-- Two requests with the same signed text agree in client, method, content type, timestamp, path and
-- content, provided that none of the first three and no path has a line break in it.
pub signed_text_injective :
    (client client' method method' kind kind' : Text) (time time' : ℕ)
    (path path' content content' : Text)
    → NoNewline client
    → NoNewline client'
    → NoNewline method
    → NoNewline method'
    → NoNewline kind
    → NoNewline kind'
    → NoNewline path
    → NoNewline path'
    → signed_text client method kind time path content
      ≡ signed_text client' method' kind' time' path' content'
    → (client ≡ client')
      × (method ≡ method')
      × (kind ≡ kind')
      × (time ≡ time')
      × (path ≡ path')
      × (content ≡ content')
unfolding signed_text codes
signed_text_injective client client' method method' kind kind' time time' path path' content
      content' c c' m m' k k' p p' e =
    let (e1, r1) = line_split client client' _ _ c c' e in
    let (e2, r2) = line_split method method' _ _ m m' r1 in
    let (e3, r3) = line_split kind kind' _ _ k k' r2 in
    let (e4, r4) =
      line_split (decimal time) (decimal time') _ _ (decimal-NoNewline time)
        (decimal-NoNewline time') r3 in
    let (e5, r5) = line_split path path' _ _ p p' r4 in
    let (_, r6) =
      line_split (45 ∷ 45 ∷ []) (45 ∷ 45 ∷ []) _ _ NoNewline-dashes NoNewline-dashes r5 in
    (
      e1,
      e2,
      e3,
      decimal_injective time time' e4,
      e5,
      append_cancel_right content content' (codes "\n--") r6,
    )
