-- ===== src/Request/Laws.antt =====
-- What replacing or adding a condition means for the conditions that a list holds.
use cert_manager_essendi_xc.Base.{◌≢◌, ◌⊎◌, inl, inr, List}
use cert_manager_essendi_xc.Request.{Condition, Any, Puts, added, replaced, kept}

module _ (P : Condition → Type 0) {c : Condition} where
  -- The new condition is in the list.
  pub Any-Puts_new : {cs cs' : List Condition} → Puts c cs cs' → P c → Any P cs'
  Any-Puts_new added p = inl p
  Any-Puts_new (replaced e) p = inl p
  Any-Puts_new (kept ne r) p = inr (Any-Puts_new r p)

  -- Every other condition was there before.
  pub Any-Puts_old : {cs cs' : List Condition} → Puts c cs cs' → Any P cs' → P c ⊎ Any P cs
  Any-Puts_old added (inl p) = inl p
  Any-Puts_old added (inr p) = absurd p
  Any-Puts_old (replaced e) (inl p) = inl p
  Any-Puts_old (replaced e) (inr p) = inr (inr p)
  Any-Puts_old (kept ne r) (inl p) = inr (inl p)
  Any-Puts_old (kept ne r) (inr p) = elim (Any-Puts_old r p) [ inl q ↦ inl q | inr q ↦ inr (inr q) ]

  -- A condition of another type stays.
  pub Any-Puts_keep :
      {cs cs' : List Condition}
      → Puts c cs cs'
      → ((d : Condition) → P d → d.type ≢ c.type)
      → Any P cs
      → Any P cs'
  Any-Puts_keep added other p = absurd p
  Any-Puts_keep (replaced {d} e) other (inl p) = absurd (other d p e)
  Any-Puts_keep (replaced e) other (inr p) = inr p
  Any-Puts_keep (kept ne r) other (inl p) = inl p
  Any-Puts_keep (kept ne r) other (inr p) = inr (Any-Puts_keep r other p)
