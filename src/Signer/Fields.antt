-- ===== src/Signer/Fields.antt =====
-- signer.go: the custom fields of a submission.
use cert_manager_essendi_xc.Base.{
  true, false, Option, some, none, List, [], ◌∷◌, ◌++◌, ◌≡◌, refl, arith, inl, inr, All, Bool-cases,
  if◌then◌else◌, ◌∙◌,
}
use cert_manager_essendi_xc.Base.Text.{Text, text_eq}
use cert_manager_essendi_xc.Base.Text.Laws.{text_eq_refl, text_eq_iff}
use cert_manager_essendi_xc.Base.Errors.{ok, >>=-ok}
use cert_manager_essendi_xc.Api.{IssuerCustomField}
use cert_manager_essendi_xc.Signer.Http.{Http, Variables}
use cert_manager_essendi_xc.Signer.Submit.{insert, custom_fields}

-- The value of a name in a map.
abbrev pub lookup : Text → List (Text × Text) → Option Text
lookup name [] = none
lookup name ((n, v) ∷ m) = if text_eq n name then some v else lookup name m

lookup-insert :
    (name value : Text) (m : List (Text × Text)) → lookup name (insert name value m) ≡ some value
unfolding insert
lookup-insert name value [] = rw (text_eq_refl name) refl
lookup-insert name value ((n, v) ∷ m) = elim (Bool-cases (text_eq n name)) [
  | inl same ↦ rw same (rw same refl)
  | inr other ↦ rw other (rw other (lookup-insert name value m))
]

other_name :
    (name n other : Text)
    → text_eq n other ≡ true
    → text_eq other name ≡ false
    → text_eq n name ≡ false
other_name name n other a b = rw ((text_eq_iff n other).0 a) b

lookup-insert_other :
    (name other value : Text) (m : List (Text × Text))
    → text_eq other name ≡ false
    → lookup name (insert other value m) ≡ lookup name m
unfolding insert
lookup-insert_other name other value [] h = rw h refl
lookup-insert_other name other value ((n, v) ∷ m) h = elim (Bool-cases (text_eq n other)) [
  | inl same ↦ rw same (rw (other_name name n other same h) refl)
  | inr different ↦ rw different (elim (Bool-cases (text_eq n name)) [
    | inl this ↦ rw this refl
    | inr that ↦ rw that (lookup-insert_other name other value m h)
  ])
]

module _ (http : Http) (vars : Variables) where
  -- None of the fields has the name.
  abbrev pub IsAbsent : Text → List IssuerCustomField → Type 0
  IsAbsent name = All (λ field. text_eq field.name name ≡ false)

  lookup_kept :
      (name : Text) (fields : List IssuerCustomField) (m out : List (Text × Text))
      → custom_fields http vars fields m ≡ ok out
      → IsAbsent name fields
      → lookup name out ≡ lookup name m
  unfolding custom_fields
  lookup_kept name [] m out h a = ground arith
  lookup_kept name (field ∷ fields) m out h a =
      let (value, _, rest) = >>=-ok (http.execute field.value vars) _ out h in
      lookup_kept name fields (insert field.name value m) out rest a.1
      ∙ lookup-insert_other name field.name value m a.0

  -- Where the fields of a submission are filled in, each field whose name no later field has stands in
  -- the result with the text of its template.
  pub lookup-custom_fields :
      (front back : List IssuerCustomField) (field : IssuerCustomField) (m out : List (Text × Text))
      → custom_fields http vars (front ++ field ∷ back) m ≡ ok out
      → IsAbsent field.name back
      → (value : Text) × (http.execute field.value vars ≡ ok value)
        × (lookup field.name out ≡ some value)
  unfolding custom_fields
  lookup-custom_fields [] back field m out h a =
      let (value, made, rest) = >>=-ok (http.execute field.value vars) _ out h in
      (
        value,
        made,
        lookup_kept field.name back (insert field.name value m) out rest a
            ∙ lookup-insert field.name value m,
      )
  lookup-custom_fields (first ∷ front) back field m out h a =
      let (value, _, rest) = >>=-ok (http.execute first.value vars) _ out h in
      lookup-custom_fields front back field (insert first.name value m) out rest a
