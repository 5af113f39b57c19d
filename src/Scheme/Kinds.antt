-- ===== src/Scheme/Kinds.antt =====
-- Which kinds of issuer the program's scheme lets through to the controllers.
use cert_manager_essendi_xc.Base.{
  true, none, ◌∷◌, [], ◌≡◌, ◌⊎◌, inl, inr, refl, sym, ap, ◌∙◌, arith,
}
use cert_manager_essendi_xc.Base.Text.{Text, codes}
use cert_manager_essendi_xc.Base.Errors.{Outcome, ok, err, panic, >>=-ok}
use cert_manager_essendi_xc.Api.{Issuer, ClusterIssuer}
use cert_manager_essendi_xc.IssuerUtil.{is_ready}
use cert_manager_essendi_xc.Request.{CertificateRequest, CmUtil, Any}
use cert_manager_essendi_xc.RequestController.{reconcile_found}
use cert_manager_essendi_xc.RequestController.Kinds.{no_object_panics}
use cert_manager_essendi_xc.RequestController.Open.{IsOpen}
use cert_manager_essendi_xc.RequestController.Referenced.{
  issuer_name, cluster_issuer_name, contact-SawReady,
}
use cert_manager_essendi_xc.RequestController.Safety.{IsContact}
use cert_manager_essendi_xc.RequestController.Steps.{
  Kind, RuntimeObject, client_object, issuer_list, cluster_issuer_list, machinery, Reconciler, Env,
  panicked, updated,
}
use cert_manager_essendi_xc.Scheme.{scheme_builder, Library, must, init, new_of, Adds, IsLibrary}

must-ok : {A : Type 0} (m : Outcome A) (x : A) → must m ≡ ok x → m ≡ ok x
must-ok (ok y) x h = h
must-ok (err e) x h = ground arith
must-ok panic x h = ground arith

abbrev kind_of : RuntimeObject → Kind
kind_of (client_object k) = k
kind_of _ = Kind.issuer

-- The kind of a request's issuer, and the Go type that stands for it.
abbrev pub IsServed : Text → Kind → Type 0
IsServed kind k =
    ((kind ≡ codes "Issuer") × (k ≡ Kind.issuer))
    ⊎ ((kind ≡ codes "ClusterIssuer") × (k ≡ Kind.cluster_issuer))

module _ {Scheme : Type 0} (lib : Library Scheme) (h : IsLibrary lib) (s : Scheme)
    (started : init lib ≡ ok s) where
  -- Before the program's types were added, the scheme made objects of the API machinery at most.
  abbrev OnlyMachinery : Scheme → Type 0
  OnlyMachinery b =
      (kind : Text) (made : RuntimeObject)
      → new_of lib b kind ≡ ok made
      → (name : Text) × (made ≡ machinery name)

  none_added : (b b' : Scheme) → Adds lib [] b b' → OnlyMachinery b → OnlyMachinery b'
  none_added b b' adds old kind made e = elim (adds.rest kind made e) [
    | inl never ↦ absurd never
    | inr (inl here) ↦ here
    | inr (inr before) ↦ old kind made before
  ]

  init-Adds : (b : Scheme) × OnlyMachinery b × Adds lib scheme_builder b s
  unfolding init
  init-Adds =
      let (a, first, then_b) = >>=-ok (must (lib.client_go lib.new_scheme)) _ s started in
      let (b, second, last) = >>=-ok (must (lib.cert_manager a)) _ s then_b in
      (
        b,
        none_added a b (h.cert_manager a b (must-ok _ b second)) (
            none_added lib.new_scheme a (h.client_go _ a (must-ok _ a first))
              (λ kind made e. absurd (h.nothing kind made e))),
        h.add_to_scheme b s (must-ok _ s last),
      )

  -- The scheme of the program makes an Issuer and a ClusterIssuer by their names, and a list of
  -- either by its name; it makes a `client.Object` for no other kind of the program's group.
  pub program_kinds :
      (new_of lib s (codes "Issuer") ≡ ok (client_object Kind.issuer))
      × (new_of lib s (codes "ClusterIssuer") ≡ ok (client_object Kind.cluster_issuer))
      × (new_of lib s (codes "IssuerList") ≡ ok issuer_list)
      × (new_of lib s (codes "ClusterIssuerList") ≡ ok cluster_issuer_list)
      × ((kind : Text) (k : Kind) → new_of lib s kind ≡ ok (client_object k) → IsServed kind k)
  program_kinds =
      let (b, old, adds) = init-Adds in
      let (cluster, (cluster_list, (one, (list, _)))) = adds.known in
      (
        one,
        cluster,
        list,
        cluster_list,
        λ kind k e. elim (adds.rest kind (client_object k) e) [
          | inl (inl (made, name)) ↦ inr (sym name, sym (ap kind_of made))
          | inl (inr (inl (made, name))) ↦ absurd (ground arith)
          | inl (inr (inr (inl (made, name)))) ↦ inl (sym name, sym (ap kind_of made))
          | inl (inr (inr (inr (inl (made, name))))) ↦ absurd (ground arith)
          | inl (inr (inr (inr (inr never)))) ↦ absurd never
          | inr (inl (name, made)) ↦ absurd (ground arith)
          | inr (inr before) ↦ let (name, made) = old kind _ before in absurd (ground arith)
        ],
      )

  module _ (cm : CmUtil) (rc : Reconciler) (env : Env) (cr : CertificateRequest)
      (same : env.scheme_new ≡ new_of lib s) where
    made_by : (kind : Text) → env.scheme_new kind ≡ new_of lib s kind
    made_by kind = ap (λ (f : Text → Outcome RuntimeObject). f kind) same

    served :
        (k : Kind)
        → env.scheme_new cr.spec.issuer_ref.kind ≡ ok (client_object k)
        → IsServed cr.spec.issuer_ref.kind k
    served k e = program_kinds.4 cr.spec.issuer_ref.kind k (sym (made_by _) ∙ e)

    -- With the scheme of the program, a run turns to the CA only for a request whose kind is `Issuer`
    -- or `ClusterIssuer`, and which refers to an object of this kind that the run was given and that
    -- is ready.
    pub contact_kind :
        Any IsContact (reconcile_found cm rc env cr).1.actions
        → ((cr.spec.issuer_ref.kind ≡ codes "Issuer")
            × (i : Issuer) × (env.get_issuer (issuer_name cm rc env cr) ≡ ok i)
            × (is_ready i.status ≡ true))
          ⊎ ((cr.spec.issuer_ref.kind ≡ codes "ClusterIssuer")
              × (i : ClusterIssuer) × (env.get_cluster_issuer (cluster_issuer_name cm rc env cr)
                  ≡ ok i)
              × (is_ready i.status ≡ true))
    contact_kind asked = elim (contact-SawReady cm rc env cr asked) [
      | inl (i, e, given, up) ↦ elim (served Kind.issuer e) [
        | inl (name, _) ↦ inl (name, i, given, up)
        | inr (_, never) ↦ absurd (ground arith)
      ]
      | inr (i, e, given, up) ↦ elim (served Kind.cluster_issuer e) [
        | inl (_, never) ↦ absurd (ground arith)
        | inr (name, _) ↦ inr (name, i, given, up)
      ]
    ]

    -- The run of an open request whose kind names a list of issuers panics, since a list is no
    -- `client.Object`; the request stays as it was.
    pub list_kind_panics :
        IsOpen cm rc cr
        → ((c : CertificateRequest) → env.update c ≡ none)
        → (cr.spec.issuer_ref.kind ≡ codes "IssuerList")
          ⊎ (cr.spec.issuer_ref.kind ≡ codes "ClusterIssuerList")
        → let (e, r) = reconcile_found cm rc env cr in
          (e ≡ panicked) × (r.stored ≡ cr) × (r.actions ≡ updated cr ∷ [])
    list_kind_panics o updates (inl e) =
        no_object_panics cm rc env cr o updates issuer_list
          (made_by _ ∙ ap (new_of lib s) e ∙ program_kinds.2) refl
    list_kind_panics o updates (inr e) =
        no_object_panics cm rc env cr o updates cluster_issuer_list
          (made_by _ ∙ ap (new_of lib s) e ∙ program_kinds.3) refl
