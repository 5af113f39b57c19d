-- ===== src/Scheme/Tests.antt =====
-- The program's scheme over a small library, where a scheme is a list of registered objects.
use cert_manager_essendi_xc.Base.{
  true, none, some, List, [], ◌∷◌, ◌++◌, find, ◌≡◌, ◌⊎◌, inl, inr, refl, arith, Option, Bool-cases,
  ap, subst,
}
use cert_manager_essendi_xc.Base.Text.{
  Text, codes, text_eq, contains, trim_space, has_prefix, after_colon,
}
use cert_manager_essendi_xc.Base.Text.Laws.{text_eq_iff}
use cert_manager_essendi_xc.Base.Errors.{Outcome, ok, err, panic}
use cert_manager_essendi_xc.Api.{Issuer, ClusterIssuer}
use cert_manager_essendi_xc.Request
use cert_manager_essendi_xc.Request.{Any, CertificateRequest, HasReason, ready, is_false}
use cert_manager_essendi_xc.Request.Sample.{cm_util}
use cert_manager_essendi_xc.RequestController.{
  reconcile_found, body, deny, initialise, sign, route, submit, poll, await, fetch, deferred,
  is_ignored, open_signer, message_url,
}
use cert_manager_essendi_xc.RequestController.Deferred.{after_all, empty}
use cert_manager_essendi_xc.RequestController.Kinds.{unrecognised, unknown_kind_fails}
use cert_manager_essendi_xc.RequestController.Open.{IsOpen}
use cert_manager_essendi_xc.RequestController.Referenced.{issuer_name, cluster_issuer_name}
use cert_manager_essendi_xc.RequestController.Safety.{IsContact}
use cert_manager_essendi_xc.RequestController.Sample.{world, signing, reconciler, fresh}
use cert_manager_essendi_xc.IssuerUtil.{
  get_spec_and_status, get_ready_condition, is_ready, says_submitted, says_signed,
  get_submitted_condition, get_signed_condition, is_submitted, is_signed,
}
use cert_manager_essendi_xc.Signer.Essendi.{
  signer_from_issuer_and_secret_data, get_refresh_token, parse_csr,
}
use cert_manager_essendi_xc.Signer.Submit.{
  submit_certificate_request, custom_fields, submission, submitted_response,
}
use cert_manager_essendi_xc.Signer.Task.{request_task_status, task_response}
use cert_manager_essendi_xc.Signer.Fetch.{fetch_certificate, fetched_response}
use cert_manager_essendi_xc.Signer.Client.{signer}
use cert_manager_essendi_xc.RequestController.Steps.{
  Env, report, event, warning, updated, returned, panicked, Kind, RuntimeObject, client_object,
  issuer_list, cluster_issuer_list,
}
use cert_manager_essendi_xc.Scheme.{
  scheme_builder, kind_name, Library, init, new_of, Adds, IsLibrary,
}
use cert_manager_essendi_xc.Scheme.Kinds.{IsServed, program_kinds, contact_kind, list_kind_panics}

abbrev to_outcome : Option RuntimeObject → Outcome RuntimeObject
to_outcome none = err (record { text = codes "no kind is registered" })
to_outcome (some o) = ok o

-- Objects are stored with the newest first; the group and the version are those of the program.
abbrev library : Library (List RuntimeObject)
library = record {
  new_scheme = [];
  client_go = λ s. ok s;
  cert_manager = λ s. ok s;
  add_to_scheme = λ gv objects s. ok (objects ++ s);
  new = λ s gv kind. to_outcome (find (λ o. text_eq (kind_name o) kind) s);
}

found_in :
    (kind : Text) (made : RuntimeObject) (objects s : List RuntimeObject)
    → to_outcome (find (λ o. text_eq (kind_name o) kind) (objects ++ s)) ≡ ok made
    → Any (λ o. (o ≡ made) × (kind_name o ≡ kind)) objects
      ⊎ (to_outcome (find (λ o. text_eq (kind_name o) kind) s) ≡ ok made)
found_in kind made [] s h = inr h
found_in kind made (o ∷ objects) s h = elim (Bool-cases (text_eq (kind_name o) kind)) [
  | inl here ↦
      let same : ok o ≡ ok made = rw here at h in
      inl (inl (made_same same, (text_eq_iff (kind_name o) kind).0 here))
  | inr other ↦ elim (found_in kind made objects s (rw other at h)) [
    | inl later ↦ inl (inr later)
    | inr behind ↦ inr behind
  ]
]
  where
    made_same : ok o ≡ ok made → o ≡ made
    made_same e = ap (λ (x : Outcome RuntimeObject). elim x [ ok y ↦ y | err _ ↦ o | panic ↦ o ]) e

scheme_same : {a b : List RuntimeObject} → ok a ≡ ok b → a ≡ b
scheme_same {a} e =
    ap (λ (x : Outcome (List RuntimeObject)). elim x [ ok y ↦ y | err _ ↦ a | panic ↦ a ]) e

registered :
    (s s' : List RuntimeObject)
    → ok (scheme_builder ++ s) ≡ ok s'
    → Adds library scheme_builder s s'
unfolding text_eq codes
registered s s' e = subst (Adds library scheme_builder s) (scheme_same e) (record {
  known = (refl, (refl, (refl, (refl, tt))));
  rest = λ kind made h. elim (found_in kind made scheme_builder s h) [
    | inl new ↦ inl new
    | inr old ↦ inr (inr old)
  ];
})

unchanged : (s s' : List RuntimeObject) → ok s ≡ ok s' → Adds library [] s s'
unchanged s s' e =
    subst (Adds library [] s) (scheme_same e)
      (record { known = tt; rest = λ kind made h. inr (inr h) })

library_lem : IsLibrary library
library_lem = record {
  nothing = λ kind made e. absurd (ground arith);
  client_go = unchanged;
  cert_manager = unchanged;
  add_to_scheme = registered;
}

program_scheme : init library ≡ ok scheme_builder
unfolding init
program_scheme = refl

program_kinds_example :
    (new_of library scheme_builder (codes "Issuer") ≡ ok (client_object Kind.issuer))
    × (new_of library scheme_builder (codes "ClusterIssuer")
        ≡ ok (client_object Kind.cluster_issuer))
    × (new_of library scheme_builder (codes "IssuerList") ≡ ok issuer_list)
    × (new_of library scheme_builder (codes "ClusterIssuerList") ≡ ok cluster_issuer_list)
    × ((kind : Text) (k : Kind)
        → new_of library scheme_builder kind ≡ ok (client_object k)
        → IsServed kind k)
program_kinds_example = program_kinds library library_lem scheme_builder program_scheme

-- The world of the controllers' tests with the program's scheme, and a request for a list.
abbrev scheme_world : Env
scheme_world = record (world signing) { scheme_new = new_of library scheme_builder }

abbrev listed : CertificateRequest
listed = record fresh {
  spec = record fresh.spec {
    issuer_ref = record fresh.spec.issuer_ref { kind = codes "IssuerList" };
  };
}

listed-IsOpen : IsOpen cm_util reconciler listed
unfolding is_ignored text_eq codes
listed-IsOpen = record { kept = refl; allowed = refl; seen = λ e. ground arith }

list_kind_panics_example :
    let (e, r) = reconcile_found cm_util reconciler scheme_world listed in
    (e ≡ panicked) × (r.stored ≡ listed) × (r.actions ≡ updated listed ∷ [])
list_kind_panics_example =
    list_kind_panics library library_lem scheme_builder program_scheme cm_util reconciler
      scheme_world listed refl listed-IsOpen (λ c. refl) (inl refl)

asked_there : Any IsContact (reconcile_found cm_util reconciler scheme_world fresh).1.actions
unfolding reconcile_found body deny initialise sign open_signer route submit poll await fetch
    deferred report is_ignored signer get_refresh_token submit_certificate_request parse_csr
    custom_fields submission submitted_response request_task_status task_response fetch_certificate
    fetched_response get_spec_and_status is_ready get_ready_condition
    signer_from_issuer_and_secret_data is_signed get_signed_condition says_signed is_submitted
    get_submitted_condition says_submitted message_url has_prefix after_colon trim_space contains
    text_eq codes
asked_there = inl tt

contact_kind_example :
    ((fresh.spec.issuer_ref.kind ≡ codes "Issuer")
      × (i : Issuer) × (scheme_world.get_issuer (issuer_name cm_util reconciler scheme_world fresh)
          ≡ ok i)
      × (is_ready i.status ≡ true))
    ⊎ ((fresh.spec.issuer_ref.kind ≡ codes "ClusterIssuer")
        × (i : ClusterIssuer) × (scheme_world.get_cluster_issuer
              (cluster_issuer_name cm_util reconciler scheme_world fresh)
            ≡ ok i)
        × (is_ready i.status ≡ true))
contact_kind_example =
    contact_kind library library_lem scheme_builder program_scheme cm_util reconciler scheme_world
      fresh refl asked_there

abbrev misspelt : CertificateRequest
misspelt = record fresh {
  spec = record fresh.spec { issuer_ref = record fresh.spec.issuer_ref { kind = codes "Isuer" } };
}

misspelt-IsOpen : IsOpen cm_util reconciler misspelt
unfolding is_ignored text_eq codes
misspelt-IsOpen = record { kept = refl; allowed = refl; seen = λ e. ground arith }

misspelt_unknown :
    scheme_world.scheme_new misspelt.spec.issuer_ref.kind
    ≡ err (record { text = codes "no kind is registered" })
unfolding text_eq codes
misspelt_unknown = refl

unknown_kind_fails_example :
    let (e, r) = reconcile_found cm_util reconciler scheme_world misspelt in
    (e ≡ returned empty none)
    × (r.actions ≡ event warning unrecognised.message ∷ updated r.stored ∷ [])
    × Any (HasReason ready is_false Request.failed) r.stored.status.conditions
    × (after_all cm_util reconciler (scheme_world ∷ []) r.stored ≡ r.stored)
unknown_kind_fails_example =
    unknown_kind_fails cm_util reconciler scheme_world misspelt misspelt-IsOpen (λ c. refl)
      (record { text = codes "no kind is registered" }) (scheme_world ∷ []) misspelt_unknown
