-- ===== src/RequestController/Tests/Outages.antt =====
-- Runs whose updates are refused now and then, and what runs leave alone, in a small world.
use cert_manager_essendi_xc.Base.{
  if◌then◌else◌, ℕ, ◌+◌, ◌*◌, ◌%◌, ◌≤◌, ◌==◌, true, false, some, [], ◌∷◌, ◌≡◌, ◌⊎◌, inl, inr, refl,
  arith, Bool,
}
use cert_manager_essendi_xc.Base.Errors.{Error, Outcome, ok, err}
use cert_manager_essendi_xc.Base.Text.{codes, text_eq, contains, has_prefix}
use cert_manager_essendi_xc.Request.{Any, HasReason, ready, issued, is_true}
use cert_manager_essendi_xc.Request.Sample.{cm_util}
use cert_manager_essendi_xc.RequestController.{reconcile_found, open_signer, err_signer_refused}
use cert_manager_essendi_xc.RequestController.Await.{is_given_up}
use cert_manager_essendi_xc.RequestController.Frame.{SameReference}
use cert_manager_essendi_xc.IssuerUtil.{get_spec_and_status, is_ready, get_ready_condition}
use cert_manager_essendi_xc.RequestController.Deferred.{after_all, empty}
use cert_manager_essendi_xc.RequestController.Footprint.{SameElsewhere, runs_footprint}
use cert_manager_essendi_xc.RequestController.Lost.{refusing, unstored_resubmits}
use cert_manager_essendi_xc.RequestController.Outages.{
  after_runs, IsOutage, update_refused, unopened,
}
use cert_manager_essendi_xc.RequestController.Endless.Essendi.{
  IsServedBy, IsLocatedBy, essendi_issued,
}
use cert_manager_essendi_xc.Signer.Accepted.{IsAccepted, submit-IsAccepted}
use cert_manager_essendi_xc.Signer.Panics.{IsAnswered, fetch-IsAnswered}
use cert_manager_essendi_xc.RequestController.Sample.{
  world, signing, reconciler, fresh, http, answer, ca_signer,
}
use cert_manager_essendi_xc.RequestController.Sample.Facts.{
  ca, healthy, fresh-IsOpen, fresh_unsigned, fresh_unsubmitted, sent, task_url, certificate_url,
  resource_full, certificate_full, served,
}
use cert_manager_essendi_xc.RequestController.Settled.Body.{IsSubmission}
use cert_manager_essendi_xc.RequestController.Steps.{Env, Run, returned, stop}
use cert_manager_essendi_xc.Signer.Client.{signer}
use cert_manager_essendi_xc.Signer.Http.{HttpRequest, Response, str}
use cert_manager_essendi_xc.Signer.Essendi.{parse_csr}
use cert_manager_essendi_xc.Signer.Submit.{
  submit_certificate_request, custom_fields, submission, submitted_response,
}
use cert_manager_essendi_xc.Signer.Task.{request_task_status, task_response}
use cert_manager_essendi_xc.Signer.Fetch.{fetch_certificate, fetched_response}

abbrev conflict : Error
conflict = record { text = codes "the object has been modified" }

-- The CA has not come to the task yet.
abbrev processing : HttpRequest → Outcome Response
processing r =
    if text_eq r.method (codes "POST")
    then answer 202 (codes "https://ca/t/1") []
    else if text_eq r.url (codes "https://ca/t/1")
    then answer 200 [] (codes "PROCESSING")
    else answer 200 [] (codes "CERT")

processing-IsAccepted :
    IsAccepted (http processing) ca_signer (codes "T") (codes "CSR") (codes "https://ca/t/1")
unfolding submit_certificate_request parse_csr custom_fields submission submitted_response text_eq
    codes
processing-IsAccepted =
    (submit-IsAccepted (http processing) ca_signer (codes "T") (codes "CSR")
        (codes "https://ca/t/1")).0
      refl

processing_told :
    request_task_status (http processing) ca_signer (codes "T") (codes "https://ca/t/1")
    ≡ ok ([], codes "PROCESSING")
unfolding request_task_status task_response text_eq codes
processing_told = refl

processing-IsAnswered :
    IsAnswered (http processing) ca_signer (codes "T") (codes "https://ca/c/1") (str (codes "CERT"))
unfolding fetch_certificate fetched_response text_eq codes
processing-IsAnswered =
    ((fetch-IsAnswered (http processing) ca_signer (codes "T") (codes "https://ca/c/1")
        (codes "CERT")).0
      refl).0

processing_alive : is_given_up (codes "PROCESSING") ≡ false
unfolding text_eq codes
processing_alive = refl

abbrev ServesFresh : Env → Type 0
ServesFresh =
    IsServedBy cm_util reconciler fresh (codes "https://ca/t/1") (codes "https://ca/c/1")
      (codes "CERT")

abbrev LocatesFresh : Env → Type 0
LocatesFresh =
    IsLocatedBy cm_util reconciler fresh (codes "https://ca/t/1") (codes "https://ca/c/1")
      (codes "CERT")

abbrev signing_serves : ServesFresh (world signing)
signing_serves = record {
  http = http signing;
  o = ca_signer;
  t = codes "T";
  healthy = healthy signing fresh;
  accepted = served.submitted;
  task = [];
  told = inl served.located;
  answered = served.given;
}

signing_locates : LocatesFresh (world signing)
signing_locates = (signing_serves, served.located)

processing_serves : ServesFresh (world processing)
processing_serves = record {
  http = http processing;
  o = ca_signer;
  t = codes "T";
  healthy = healthy processing fresh;
  accepted = processing-IsAccepted;
  task = codes "PROCESSING";
  told = inr (processing_told, processing_alive);
  answered = processing-IsAnswered;
}

abbrev secretless : Env
secretless = record (world signing) {
  get_secret = λ n. err (record { text = codes "no such secret" });
}

abbrev secret_lost : Error
secret_lost = record {
  text =
      codes
        "failed to get Secret containing Issuer credentials, secret name: ns/auth, reason: no such secret";
}

secretless_unopened :
    (r : Run)
    → SameReference r.request fresh
    → open_signer cm_util reconciler secretless r ≡ (stop (returned empty (some secret_lost)), r)
unfolding open_signer get_spec_and_status is_ready get_ready_condition codes
secretless_unopened r (namespace, spec) = rw namespace refl

secretless_unrefused : contains secret_lost.text err_signer_refused ≡ false
unfolding contains has_prefix codes
secretless_unrefused = refl

secretless-IsOutage : IsOutage cm_util reconciler fresh secretless
secretless-IsOutage =
    unopened empty secret_lost secretless_unopened secretless_unrefused (λ c. refl)

-- Of every four runs the first has its update refused, the second finds no secret, the third finds the
-- task in progress, and the fourth finds it done.
abbrev fourth : Bool → Bool → Bool → Env
fourth true _ _ = refusing (world signing) conflict
fourth false true _ = secretless
fourth false false true = world processing
fourth false false false = world signing

abbrev in_turn : ℕ → Env
in_turn k = fourth (k % 4 == 0) (k % 4 == 1) (k % 4 == 2)

each_of :
    (a b c : Bool) → ServesFresh (fourth a b c) ⊎ IsOutage cm_util reconciler fresh (fourth a b c)
each_of true b c = inr (update_refused conflict (λ c. refl))
each_of false true c = inr secretless-IsOutage
each_of false false true = inl processing_serves
each_of false false false = inl signing_serves

last_of_four :
    (k : ℕ)
    → ((4 * k + 3) % 4 == 0 ≡ false)
      × ((4 * k + 3) % 4 == 1 ≡ false)
      × ((4 * k + 3) % 4 == 2 ≡ false)
last_of_four k = (ground arith, ground arith, ground arith)

fair : (k : ℕ) → (j : ℕ) × (k ≤ j) × LocatesFresh (in_turn j)
fair k = let (a, b, c) = last_of_four k in (4 * k + 3, omega arith, rw (a, b, c) signing_locates)

essendi_issued_example :
    (k : ℕ) × ((after_runs cm_util reconciler in_turn k fresh).status.certificate ≡ codes "CERT")
    × Any
        (HasReason ready is_true issued)
        (after_runs cm_util reconciler in_turn k fresh).status.conditions
essendi_issued_example =
    essendi_issued cm_util reconciler fresh (codes "https://ca/t/1") (codes "https://ca/c/1")
      (codes "CERT") resource_full certificate_full in_turn
      (λ k. each_of (k % 4 == 0) (k % 4 == 1) (k % 4 == 2)) fair fresh-IsOpen fresh_unsigned
      fresh_unsubmitted task_url certificate_url

unstored_resubmits_example :
    let (e, r) = reconcile_found cm_util reconciler (refusing (world signing) conflict) fresh in
    (e ≡ returned empty (some conflict))
    × Any IsSubmission r.actions
    × (r.stored ≡ fresh)
    × Any IsSubmission (reconcile_found cm_util reconciler (world signing) r.stored).1.actions
unfolding signer
unstored_resubmits_example =
    unstored_resubmits cm_util reconciler (world signing) conflict (ca signing) (codes "T")
      (codes "https://ca/t/1") fresh (healthy signing fresh) fresh-IsOpen fresh_unsigned
      fresh_unsubmitted sent

runs_footprint_example :
    SameElsewhere (after_all cm_util reconciler (world signing ∷ world signing ∷ []) fresh) fresh
runs_footprint_example =
    runs_footprint cm_util reconciler (world signing ∷ world signing ∷ []) fresh
