-- ===== src/Cluster/Tests/Concurrent.antt =====
-- Runs on a store with one request while one of them is under way on an old copy.
use cert_manager_essendi_xc.Base.{
  ℕ, ◌==◌, false, none, [], some, Option, ◌∷◌, ◌≡◌, refl, arith, if◌then◌else◌, Bool-cases, inl,
  inr,
}
use cert_manager_essendi_xc.Base.Text.{codes, text_eq}
use cert_manager_essendi_xc.Cluster.{name_eq, put_request}
use cert_manager_essendi_xc.Cluster.Concurrent.{
  Server, note_request, IsConsistent, FineSteps, none_left, first, request_kept, condition_set,
}
use cert_manager_essendi_xc.Cluster.Concurrent.Once.{submitted_once_since}
use cert_manager_essendi_xc.Cluster.Concurrent.Final.{done_stays}
use cert_manager_essendi_xc.Request.{CertificateRequest, Any}
use cert_manager_essendi_xc.Request.Sample.{cm_util}
use cert_manager_essendi_xc.RequestController.{is_ignored, reconcile_found}
use cert_manager_essendi_xc.RequestController.Deferred.{after, start, empty}
use cert_manager_essendi_xc.RequestController.Routes.{issued_now}
use cert_manager_essendi_xc.RequestController.Lost.{refusing}
use cert_manager_essendi_xc.RequestController.Update.{update_failed}
use cert_manager_essendi_xc.RequestController.Sample.{
  world, signing, reconciler, fresh, approval, request_with,
}
use cert_manager_essendi_xc.RequestController.Settled.Body.{IsSubmission}
use cert_manager_essendi_xc.RequestController.Steps.{Env, NamespacedName, put, returned}
use cert_manager_essendi_xc.Cluster.Tests.{
  with_request, sent, sent_now, returned_now, approval-IsForeign, fresh-IsWellFormed, request_name,
  sent_there,
}

-- At version 1 the request was fresh, and it is `cr` at version 2; the issuers have one version.
abbrev copies_of : CertificateRequest → NamespacedName → ℕ → Option CertificateRequest
copies_of cr n v =
    if name_eq n request_name
    then (if v == 2 then some cr else if v == 1 then some fresh else none)
    else none

abbrev server : CertificateRequest → Server
server cr = record {
  cluster = with_request cr;
  issuer_version = λ r. 0;
  issuer_at = λ r v. (with_request cr).issuers r;
  request_version = λ n. 2;
  request_at = copies_of cr;
}

server-IsConsistent : (cr : CertificateRequest) → IsConsistent (server cr)
server-IsConsistent cr = record {
  issuers = λ r. refl;
  requests = λ n. elim (Bool-cases (name_eq n request_name)) [
    | inl here ↦ rw here refl
    | inr other ↦ rw other refl
  ];
  newest = λ n v newer. elim (Bool-cases (name_eq n request_name)) [
    | inl here ↦ rw here (ground arith)
    | inr other ↦ rw other refl
  ];
}

abbrev conflicting : Env
conflicting = refusing (world signing) (record { text = codes "the object has been modified" })

fresh_live : is_ignored cm_util reconciler fresh ≡ false
unfolding is_ignored text_eq codes
fresh_live = refl

-- A run on the old copy changes nothing.
late_kept : after cm_util reconciler conflicting fresh ≡ fresh
late_kept =
    (update_failed cm_util reconciler conflicting
      (record { text = codes "the object has been modified" }) (λ c. refl) fresh fresh_live).1

fresh_there : (server sent).request_at request_name 1 ≡ some fresh
unfolding text_eq codes
fresh_there = refl

abbrev approved_once_more : Server
approved_once_more =
    note_request request_name
      (put_request request_name (put cm_util approval sent) (with_request sent)) (server sent)

-- A run is under way on the copy from before the submission, and the request is approved once more.
abbrev late_steps : FineSteps cm_util reconciler (server sent) approved_once_more
late_steps = first (request_kept request_name 1 fresh conflicting fresh_there late_kept) (
    first (condition_set request_name sent approval (sent_there sent) approval-IsForeign) none_left)

newest_there : approved_once_more.request_at request_name 3 ≡ some (put cm_util approval sent)
unfolding text_eq codes
newest_there = refl

submitted_once_since_example :
    ¬ Any IsSubmission
      (reconcile_found cm_util reconciler (world signing) (put cm_util approval sent)).1.actions
submitted_once_since_example =
    submitted_once_since cm_util reconciler request_name late_steps (world signing) (world signing)
      fresh (put cm_util approval sent) (record { requeue_after = 15 }) 3 (server-IsConsistent sent)
      fresh-IsWellFormed sent_now returned_now (sent_there sent) (tt, (tt, tt)) (omega arith)
      newest_there

-- The request is issued, at version 2.
abbrev issued_request : CertificateRequest
issued_request = record (request_with (approval ∷ issued_now ∷ [])) {
  status = record {
    conditions = approval ∷ issued_now ∷ [];
    certificate = codes "CERT";
    ca = [];
    failure_time = none;
  };
}

abbrev approved_after : Server
approved_after =
    note_request request_name
      (put_request request_name (put cm_util approval issued_request) (with_request issued_request))
      (server issued_request)

fresh_before : (server issued_request).request_at request_name 1 ≡ some fresh
unfolding text_eq codes
fresh_before = refl

abbrev late_again : FineSteps cm_util reconciler (server issued_request) approved_after
late_again = first (request_kept request_name 1 fresh conflicting fresh_before late_kept) (
    first
      (condition_set request_name issued_request approval (sent_there issued_request)
        approval-IsForeign)
      none_left)

done_there : approved_after.request_at request_name 3 ≡ some (put cm_util approval issued_request)
unfolding text_eq codes
done_there = refl

done_stays_example :
    ((put cm_util approval issued_request).status.certificate ≡ codes "CERT")
    × (reconcile_found cm_util reconciler (world signing) (put cm_util approval issued_request)
        ≡ (returned empty none, start (put cm_util approval issued_request)))
done_stays_example =
    done_stays cm_util reconciler request_name late_again (world signing) issued_request
      (put cm_util approval issued_request) 3 (server-IsConsistent issued_request)
      (sent_there issued_request) (inr (inl refl)) (tt, (tt, tt)) (omega arith) done_there
