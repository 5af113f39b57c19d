-- ===== src/Main/Tests.antt =====
-- Runs of the program, and its settings.
use cert_manager_essendi_xc.Base.{if◌then◌else◌, false, true, ◌≡◌, ◌↔◌, ◌⊎◌, inl, inr, refl, []}
use cert_manager_essendi_xc.Base.Text.{Text, codes, text_eq}
use cert_manager_essendi_xc.Base.Errors.{Outcome, ok, err}
use cert_manager_essendi_xc.Main.{
  Flags, NamespaceFile, present, not_exist, get_in_cluster_namespace, choose_namespace, Runtime,
  setup_with_manager, launch, main,
}
use cert_manager_essendi_xc.Main.Start.{IsStart, IsStarted, IsRequestController, main_starts}
use cert_manager_essendi_xc.IssuerController.{new_issuer}
use cert_manager_essendi_xc.Main.Settings.{contact_approved}
use cert_manager_essendi_xc.Request.{Any, HasStatus, approved, is_true}
use cert_manager_essendi_xc.Request.Sample.{cm_util}
use cert_manager_essendi_xc.RequestController.Sample.{world, signing, reconciler, fresh}
use cert_manager_essendi_xc.RequestController.Sample.Facts.{asked_now}
use cert_manager_essendi_xc.RequestController.Steps.{Kind, RuntimeObject, client_object}

abbrev flags : Flags
flags = record {
  metrics_addr = codes ":8080";
  probe_addr = codes ":8081";
  enable_leader_election = false;
  cluster_resource_namespace = codes "cert-manager";
  auth_realm = codes "xc";
  print_version = false;
  disable_approved_check = false;
}

abbrev file : NamespaceFile
file = record { stat = present; content = ok (codes "kube-system") }

abbrev scheme_new : Text → Outcome RuntimeObject
scheme_new kind =
    if text_eq kind (codes "Issuer")
    then ok (client_object Kind.issuer)
    else if text_eq kind (codes "ClusterIssuer")
    then ok (client_object Kind.cluster_issuer)
    else err (record { text = codes "no kind is registered" })

-- The manager runs until it is told to stop.
abbrev runtime : Runtime
runtime = record {
  new_manager = λ _. ok tt;
  scheme_new = scheme_new;
  complete = λ _. ok tt;
  start = ok tt;
}

main_starts_example :
    ((namespace : Text) × IsStarted flags file runtime namespace)
    ⊎ ((¬ Any IsStart (main runtime flags file).1)
        × (((main runtime flags file).0 ≡ 0) ↔ (flags.print_version ≡ true)))
main_starts_example = main_starts flags file runtime

starts : Any IsStart (main runtime flags file).1
unfolding main launch setup_with_manager choose_namespace new_issuer codes text_eq
starts = inr (inr (inr (inr (inl tt))))

registers : Any (IsRequestController reconciler) (main runtime flags file).1
unfolding main launch setup_with_manager choose_namespace new_issuer codes text_eq
registers = inr (inr (inr (inl refl)))

-- Outside of a cluster and with no namespace given, the program exits before it makes a manager.
homeless :
    main runtime
      (record flags { cluster_resource_namespace = [] })
      (record file { stat = not_exist })
    ≡ (1, [])
unfolding main choose_namespace get_in_cluster_namespace codes
homeless = refl

contact_approved_example : Any (HasStatus approved is_true) fresh.status.conditions
contact_approved_example =
    contact_approved flags file runtime reconciler cm_util (world signing) fresh starts registers
      refl asked_now
