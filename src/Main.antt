-- ===== src/Main.antt =====
-- main.go: the program, from its parsed flags to its exit code. Package flag parses the flags; package
-- os answers for the namespace file.
pub mod Start
pub mod Settings
mod Tests
use cert_manager_essendi_xc.Base.{
  ℕ, List, [], ◌∷◌, Option, none, some, Bool, not, ◌++◌, if◌then◌else◌,
}
use cert_manager_essendi_xc.Base.Text.{Text, codes, is_empty}
use cert_manager_essendi_xc.Base.Errors.{Error, Outcome, ok, err, panic, ◌>>=◌}
use cert_manager_essendi_xc.RequestController.Steps.{RuntimeObject, Reconciler}
use cert_manager_essendi_xc.IssuerController.{IssuerReconciler, new_issuer}

-- The variables of `main` that flags fill.
pub record Flags : Type 0 where
  pub metrics_addr : Text
  pub probe_addr : Text
  pub enable_leader_election : Bool
  pub cluster_resource_namespace : Text
  pub auth_realm : Text
  pub print_version : Bool
  pub disable_approved_check : Bool

-- What `os.Stat` answers for the namespace file.
pub data Stat : Type 0 where
  present not_exist : Stat
  other : Error → Stat

-- The namespace file: its state, and what `os.ReadFile` answers.
pub record NamespaceFile : Type 0 where
  pub stat : Stat
  pub content : Outcome Text

-- `fmt.Errorf("error reading namespace file: %w", err)`
abbrev read_namespace : Outcome Text → Outcome Text
read_namespace (ok s) = ok s
read_namespace (err e) = err (record { text = codes "error reading namespace file: " ++ e.text })
read_namespace panic = panic

abbrev err_not_in_cluster : Text
err_not_in_cluster = codes "not running in-cluster"

-- `getInClusterNamespace`
unfoldable pub get_in_cluster_namespace : NamespaceFile → Outcome Text
get_in_cluster_namespace file = elim file.stat [
  | not_exist ↦ err (record { text = err_not_in_cluster })
  | other e ↦ err (record { text = codes "error checking namespace file: " ++ e.text })
  | present ↦ read_namespace file.content
]

-- The namespace of the secrets of cluster issuers; on an error the program exits with the code 1.
unfoldable pub choose_namespace : Flags → NamespaceFile → Outcome Text
choose_namespace flags file =
    if is_empty flags.cluster_resource_namespace
    then get_in_cluster_namespace file
    else ok flags.cluster_resource_namespace

-- `ctrl.Options`, without the scheme.
pub record Options : Type 0 where
  pub health_probe_bind_address : Text
  pub leader_election : Bool
  pub leader_election_id : Text

-- A reconciler that is registered with the manager.
pub data Controller : Type 0 where
  issuers : IssuerReconciler → Controller
  requests : Reconciler → Controller

-- Package controller-runtime. `new_manager` is `ctrl.NewManager`, with `GetConfigOrDie`; `scheme_new`
-- is `Scheme.New`; `complete` builds a controller and adds it to the manager; `start` is `mgr.Start`.
pub record Runtime : Type 0 where
  pub new_manager : Options → Outcome (Unit {0})
  pub scheme_new : Text → Outcome RuntimeObject
  pub complete : Controller → Outcome (Unit {0})
  pub start : Outcome (Unit {0})

-- What the program does, in order: `started` is the call of `mgr.Start`, every other event a call that
-- succeeded.
pub data Event : Type 0 where
  printed : Text → Event
  created : Options → Event
  registered : Controller → Event
  started : Event

-- `version.Version`
abbrev pub version : Text
version = codes "0.1.0"

-- An exit code and what was done.
abbrev pub Ended : Type 0
Ended = ℕ × List Event

-- `if err != nil { os.Exit(1) }` behind a call, which is noted as the event. A panic ends a Go program
-- with the code 2.
abbrev pub attempt : Outcome (Unit {0}) → Event → (List Event → Ended) → List Event → Ended
attempt (ok _) event next done = next (done ++ event ∷ [])
attempt (err _) event next done = (1, done)
attempt panic event next done = (2, done)

abbrev pub exit_code : Outcome (Unit {0}) → ℕ
exit_code (ok _) = 0
exit_code (err _) = 1
exit_code panic = 2

module _ (rt : Runtime) where
  -- `SetupWithManager` of certificate requests.
  abbrev setup_requests : Reconciler → Outcome (Unit {0})
  setup_requests r = rt.complete (requests r)

  -- `SetupWithManager` of issuers.
  abbrev setup_issuers : IssuerReconciler → Outcome (Unit {0})
  setup_issuers r = new_issuer rt.scheme_new r >>= λ _. rt.complete (issuers r)

  unfoldable pub setup_with_manager : Controller → Outcome (Unit {0})
  setup_with_manager (issuers r) = setup_issuers r
  setup_with_manager (requests r) = setup_requests r

  module _ (flags : Flags) where
    abbrev pub options : Options
    options = record {
      health_probe_bind_address = flags.probe_addr;
      leader_election = flags.enable_leader_election;
      leader_election_id = codes "essendixcissuer.angeloxx.ch";
    }

    abbrev pub issuer_reconciler : Text → Text → IssuerReconciler
    issuer_reconciler kind namespace = record {
      kind = kind;
      cluster_resource_namespace = namespace;
    }

    abbrev pub request_reconciler : Text → Reconciler
    request_reconciler namespace = record {
      cluster_resource_namespace = namespace;
      auth_realm = flags.auth_realm;
      check_approved_condition = not flags.disable_approved_check;
    }

    abbrev pub register : Controller → (List Event → Ended) → List Event → Ended
    register c = attempt (setup_with_manager c) (registered c)

    -- From the namespace to the end of the program.
    unfoldable pub launch : Text → Ended
    unfolding setup_with_manager
    launch namespace =
        attempt (rt.new_manager options) (created options)
          (register (issuers (issuer_reconciler (codes "Issuer") namespace)) (
            register (issuers (issuer_reconciler (codes "ClusterIssuer") namespace)) (
              register (requests (request_reconciler namespace))
                (λ done. (exit_code rt.start, done ++ started ∷ [])))))
          []

    abbrev launched : Outcome Text → Ended
    launched (ok namespace) = launch namespace
    launched (err _) = (1, [])
    launched panic = (2, [])

    -- `main`
    unfoldable pub main : NamespaceFile → Ended
    unfolding choose_namespace
    main file =
        if flags.print_version
        then (0, printed version ∷ [])
        else launched (choose_namespace flags file)
