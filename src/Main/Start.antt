-- ===== src/Main/Start.antt =====
-- What the program starts, and in which order.
use cert_manager_essendi_xc.Base.{
  true, false, ◌≡◌, ◌≢◌, ◌↔◌, ◌⊎◌, inl, inr, refl, arith, ◌∙◌, List, [], ◌∷◌, ◌++◌, Bool-cases,
}
use cert_manager_essendi_xc.Base.Text.{Text, codes}
use cert_manager_essendi_xc.Base.Errors.{Outcome, ok, err, panic, Outcome-cases}
use cert_manager_essendi_xc.Main.{
  Flags, NamespaceFile, choose_namespace, issuers, requests, Runtime, Event, created, registered,
  started, Ended, attempt, setup_with_manager, options, issuer_reconciler, request_reconciler,
  register, launch, exit_code, main,
}
use cert_manager_essendi_xc.Request.{Any}
use cert_manager_essendi_xc.RequestController.Steps.{Reconciler}

-- A controller of certificate requests is registered with these settings.
abbrev pub IsRequestController : Reconciler → Event → Type 0
IsRequestController rc e = e ≡ registered (requests rc)

abbrev pub IsStart : Event → Type 0
IsStart started = Unit
IsStart _ = ⊥

module _ (flags : Flags) (file : NamespaceFile) (rt : Runtime) where
  -- What a program that starts its manager has done until then, in order.
  abbrev pub launch_events : Text → List Event
  launch_events namespace =
      created (options rt flags)
      ∷ registered (issuers (issuer_reconciler rt flags (codes "Issuer") namespace))
      ∷ registered (issuers (issuer_reconciler rt flags (codes "ClusterIssuer") namespace))
      ∷ registered (requests (request_reconciler rt flags namespace))
      ∷ []

  -- The steps up to the start of the manager all succeed.
  pub record IsLaunch (namespace : Text) : Type 0 where
    pub silent : flags.print_version ≡ false
    pub chosen : choose_namespace flags file ≡ ok namespace
    pub managed : rt.new_manager (options rt flags) ≡ ok tt
    pub issuers_set :
        setup_with_manager rt (issuers (issuer_reconciler rt flags (codes "Issuer") namespace))
        ≡ ok tt
    pub cluster_issuers_set :
        setup_with_manager rt
          (issuers (issuer_reconciler rt flags (codes "ClusterIssuer") namespace))
        ≡ ok tt
    pub requests_set :
        setup_with_manager rt (requests (request_reconciler rt flags namespace)) ≡ ok tt

  -- The program ends before the start of the manager.
  abbrev pub IsStopped : Ended → Type 0
  IsStopped x = (¬ Any IsStart x.1) × (x.0 ≢ 0)

  -- The steps behind the choice of the namespace all succeed, and the manager is started.
  abbrev IsLaunched : Text → Type 0
  IsLaunched namespace =
      (rt.new_manager (options rt flags) ≡ ok tt)
      × (setup_with_manager rt (issuers (issuer_reconciler rt flags (codes "Issuer") namespace))
          ≡ ok tt)
      × (setup_with_manager rt
            (issuers (issuer_reconciler rt flags (codes "ClusterIssuer") namespace))
          ≡ ok tt)
      × (setup_with_manager rt (requests (request_reconciler rt flags namespace)) ≡ ok tt)
      × (launch rt flags namespace ≡ (exit_code rt.start, launch_events namespace ++ started ∷ []))

  attempt_cases :
      (m : Outcome (Unit {0})) (e : Event) (next : List Event → Ended) (done : List Event)
      → ¬ Any IsStart done
      → ((m ≡ ok tt) × (attempt m e next done ≡ next (done ++ e ∷ [])))
        ⊎ IsStopped (attempt m e next done)
  attempt_cases (ok x) e next done h = inl (refl, refl)
  attempt_cases (err x) e next done h = inr (h, λ z. omega (arith, z))
  attempt_cases panic e next done h = inr (h, λ z. omega (arith, z))

  abbrev start_now : List Event → Ended
  start_now done = (exit_code rt.start, done ++ started ∷ [])

  abbrev set_requests : Text → List Event → Ended
  set_requests namespace =
      register rt flags (requests (request_reconciler rt flags namespace)) start_now

  abbrev set_cluster_issuers : Text → List Event → Ended
  set_cluster_issuers namespace =
      register rt flags (issuers (issuer_reconciler rt flags (codes "ClusterIssuer") namespace))
        (set_requests namespace)

  abbrev set_issuers : Text → List Event → Ended
  set_issuers namespace =
      register rt flags (issuers (issuer_reconciler rt flags (codes "Issuer") namespace))
        (set_cluster_issuers namespace)

  launch_cases : (namespace : Text) → IsLaunched namespace ⊎ IsStopped (launch rt flags namespace)
  unfolding launch
  launch_cases namespace =
      let i1 = issuers (issuer_reconciler rt flags (codes "Issuer") namespace) in
      let i2 = issuers (issuer_reconciler rt flags (codes "ClusterIssuer") namespace) in
      let r = requests (request_reconciler rt flags namespace) in
      let d0 : List Event = [] in
      let d1 = d0 ++ created (options rt flags) ∷ [] in
      let d2 = d1 ++ registered i1 ∷ [] in
      let d3 = d2 ++ registered i2 ∷ [] in
      elim (attempt_cases (rt.new_manager (options rt flags)) (created (options rt flags))
        (set_issuers namespace) d0 (λ x. x)) [
          | inr stop ↦ inr stop
          | inl (m0, e0) ↦
              elim (attempt_cases (setup_with_manager rt i1) (registered i1)
                (set_cluster_issuers namespace) d1 (ground arith)) [
                  | inr stop ↦ inr (rw e0 stop)
                  | inl (m1, e1) ↦
                      elim (attempt_cases (setup_with_manager rt i2) (registered i2)
                        (set_requests namespace) d2 (ground arith)) [
                          | inr stop ↦ inr (rw (e0, e1) stop)
                          | inl (m2, e2) ↦
                              elim (attempt_cases (setup_with_manager rt r) (registered r) start_now
                                d3 (ground arith)) [
                                  | inr stop ↦ inr (rw (e0, e1, e2) stop)
                                  | inl (m3, e3) ↦ inl (m0, m1, m2, m3, e0 ∙ e1 ∙ e2 ∙ e3)
                                ]
                        ]
                ]
        ]

  main-launch :
      (namespace : Text)
      → flags.print_version ≡ false
      → choose_namespace flags file ≡ ok namespace
      → main rt flags file ≡ launch rt flags namespace
  unfolding main
  main-launch namespace p q = simp (p, q) refl

  abbrev pub IsStarted : Text → Type 0
  IsStarted namespace =
      IsLaunch namespace
      × (main rt flags file ≡ (exit_code rt.start, launch_events namespace ++ started ∷ []))

  -- Either the namespace is known, the manager can be made, and the three controllers are registered:
  -- then the program makes the manager, registers the two issuer controllers and the one of requests,
  -- in this order, starts the manager, and ends with the code of its outcome. Or the manager is never
  -- started, and the exit code is 0 exactly when the version was asked for.
  pub main_starts :
      ((namespace : Text) × IsStarted namespace)
      ⊎ ((¬ Any IsStart (main rt flags file).1)
          × (((main rt flags file).0 ≡ 0) ↔ (flags.print_version ≡ true)))
  unfolding main
  main_starts = elim (Bool-cases flags.print_version) [
    | inl p ↦ inr (rw p (λ z. ground arith, (λ _. refl, λ _. refl)))
    | inr p ↦ elim (Outcome-cases (choose_namespace flags file)) [
      | inr (inl (e, q)) ↦
          inr (rw (p, q) (λ z. z, (λ z. ground (arith, z), λ z. ground (arith, z))))
      | inr (inr q) ↦ inr (rw (p, q) (λ z. z, (λ z. ground (arith, z), λ z. ground (arith, z))))
      | inl (namespace, q) ↦ elim (launch_cases namespace) [
        | inl (m0, m1, m2, m3, e) ↦ inl (
          namespace,
          (
            record {
              silent = p;
              chosen = q;
              managed = m0;
              issuers_set = m1;
              cluster_issuers_set = m2;
              requests_set = m3;
            },
            main-launch namespace p q ∙ e,
          ),
        )
        | inr (never, code) ↦
            inr (rw (main-launch namespace p q) (never, (λ z. absurd (code z), λ z. cc)))
      ]
    ]
  ]
