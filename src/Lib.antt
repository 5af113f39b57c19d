-- ===== src/Lib.antt =====
-- Verification of cert-manager-essendi-xc-issuer, an external issuer for cert-manager that has
-- certificate requests signed by the essendi XC API.
--
-- The program runs two controllers. The issuer controller (internal/controllers/issuer_controller.go)
-- checks an Issuer or ClusterIssuer and keeps its Ready condition. The controller of certificate
-- requests (internal/controllers/certificaterequest_controller.go) takes a CertificateRequest through
-- its life: it submits the request to the CA, polls the CA's task, and fetches the certificate. It keeps
-- no state of its own: how far a request has come is read from the beginning of a condition's message,
-- and the URL to call next from the rest of that message. Both use the conditions' functions of
-- internal/issuer/util/util.go; the second uses the signer of internal/issuer/signer/signer.go, through
-- the interface Signer, and the search for a root CA in internal/controllers/pem_chain.go.
--
-- The files:
--   Base: names that all modules share. Base.Text has Go strings as lists of code points, with the
--     functions of package strings that are called; Base.Errors has results, errors and panics.
--   Api: api/v1alpha1, the custom resources and their texts.
--   Request: cert-manager's CertificateRequest, and its package api/util as the interface CmUtil, whose
--     laws are what that package documents. Request.Sample implements the interface.
--   IssuerUtil: internal/issuer/util/util.go. Ready is about SetReadyCondition, GetReadyCondition and
--     IsReady, Submitted about the messages.
--   PemChain: extractCAFromPEMBundle, over the functions of encoding/pem and crypto/x509 (record Pem).
--   Signer: the interfaces, and by child modules the signer: Essendi (the builders, GetRefreshToken,
--     parseCSR, the signature), Submit (SubmitCertificateRequest), Task (RequestTaskStatus), Fetch
--     (FetchCertificate), Host (the replacement of a URL's host), Client (the signer as a Signer),
--     X509Util (the parsers and the error type that nothing calls). Signed and OwnUrl specify the
--     requests that go to the API and what becomes of a location, in plain terms. Http is the record of what the
--     signer uses of other packages, of the network and of the clock.
--   RequestController: Reconcile of certificate requests, cut into its stages: is_ignored is the early
--     returns, body what follows the defer statement, deferred the deferred function. Resolve goes from
--     the issuer to the signer (open_signer), Issuance chooses among submit, poll and fetch (route).
--     Steps has the record Run (the local copy of the object, the API server's copy, the actions done),
--     the record Env (the answers that one run gets) and the steps that a return or a panic ends.
--   IssuerController: Reconcile of issuers, in the same way. Checks specifies what a health check comes to.
--   RequestController.Outages, Endless: endless sequences of runs, of which some meet an outage.
--   RequestController.Lifecycle: the specification of a request's life, a state machine over phases, and
--     the phase that the conditions stand for.
--   Cluster: the API server's objects under the runs of both controllers, in any order, and under the
--     writes of users and approvers, as a step relation. Cluster.Concurrent has the objects' versions too,
--     and runs that end on a copy of any age.
--   Scheme: the init functions of api/v1alpha1 and main.go, which register the types of objects with
--     the scheme (record Library), and the kinds that this scheme lets through to the controllers.
--   Main: main.go, from the parsed flags to the exit code, over the record Runtime, which answers for the
--     package controller-runtime; the two SetupWithManager.
--
-- A run is one call of Reconcile on an object that was found; runs follow each other by the API
-- server's copy of the object. In Cluster a run is one step on the store's object. In
-- Cluster.Concurrent a run ends on what it read of its object at any version, old ones too, and writes
-- lie between its beginning and its end; the API server takes its update only at the newest version,
-- by the object's resource version, and else it is a run whose update is refused. An error value is
-- its text. A Go panic is an outcome of its own, and the deferred function runs behind it. A map is a
-- function or an association list. Time is an instant as a number. Log lines are left out; events are
-- actions.
--
-- Fuel: PemChain.scan has one round more than the bundle has characters, and each decoded block takes at
-- least one; Base.Text.digits has one round more than the number, which is at least its digits;
-- Signer.Host.expand has one round more than its template has characters, and each round takes one.
--
-- Not modelled: internal/issuer/signer/authority.go and policies.go, a copy of the local signer of
-- Kubernetes that nothing calls; the parsing of flags and the queues of the manager that main.go
-- starts; generated deep copies. The packages net/http, net/url, encoding/json, text/template,
-- encoding/pem, crypto and oauth2, the API server, the scheme of apimachinery and cert-manager's
-- own functions are parameters, with their documented laws as hypotheses where a theorem needs one.
pub mod Base
pub mod Api
pub mod Request
pub mod IssuerUtil
pub mod PemChain
pub mod Signer
pub mod RequestController
pub mod IssuerController
pub mod Cluster
pub mod Main
pub mod Scheme
