-- ===== src/Scheme.antt =====
-- What the program registers with `runtime.Scheme`: the `init` functions of api/v1alpha1
-- (groupversion_info.go, issuer_types.go, clusterissuer_types.go) and of main.go. The scheme itself, of
-- k8s.io/apimachinery, is a parameter.
pub mod Kinds
mod Tests
use cert_manager_essendi_xc.Base.{List, [], ◌∷◌, ◌++◌, ◌≡◌, ◌⊎◌, All}
use cert_manager_essendi_xc.Base.Text.{Text, codes}
use cert_manager_essendi_xc.Base.Errors.{Outcome, ok, err, panic, ◌>>=◌}
use cert_manager_essendi_xc.Api.{Issuer, ClusterIssuer, group}
use cert_manager_essendi_xc.Request.{Any}
use cert_manager_essendi_xc.RequestController.Steps.{
  Kind, RuntimeObject, client_object, issuer_list, cluster_issuer_list, machinery,
}

-- `schema.GroupVersion`
pub record GroupVersion : Type 0 where
  pub group : Text
  pub version : Text

abbrev pub group_version : GroupVersion
group_version = record { group = group; version = codes "v1alpha1" }

pub record IssuerList : Type 0 where
  pub items : List Issuer

pub record ClusterIssuerList : Type 0 where
  pub items : List ClusterIssuer

-- `SchemeBuilder.Register` adds to what files before it have registered.
abbrev register : List RuntimeObject → List RuntimeObject → List RuntimeObject
register objects builder = builder ++ objects

-- `init` of clusterissuer_types.go
abbrev init_cluster_issuers : List RuntimeObject → List RuntimeObject
init_cluster_issuers = register (client_object Kind.cluster_issuer ∷ cluster_issuer_list ∷ [])

-- `init` of issuer_types.go
abbrev init_issuers : List RuntimeObject → List RuntimeObject
init_issuers = register (client_object Kind.issuer ∷ issuer_list ∷ [])

-- `SchemeBuilder` behind the `init` functions of the package, which run in the order of file names.
abbrev pub scheme_builder : List RuntimeObject
scheme_builder = init_issuers (init_cluster_issuers [])

-- The kind under which a Go type is registered is its name.
abbrev pub kind_name : RuntimeObject → Text
kind_name (client_object Kind.issuer) = codes "Issuer"
kind_name (client_object Kind.cluster_issuer) = codes "ClusterIssuer"
kind_name (client_object (Kind.foreign name)) = name
kind_name issuer_list = codes "IssuerList"
kind_name cluster_issuer_list = codes "ClusterIssuerList"
kind_name (machinery name) = name

-- `runtime.Scheme` with the packages that register their types in it: `client_go` and `cert_manager`
-- are their `AddToScheme`, `add_to_scheme` is `Builder.AddToScheme`, `new` is `Scheme.New`.
pub record Library (Scheme : Type 0) : Type 0 where
  pub new_scheme : Scheme
  pub client_go : Scheme → Outcome Scheme
  pub cert_manager : Scheme → Outcome Scheme
  pub add_to_scheme : GroupVersion → List RuntimeObject → Scheme → Outcome Scheme
  pub new : Scheme → GroupVersion → Text → Outcome RuntimeObject

-- `utilruntime.Must`
abbrev must : {A : Type 0} → Outcome A → Outcome A
must (ok x) = ok x
must _ = panic

module _ {Scheme : Type 0} (lib : Library Scheme) where
  -- The `init` of main.go: the scheme of the program.
  unfoldable pub init : Outcome Scheme
  init = do
    a ← must (lib.client_go lib.new_scheme)
    b ← must (lib.cert_manager a)
    must (lib.add_to_scheme group_version scheme_builder b)

  -- `Scheme.New` as the controllers call it, with a kind of the program's group.
  abbrev pub new_of : Scheme → Text → Outcome RuntimeObject
  new_of s = lib.new s group_version

  -- What a scheme `s` has come to make of the kinds of the program's group in `s'`: nothing else than
  -- before, but for these objects, and for the kinds of the API machinery.
  pub record Adds (objects : List RuntimeObject) (s s' : Scheme) : Type 0 where
    pub known : All (λ o. new_of s' (kind_name o) ≡ ok o) objects
    pub rest :
        (kind : Text) (made : RuntimeObject)
        → new_of s' kind ≡ ok made
        → Any (λ o. (o ≡ made) × (kind_name o ≡ kind)) objects
          ⊎ (((name : Text) × (made ≡ machinery name)) ⊎ (new_of s kind ≡ ok made))

  -- A new scheme makes nothing, the two other packages register no type of the program's group, and
  -- the builder registers the types that it is given.
  pub record IsLibrary : Type 0 where
    pub nothing : (kind : Text) (made : RuntimeObject) → ¬ (new_of lib.new_scheme kind ≡ ok made)
    pub client_go : (s s' : Scheme) → lib.client_go s ≡ ok s' → Adds [] s s'
    pub cert_manager : (s s' : Scheme) → lib.cert_manager s ≡ ok s' → Adds [] s s'
    pub add_to_scheme :
        (s s' : Scheme)
        → lib.add_to_scheme group_version scheme_builder s ≡ ok s'
        → Adds scheme_builder s s'
