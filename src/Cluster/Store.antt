-- ===== src/Cluster/Store.antt =====
-- Lookups in the store behind a write.
use cert_manager_essendi_xc.Base.{true, Bool, ◌≡◌, ◌&&◌, arith, ap}
use cert_manager_essendi_xc.Base.Text.{text_eq}
use cert_manager_essendi_xc.Base.Text.Laws.{text_eq_iff}
use cert_manager_essendi_xc.Cluster.{name_eq, ref_eq}
use cert_manager_essendi_xc.RequestController.Referenced.{Ref, issuer, cluster_issuer}
use cert_manager_essendi_xc.RequestController.Steps.{NamespacedName}

and_cases : (a b : Bool) → a && b ≡ true → (a ≡ true) × (b ≡ true)
and_cases a b h = ground arith

pub name_eq-true : (m n : NamespacedName) → name_eq m n ≡ true → m ≡ n
name_eq-true m n h =
    let (a, b) = and_cases (text_eq m.namespace n.namespace) (text_eq m.name n.name) h in
    let p = (text_eq_iff m.namespace n.namespace).0 a in
    let q = (text_eq_iff m.name n.name).0 b in λ i. record { namespace = p i; name = q i }

pub ref_eq-true : (p q : Ref) → ref_eq p q ≡ true → p ≡ q
ref_eq-true (issuer m) (issuer n) h = ap issuer (name_eq-true m n h)
ref_eq-true (cluster_issuer m) (cluster_issuer n) h = ap cluster_issuer (name_eq-true m n h)
ref_eq-true (issuer m) (cluster_issuer n) h = absurd (ground arith)
ref_eq-true (cluster_issuer m) (issuer n) h = absurd (ground arith)
