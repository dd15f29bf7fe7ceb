-- ===== src/Validate/Failures.antt =====
-- What `validate_fleet` of src/solfleet/validate.py reports, and what it runs.
use mathlib.Core.Path.{ap₂}
use solfleet.Prelude.{
  Bool, false, not, ◌||◌, List, [], ◌∷◌, ◌++◌, String, Option, none, some, map, any, All, ◌≡◌, refl,
  ap, ◌∙◌, arith, Bool-cases, inl, inr,
}
use solfleet.Prelude.Dict.{Dict}
use solfleet.Safety.{PolicyRules, Policy, for_cluster}
use solfleet.Config.{Node, Cluster, BuilderHost, Fleet}
use solfleet.Probe.{NodeStatus, ClusterStatus}
use solfleet.Executor.{Env, World, Effect, probed_fleet, after}
use solfleet.Executor.Frames.{All-append}
use solfleet.Validate.{Status, is_fail, is_warn, Check, worst, dns_checks}
use solfleet.Validate.Run.{
  probe_with, NodeReport, BuilderReport, DnsReport, all_statuses, dns_report, dns_statuses,
  validate_nodes, validate_clusters, validate_builders, validate_fleet, status_by_name,
}

abbrev pub has_fail : List Check → Bool
has_fail checks = any checks (λ c. is_fail c.status)

is_fail-worst : (checks : List Check) → is_fail (worst checks) ≡ has_fail checks
unfolding worst
is_fail-worst checks = elim (Bool-cases (has_fail checks)) [
  | inl bad ↦ rw bad refl
  | inr fine ↦ elim (Bool-cases (any checks (λ c. is_warn c.status))) [
    | inl warned ↦ rw (fine, warned) refl
    | inr calm ↦ rw (fine, calm) refl
  ]
]

any-append :
    {A : Type 0} (p : A → Bool) (xs ys : List A) → any (xs ++ ys) p ≡ (any xs p || any ys p)
any-append p [] ys = refl
any-append p (x ∷ xs) ys = ground (arith, any-append p xs ys)

||-false : (b : Bool) → (b || false) ≡ b
||-false b = ground arith

-- A check of a node, of a builder or of the DNS credentials failed.
abbrev pub node_fails : List NodeReport → Bool
node_fails nodes = any nodes (λ n. has_fail n.checks)

abbrev pub builder_fails : List BuilderReport → Bool
builder_fails builders = any builders (λ b. has_fail b.checks)

abbrev pub dns_fails : Option DnsReport → Bool
dns_fails none = false
dns_fails (some d) = has_fail d.checks

abbrev NodeGraded : NodeReport → Type 0
NodeGraded n = n.status ≡ worst n.checks

abbrev BuilderGraded : BuilderReport → Type 0
BuilderGraded b = b.status ≡ worst b.checks

graded :
    (status : Status) (checks : List Check)
    → status ≡ worst checks
    → is_fail status ≡ has_fail checks
graded status checks h = ap is_fail h ∙ is_fail-worst checks

nodes-graded :
    (ns : List NodeReport)
    → All NodeGraded ns
    → any (map (λ n. n.status) ns) is_fail ≡ node_fails ns
nodes-graded [] h = refl
nodes-graded (n ∷ ns) h = ap₂ (λ a b. a || b) (graded n.status n.checks h.0) (nodes-graded ns h.1)

builders-graded :
    (bs : List BuilderReport)
    → All BuilderGraded bs
    → any (map (λ b. b.status) bs) is_fail ≡ builder_fails bs
builders-graded [] h = refl
builders-graded (b ∷ bs) h =
    ap₂ (λ a b. a || b) (graded b.status b.checks h.0) (builders-graded bs h.1)

dns-graded :
    (checks : List Check)
    → any (dns_statuses (dns_report checks)) is_fail ≡ dns_fails (dns_report checks)
dns-graded [] = refl
dns-graded (c ∷ cs) = ||-false _ ∙ is_fail-worst (c ∷ cs)

all_statuses-graded :
    (ns : List NodeReport) (bs : List BuilderReport) (checks : List Check)
    → All NodeGraded ns
    → All BuilderGraded bs
    → any (all_statuses ns bs (dns_report checks)) is_fail
      ≡ (node_fails ns || (builder_fails bs || dns_fails (dns_report checks)))
all_statuses-graded ns bs checks hn hb =
    any-append is_fail (map (λ n. n.status) ns) _
    ∙ ap₂ (λ a b. a || b) (nodes-graded ns hn)
        (any-append is_fail (map (λ b. b.status) bs) _
          ∙ ap₂ (λ a b. a || b) (builders-graded bs hb) (dns-graded checks))

module _ (env : Env) where
  module _ (rules : PolicyRules) (statuses : Dict NodeStatus) (cluster_name : String) where
    validate_nodes-Graded :
        (nodes : List Node) (w : World)
        → All NodeGraded (validate_nodes env rules statuses cluster_name nodes w).0
    unfolding validate_nodes
    validate_nodes-Graded [] w = tt
    validate_nodes-Graded (node ∷ nodes) w = (refl, validate_nodes-Graded nodes _)

  module _ (policy : Policy) (statuses : Dict NodeStatus) where
    validate_clusters-Graded :
        (clusters : Dict Cluster) (w : World)
        → All NodeGraded (validate_clusters env policy statuses clusters w).0
    unfolding validate_clusters
    validate_clusters-Graded [] w = tt
    validate_clusters-Graded ((cluster_name, cluster) ∷ clusters) w =
        All-append NodeGraded _ _
          (validate_nodes-Graded (for_cluster policy cluster_name) statuses cluster_name
            cluster.nodes w)
          (validate_clusters-Graded clusters _)

  validate_builders-Graded :
      (builders : Dict BuilderHost) (w : World)
      → All BuilderGraded (validate_builders env builders w).0
  unfolding validate_builders
  validate_builders-Graded [] w = tt
  validate_builders-Graded ((name, builder) ∷ builders) w =
      (refl, validate_builders-Graded builders _)

  -- The verdict of a validation is ok exactly if no check of a node, of a builder or of the DNS
  -- credentials failed; warnings do not count.
  pub validate_fleet-ok :
      (fleet : Fleet) (policy : Policy) (prober : List Effect → List ClusterStatus)
      (environ : String → Option String) (w : World)
      → (validate_fleet env fleet policy prober environ w).0.ok
        ≡ not (
            node_fails (validate_fleet env fleet policy prober environ w).0.nodes
            || (builder_fails (validate_fleet env fleet policy prober environ w).0.builders
                || dns_fails (validate_fleet env fleet policy prober environ w).0.dns))
  unfolding validate_fleet probe_with
  validate_fleet-ok fleet policy prober environ w =
      let clusters = prober w.effects in
      let nodes =
        validate_clusters env policy (status_by_name clusters) fleet.clusters
          (after w probed_fleet) in
      let builders = validate_builders env fleet.builders nodes.1 in
      ap not (
        all_statuses-graded nodes.0 builders.0 (dns_checks environ fleet.dns)
          (validate_clusters-Graded policy (status_by_name clusters) fleet.clusters
            (after w probed_fleet))
          (validate_builders-Graded fleet.builders nodes.1))
