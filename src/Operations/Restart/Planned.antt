-- ===== src/Operations/Restart/Planned.antt =====
-- When `restart_node` of src/solfleet/operations.py executes, and what it runs where it does not.
use solfleet.Prelude.{
  ℕ, Bool, true, false, ◌&&◌, List, [], ◌∷◌, ◌++◌, String, Option, none, some, ◌==◌, all,
  if◌then◌else◌, ◌≡◌, refl, arith, inl, inr, Bool-cases, ap, ◌∙◌, sym,
}
use solfleet.Prelude.Text.{Text, str}
use solfleet.Safety.{PolicyRules, Checks, GateDecision}
use solfleet.Schedule.{LeaderReport}
use solfleet.Safety.Gate.{passed, gate-allowed}
use solfleet.Config.{Node, Cluster, Role, rpc, validator}
use solfleet.Executor.{run, Env, World, Effect, ran, asked_leader, node_target, ssh_argv, after}
use solfleet.Executor.Inspect.{Inspection, read_marker, inspect_node}
use solfleet.Operations.Catchup.{Honest, wait_for_catchup-Honest}
use solfleet.Operations.Restart.{cycle_ok, restart_plan, restart_checks, Outcome, planned, executed}
use solfleet.Operations.Restart.Run.{leader_info, finish_restart, restart_found}

-- The world after some effects, one behind the other.
abbrev pub after_all : World → List Effect → World
after_all w [] = w
after_all w (e ∷ es) = after_all (after w e) es

after_all-append :
    (w : World) (es es' : List Effect) → after_all w (es ++ es') ≡ after_all (after_all w es) es'
after_all-append w [] es' = refl
after_all-append w (e ∷ es) es' = after_all-append (after w e) es es'

abbrev command : Node → Text → Effect
command node cmd = ran (ssh_argv (node_target node) cmd)

abbrev marker_effects : Node → Option String → List Effect
marker_effects node none = []
marker_effects node (some path) =
    if path == "" then [] else command node (str "cat " ∷ str path ∷ []) ∷ []

-- The read-only commands, in their order: the state of the service, the version of the binary, the version
-- marker if there is one, and the disks.
abbrev pub inspection_effects : Node → List Effect
inspection_effects node =
    command node (
      str "systemctl show "
      ∷ str node.service.unit
      ∷ str " -p ActiveState,SubState,ExecMainStartTimestamp,User --no-pager"
      ∷ [])
    ∷ command node (str node.service.binary ∷ str " --version" ∷ [])
    ∷ (marker_effects node node.service.version_marker
        ++ command node
            (str "df -P -BG " ∷ str node.service.ledger ∷ str " " ∷ str node.service.accounts ∷ [])
          ∷ [])

read_marker-effects :
    (env : Env) (node : Node) (marker : Option String) (w : World)
    → (read_marker env node marker w).1 ≡ after_all w (marker_effects node marker)
unfolding run
read_marker-effects env node none w = refl
read_marker-effects env node (some path) w = elim (Bool-cases (path == "")) [
  | inl empty ↦ rw empty refl
  | inr named ↦ rw named refl
]

pub inspect_node-effects :
    (env : Env) (node : Node) (w : World)
    → (inspect_node env node w).1 ≡ after_all w (inspection_effects node)
unfolding inspect_node
inspect_node-effects env node w = rw (after_all-append, read_marker-effects) refl

-- The question for the leader schedule, which only a validator with an identity asks.
abbrev pub leader_effects : PolicyRules → String → Node → List Effect
leader_effects rules reference_rpc node = elim node.role [
  | rpc ↦ []
  | validator ↦ elim node.identity [
    | none ↦ []
    | some identity ↦
        if identity == ""
        then []
        else asked_leader reference_rpc identity rules.require_leader_window_minutes ∷ []
  ]
]

role-leader_info-effects :
    (env : Env) (rules : PolicyRules) (max_lag : ℕ) (node : Node) (reference_rpc : String)
    (role : Role) (identity : Option String) (w : World)
    → (leader_info env rules max_lag
        (record node { role = role; identity = identity })
        reference_rpc
        w).1
      ≡ after_all w
          (leader_effects rules reference_rpc (record node { role = role; identity = identity }))
unfolding leader_info
role-leader_info-effects env rules max_lag node reference_rpc rpc identity w = refl
role-leader_info-effects env rules max_lag node reference_rpc validator none w = refl
role-leader_info-effects env rules max_lag node reference_rpc validator (some i) w =
    elim (Bool-cases (i == "")) [ inl empty ↦ rw empty refl | inr named ↦ rw named refl ]

-- What the preflight does to the outside.
abbrev pub preflight_effects : PolicyRules → String → Node → List Effect
preflight_effects rules reference_rpc node =
    inspection_effects node ++ leader_effects rules reference_rpc node

pub leader_info-effects :
    (env : Env) (rules : PolicyRules) (max_lag : ℕ) (node : Node) (reference_rpc : String)
    (w : World)
    → (leader_info env rules max_lag node reference_rpc w).1
      ≡ after_all w (leader_effects rules reference_rpc node)
leader_info-effects env rules max_lag node reference_rpc w =
    role-leader_info-effects env rules max_lag node reference_rpc node.role node.identity w

abbrev pub is_executed : Outcome → Bool
is_executed (planned _ _ _) = false
is_executed (executed _) = true

-- What an outcome claims is so: the wait for the node was honest, and success is a cycle without an error
-- of a node that has caught up.
abbrev pub IsHonest : ℕ → Outcome → Type 0
IsHonest max_lag (planned _ _ _) = Unit {0}
IsHonest max_lag (executed r) =
    Honest max_lag 600 5 r.catchup × (r.succeeded ≡ (cycle_ok r.cycle && r.catchup.caught_up))

module _ (env : Env) (rules : PolicyRules) (max_lag : ℕ) (confirm : Bool)
    (node_name cluster_name : String) (cluster : Cluster) (node : Node) where
  is_executed-finish_restart :
      (decision : GateDecision) (before : Inspection) (leader : Option LeaderReport) (w : World)
      → is_executed
          (finish_restart env rules max_lag confirm decision before leader node_name cluster_name
            cluster node w).0
        ≡ (confirm && decision.allowed)
  unfolding finish_restart
  is_executed-finish_restart decision before leader w =
      elim (Bool-cases (confirm && decision.allowed)) [
        | inl go ↦ rw go refl
        | inr stay ↦ rw stay refl
      ]

  finish_restart-effects :
      (decision : GateDecision) (before : Inspection) (leader : Option LeaderReport) (w : World)
      → (confirm && decision.allowed) ≡ false
      → (finish_restart env rules max_lag confirm decision before leader node_name cluster_name
          cluster node w).1.effects
        ≡ w.effects
  unfolding finish_restart
  finish_restart-effects decision before leader w stay = rw stay refl

  module _ (w : World) where
    abbrev preflight : Inspection
    preflight = (inspect_node env node w).0

    abbrev checks : Checks
    checks = restart_checks rules preflight

    -- A restart is executed exactly if it is confirmed and every preflight check passes on what the
    -- inspection found.
    pub restart_found-is_executed :
        is_executed
          (restart_found env rules max_lag confirm node_name cluster_name cluster node w).0
        ≡ (confirm && all (restart_checks rules (inspect_node env node w).0) passed)
    unfolding restart_found
    restart_found-is_executed =
        is_executed-finish_restart _ _ _ _
        ∙ ap (λ allowed. confirm && allowed)
            (gate-allowed "restart_node" cluster_name node_name
              (restart_plan rules node cluster.reference_rpc max_lag) checks confirm)

    preflight-effects :
        (leader_info env rules max_lag node cluster.reference_rpc (inspect_node env node w).1).1
        ≡ after_all w (preflight_effects rules cluster.reference_rpc node)
    preflight-effects =
        leader_info-effects env rules max_lag node cluster.reference_rpc (inspect_node env node w).1
        ∙ ap (λ v. after_all v (leader_effects rules cluster.reference_rpc node))
            (inspect_node-effects env node w)
        ∙ sym (
            after_all-append w (inspection_effects node)
              (leader_effects rules cluster.reference_rpc node))

    -- A restart that is not confirmed, or that a preflight check blocks, does nothing outside but the
    -- read-only commands of the inspection, in their order, and the question for the leader schedule.
    pub restart_found_reads :
        (confirm && all (restart_checks rules (inspect_node env node w).0) passed) ≡ false
        → (restart_found env rules max_lag confirm node_name cluster_name cluster node w).1.effects
          ≡ (after_all w (preflight_effects rules cluster.reference_rpc node)).effects
    unfolding restart_found
    restart_found_reads blocked =
        finish_restart-effects _ _ _ _ (
          ap (λ allowed. confirm && allowed)
            (gate-allowed "restart_node" cluster_name node_name
              (restart_plan rules node cluster.reference_rpc max_lag) checks confirm)
          ∙ blocked)
        ∙ ap (λ v. v.effects) preflight-effects

  finish_restart-IsHonest :
      (decision : GateDecision) (before : Inspection) (leader : Option LeaderReport) (w : World)
      → IsHonest max_lag
          (finish_restart env rules max_lag confirm decision before leader node_name cluster_name
            cluster node w).0
  unfolding finish_restart
  finish_restart-IsHonest decision before leader w =
      elim (Bool-cases (confirm && decision.allowed)) [
        | inl go ↦ rw go (
          wait_for_catchup-Honest env node.name cluster.reference_rpc max_lag 600 5 (omega arith) _,
          refl,
        )
        | inr stay ↦ rw stay tt
      ]

  -- A restart that is executed reports an honest wait, and reports success exactly if the service cycled
  -- without an error and a sample within 600 seconds found the node caught up.
  pub restart_found-IsHonest :
      (w : World)
      → IsHonest max_lag
          (restart_found env rules max_lag confirm node_name cluster_name cluster node w).0
  unfolding restart_found
  restart_found-IsHonest w = finish_restart-IsHonest _ _ _ _
