-- ===== src/Cli/Operate.antt =====
-- The commands of src/solfleet/cli.py that work on one node or one builder. The fleet and the policy are
-- those that the files hold; the world's audit log is the one that was opened.
use solfleet.Prelude.{
  ℕ, Bool, true, false, ◌&&◌, List, [], ◌∷◌, ◌++◌, map, String, Option, none, some, ◌==◌,
  if◌then◌else◌,
}
use solfleet.Prelude.Text.{lit, str, repr}
use solfleet.Prelude.Dict.{Dict}
use solfleet.Json.{Json, Fields, end, field}
use solfleet.Safety.{Policy}
use solfleet.Config.{Cluster, Fleet}
use solfleet.Config.Find.{Found, find_node}
use solfleet.Executor.{Env, Action, ◌>>=◌, pure}
use solfleet.Executor.Inspect.{Inspection, ServiceState, inspect_node}
use solfleet.Operations.{Reply, refused, reply}
use solfleet.Operations.Restart.{Outcome, planned, executed}
use solfleet.Operations.Restart.Run.{restart_node}
use solfleet.Operations.Upgrade.{UpgradePlan, plan_upgrade}
use solfleet.Operations.Upgrade.Execute as Execute
use solfleet.Operations.Upgrade.Execute.{Upgrade}
use solfleet.Operations.Upgrade.Run.{execute_upgrade}
use solfleet.Provision.{joined_by}
use solfleet.Provision.Report as Report
use solfleet.Provision.Report.{Provisioned}
use solfleet.Provision.Run.{provision_node}
use solfleet.Builder.Bootstrap.{Bootstrap, returned, bootstrap_builder}

-- What a command prints, and its exit code.
pub record Ended {ℓ} (A : Type ℓ) : Type ℓ where
  pub printed : A
  pub code : ℕ

abbrev pub ended {ℓ} : {A : Type ℓ} → A → ℕ → Ended A
ended printed code = record { printed = printed; code = code }

-- `"error" in result`
abbrev pub is_refused {ℓ} : {A : Type ℓ} → Reply A → Bool
is_refused (refused e) = true
is_refused (reply a) = false

-- The tail of every command that changes something: the code from `"error" in result`, from the flag, and
-- from `result.get("succeeded")`. A dry run always succeeds.
abbrev pub exit_code : Bool → Bool → Bool → ℕ
exit_code error confirm succeeded =
    if error then 2 else if confirm then (if succeeded then 0 else 1) else 0

-- `result.get("succeeded")`
abbrev pub restart_succeeded : Reply Outcome → Bool
restart_succeeded (refused e) = false
restart_succeeded (reply (planned decision before leader)) = false
restart_succeeded (reply (executed r)) = r.succeeded

abbrev pub upgrade_succeeded : Reply Upgrade → Bool
upgrade_succeeded (refused e) = false
upgrade_succeeded (reply (Execute.planned decision before)) = false
upgrade_succeeded (reply (Execute.unbuilt decision build)) = false
upgrade_succeeded (reply (Execute.unverified decision build placements)) = false
upgrade_succeeded (reply (Execute.upgraded u)) = u.succeeded

abbrev pub provision_succeeded : Reply Provisioned → Bool
provision_succeeded (refused e) = false
provision_succeeded (reply (Report.planned decision pre)) = false
provision_succeeded (reply (Report.finished decision steps succeeded message)) = succeeded

-- `"error" in result` and `result.get("ok")` of a dict
abbrev in_fields : String → Fields → Bool
in_fields k end = false
in_fields k (field j v fs) = if k == j then true else in_fields k fs

abbrev pub in_dict : String → Json → Bool
in_dict k (Json.fields fs) = in_fields k fs
in_dict k _ = false

abbrev is_true : Json → Bool
is_true (Json.bool b) = b
is_true _ = false

abbrev true_in_fields : String → Fields → Bool
true_in_fields k end = false
true_in_fields k (field j v fs) = if k == j then is_true v else true_in_fields k fs

abbrev pub true_in : String → Json → Bool
true_in k (Json.fields fs) = true_in_fields k fs
true_in k _ = false

abbrev node_names : Dict Cluster → List String
node_names [] = []
node_names ((_, cluster) ∷ clusters) = map (λ n. n.name) cluster.nodes ++ node_names clusters

-- `[n.name for c in fleet.clusters.values() for n in c.nodes]`
abbrev pub known_nodes : Fleet → List String
known_nodes fleet = node_names fleet.clusters

abbrev eq_text : Option String → String → Bool
eq_text none s = false
eq_text (some t) s = t == s

abbrev pub is_running : ServiceState → Bool
is_running svc = svc.ok && eq_text svc.active "active" && eq_text svc.sub "running"

module _ (env : Env) (fleet : Fleet) (policy : Policy) where
  abbrev inspect_from : String → Option Found → Action (Ended (Reply Inspection))
  inspect_from node_name none = pure (
      ended
        (refused (
          str "unknown node "
          ∷ repr (some node_name)
          ∷ str "; known: "
          ∷ joined_by ", " (map lit (known_nodes fleet))))
        2)
  inspect_from node_name (some (_, _, node)) = do
    result ← inspect_node env node
    pure (ended (reply result) (if is_running result.service then 0 else 1))

  unfoldable pub cmd_inspect : String → Action (Ended (Reply Inspection))
  unfolding inspect_node find_node
  cmd_inspect node_name = inspect_from node_name (find_node fleet node_name)

  abbrev plan_code : Reply UpgradePlan → ℕ
  plan_code (refused e) = 2
  plan_code (reply plan) = if plan.decision.allowed then 0 else 1

  unfoldable pub cmd_plan_upgrade : String → String → Ended (Reply UpgradePlan)
  unfolding plan_upgrade
  cmd_plan_upgrade node_name version =
      let result = plan_upgrade fleet policy node_name version in ended result (plan_code result)

  -- The default `max_lag` is 2.
  unfoldable pub cmd_restart : String → Bool → Action (Ended (Reply Outcome))
  unfolding restart_node
  cmd_restart node_name confirm = do
    result ← restart_node env policy 2 confirm node_name fleet
    pure (ended result (exit_code (is_refused result) confirm (restart_succeeded result)))

  unfoldable pub cmd_upgrade :
      String → String → String → Bool → Bool → Action (Ended (Reply Upgrade))
  unfolding execute_upgrade
  cmd_upgrade staging node_name version force confirm = do
    result ← execute_upgrade env fleet policy 2 staging force confirm node_name version
    pure (ended result (exit_code (is_refused result) confirm (upgrade_succeeded result)))

  unfoldable pub cmd_provision :
      String → String → String → List String → ℕ → Bool → Action (Ended (Reply Provisioned))
  unfolding provision_node
  cmd_provision staging node_name version format_device catchup_timeout confirm = do
    result ←
        provision_node env fleet 2 catchup_timeout staging format_device confirm node_name version
    pure (ended result (exit_code (is_refused result) confirm (provision_succeeded result)))

  unfoldable pub cmd_bootstrap_builder : String → Bool → Action (Ended Bootstrap)
  unfolding bootstrap_builder
  cmd_bootstrap_builder builder confirm = do
    result ← bootstrap_builder env builder confirm fleet
    let dict : Json = returned result
    pure (ended result (exit_code (in_dict "error" dict) confirm (true_in "ok" dict)))
