-- ===== src/Executor/Steps.antt =====
-- The mutating steps of src/solfleet/executor.py, which are reached only past the gate.
use solfleet.Prelude.{ℕ, Bool, List, [], ◌∷◌, ◌++◌, String, Option, none, some, ◌==◌, if◌then◌else◌}
use solfleet.Prelude.Text.{Text, str, num}
use solfleet.Prelude.Strings.{split}
use solfleet.Config.{Node}
use solfleet.Executor.{
  CommandResult, ok, Env, Action, ◌>>=◌, pure, Target, node_target, run, run_argv, scp_from_argv,
  scp_to_argv, systemctl, error_text,
}

-- The result of a step: whether the command succeeded, and the error that is reported.
pub record Step : Type 0 where
  pub ok : Bool
  pub error : Option Text

abbrev pub step_of : CommandResult → Step
step_of r = record { ok = ok r; error = error_text r }

-- A staged path, its destination, and whether it is executable.
abbrev pub Swap : Type 0
Swap = Text × Text × Bool

abbrev swap_part : Swap → List Text
swap_part (staged, dest, is_exec) =
    (str "mv -f " ∷ staged ++ str " " ∷ dest)
    ∷ (if is_exec then (str "chmod 755 " ∷ dest) ∷ [] else [])

abbrev pub swap_parts : List Swap → List Text
swap_parts [] = []
swap_parts (swap ∷ swaps) = swap_part swap ++ swap_parts swaps

-- `" && ".join(parts)`
abbrev pub join_and : List Text → Text
join_and [] = []
join_and (part ∷ []) = part
join_and (part ∷ next ∷ parts) = part ++ str " && " ∷ join_and (next ∷ parts)

abbrev pub first_word : List String → Option String
first_word [] = none
first_word (w ∷ ws) = some w

unfoldable pub exit_command : Node → ℕ → Text
exit_command node min_idle_minutes =
    let base =
      str node.service.binary
      ∷ str " --ledger "
      ∷ str node.service.ledger
      ∷ str " exit --min-idle-time "
      ∷ num min_idle_minutes
      ∷ str " --max-delinquent-stake "
      ∷ num 5
      ∷ [] in
    if node.ssh.user == node.service.run_user
    then base
    else str "sudo -u " ∷ str node.service.run_user ∷ str " " ∷ base

module _ (env : Env) where
  unfoldable pub stop_service : Node → Action Step
  unfolding run systemctl error_text
  stop_service node = do r ← run env (node_target node) (systemctl node "stop"); pure (step_of r)

  unfoldable pub start_service : Node → Action Step
  unfolding run systemctl error_text
  start_service node = do r ← run env (node_target node) (systemctl node "start"); pure (step_of r)

  unfoldable pub validator_safe_exit : Node → ℕ → Action Step
  unfolding run exit_command error_text
  validator_safe_exit node min_idle_minutes = do
    r ← run env (node_target node) (exit_command node min_idle_minutes)
    pure (step_of r)

  unfoldable pub atomic_swap : Node → List Swap → Action Step
  unfolding run error_text
  atomic_swap node swaps = do
    r ← run env (node_target node) (join_and (swap_parts swaps))
    pure (step_of r)

  -- `r.stdout.split()[0] if r.ok and r.stdout.strip() else None`
  unfoldable pub remote_sha256 : Target → Text → Action (Option String)
  unfolding run split
  remote_sha256 target path = do
    r ← run env target (str "sha256sum " ∷ path)
    pure (if ok r then first_word (split r.stdout) else none)

  unfoldable pub scp_from : Target → Text → Text → Action CommandResult
  unfolding run_argv scp_from_argv
  scp_from target remote_path local_path =
      run_argv env (scp_from_argv target remote_path local_path)

  unfoldable pub scp_to : Target → Text → Text → Action CommandResult
  unfolding run_argv scp_to_argv
  scp_to target local_path remote_path = run_argv env (scp_to_argv target local_path remote_path)
