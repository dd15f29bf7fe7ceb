-- ===== src/Executor.antt =====
-- src/solfleet/executor.py: the commands that run over SSH. What lies outside the program (the hosts
-- behind `ssh`, the RPC endpoints, the clock) answers through `Env`, from all that happened before.
pub mod Inspect
pub mod Steps
pub mod Frames
use solfleet.Prelude.{
  ℕ, zero, Bool, true, false, List, [], ◌∷◌, ◌++◌, String, Option, none, some, ◌==◌, if◌then◌else◌,
}
use solfleet.Prelude.Text.{Text, lit, str, num}
use solfleet.Prelude.Strings.{strip}
use solfleet.Audit.{AuditLog, Entry, audit_with}
use solfleet.Config.{Node, SshConfig, BuilderHost}
use solfleet.Schedule.{LeaderReport}

-- `returncode`: the status of a process that exits, or minus the number of the signal that ended it.
pub data ExitCode : Type 0 where
  exited : ℕ → ExitCode
  killed : ℕ → ExitCode

pub record CommandResult : Type 0 where
  pub exit_code : ExitCode
  pub stdout : String
  pub stderr : String

-- `self.exit_code == 0`
abbrev succeeded : ExitCode → Bool
succeeded (exited zero) = true
succeeded _ = false

abbrev pub ok : CommandResult → Bool
ok r = succeeded r.exit_code

-- `SSHTarget`: what a node and a build host share.
pub record Target : Type 0 where
  pub host : String
  pub ssh : SshConfig

abbrev pub node_target : Node → Target
node_target node = record { host = node.host; ssh = node.ssh }

abbrev pub builder_target : BuilderHost → Target
builder_target builder = record { host = builder.host; ssh = builder.ssh }

-- A sample of catch-up progress: the fields of the dict that a sampler returns.
pub record Sample : Type 0 where
  pub healthy : Option Bool
  pub node_slot : Option ℕ
  pub ref_slot : Option ℕ
  pub lag : Option ℕ

-- What an operation does to the outside, oldest first: the argument vectors that are run, the samples
-- taken of a node against a reference, the questions for the leader schedule, the probes of the whole
-- fleet, and the waits in seconds.
pub data Effect : Type 0 where
  ran : List Text → Effect
  sampled : String → String → Effect
  asked_leader : String → String → ℕ → Effect
  probed_fleet : Effect
  slept : ℕ → Effect

pub record World : Type 0 where
  pub effects : List Effect
  pub audit : Option AuditLog

-- The answers of the outside. `leader` is asked with an RPC endpoint, a node's identity and the minimal
-- window; `none` is an RPC error.
pub record Env : Type 0 where
  pub runner : List Effect → List Text → CommandResult
  pub sampler : List Effect → String → String → Sample
  pub leader : List Effect → String → String → ℕ → Option LeaderReport

-- An operation returns its result and the world that it leaves.
abbrev pub Action : Type 0 → Type 0
Action A = World → A × World

infixl 5 ◌>>=◌ ◌>>◌
abbrev pub ◌>>=◌ : {A B : Type 0} → Action A → (A → Action B) → Action B
◌>>=◌ m f w = let (a, w') = m w in f a w'

abbrev pub ◌>>◌ : {A B : Type 0} → Action A → Action B → Action B
◌>>◌ m k w = let (a, w') = m w in k w'

abbrev pub pure : {A : Type 0} → A → Action A
pure a w = (a, w)

abbrev pub after : World → Effect → World
after w e = record w { effects = w.effects ++ e ∷ [] }

abbrev pub record_audit : Entry → Action (Unit {0})
record_audit e w = (tt, record w { audit = audit_with w.audit e })

abbrev connection : String → List Text
connection program =
    lit program
    ∷ lit "-o"
    ∷ lit "BatchMode=yes"
    ∷ lit "-o"
    ∷ (str "ConnectTimeout=" ∷ num 15 ∷ [])
    ∷ lit "-o"
    ∷ lit "StrictHostKeyChecking=accept-new"
    ∷ []

abbrev key_args : Option String → List Text
key_args none = []
key_args (some key) = lit "-i" ∷ lit key ∷ []

abbrev login : Target → Text
login target = str target.ssh.user ∷ str "@" ∷ str target.host ∷ []

unfoldable pub ssh_argv : Target → Text → List Text
ssh_argv target command =
    connection "ssh"
    ++ (key_args target.ssh.key_file
        ++ (lit "-p" ∷ (num target.ssh.port ∷ []) ∷ login target ∷ command ∷ []))

abbrev scp_base : Target → List Text
scp_base target =
    connection "scp"
    ++ (key_args target.ssh.key_file ++ (lit "-P" ∷ (num target.ssh.port ∷ []) ∷ []))

unfoldable pub scp_from_argv : Target → Text → Text → List Text
scp_from_argv target remote_path local_path =
    scp_base target ++ ((login target ++ str ":" ∷ remote_path) ∷ local_path ∷ [])

unfoldable pub scp_to_argv : Target → Text → Text → List Text
scp_to_argv target local_path remote_path =
    scp_base target ++ (local_path ∷ (login target ++ str ":" ∷ remote_path) ∷ [])

-- `_systemctl`: with sudo unless the login is root.
unfoldable pub systemctl : Node → String → Text
systemctl node verb =
    let cmd = str "systemctl " ∷ str verb ∷ str " " ∷ str node.service.unit ∷ [] in
    if node.ssh.user == "root" then cmd else str "sudo -n " ∷ cmd

-- The exit code as a text.
abbrev pub exit_code_text : ExitCode → Text
exit_code_text (exited n) = num n ∷ []
exit_code_text (killed n) = str "-" ∷ num n ∷ []

-- `f"exit {r.exit_code}"`
abbrev pub exit_text : ExitCode → Text
exit_text (exited n) = str "exit " ∷ num n ∷ []
exit_text (killed n) = str "exit -" ∷ num n ∷ []

-- The error field of a step: `None if r.ok else (r.stderr.strip() or f"exit {r.exit_code}")`
unfoldable pub error_text : CommandResult → Option Text
unfolding strip
error_text r =
    if ok r
    then none
    else if strip r.stderr == ""
    then some (exit_text r.exit_code)
    else some (lit (strip r.stderr))

module _ (env : Env) where
  -- `runner(argv)`
  unfoldable pub run_argv : List Text → Action CommandResult
  run_argv argv w = (env.runner w.effects argv, after w (ran argv))

  unfoldable pub run : Target → Text → Action CommandResult
  unfolding run_argv ssh_argv
  run target command = run_argv (ssh_argv target command)
