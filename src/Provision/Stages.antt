-- ===== src/Provision/Stages.antt =====
-- The stages of src/solfleet/provision.py but for the disks: each runs at most one command on the host.
use Prim.Native.Nat.{◌%◌}
use solfleet.Prelude.{
  ℕ, ◌+◌, ◌*◌, ◌/◌, Bool, false, ◌&&◌, ◌||◌, List, [], ◌∷◌, ◌++◌, String, Option, none, some, map,
  ◌==◌, leb, ltb, eqb, if◌then◌else◌,
}
use solfleet.Prelude.Text.{Text, lit, str, num, repr, opt_num}
use solfleet.Prelude.Dict.{Dict, lookup}
use solfleet.Prelude.Strings.{strip, splitlines, to_int}
use solfleet.Safety.{Checks, failed_messages}
use solfleet.Config.{Node}
use solfleet.Executor.{CommandResult, ok, Env, Action, ◌>>=◌, pure, node_target, run, error_text}
use solfleet.Executor.Inspect.{key_values}
use solfleet.Executor.Steps.{Step, step_of, join_and}
use solfleet.Provision.{gib, provision_min_ram_gib, provision_min_cores, joined_by}

pub record Preflight : Type 0 where
  pub info : Dict String
  pub checks : Checks

abbrev pub blockers : Preflight → List Text
blockers pre = failed_messages pre.checks

-- `int(info[k]) if info.get(k, "").isdigit() else None`
abbrev pub int_field : Option String → Option ℕ
int_field none = none
int_field (some s) = to_int s

abbrev pub or_zero : Option ℕ → ℕ
or_zero none = 0
or_zero (some n) = n

-- `round(bytes / GIB, 1)` in tenths, half to even. The quotient of two integers by a power of two is exact.
abbrev pub gib_tenths : ℕ → ℕ
gib_tenths bytes =
    let q = bytes * 10 / gib in
    let r = (bytes * 10) % gib in
    if ltb gib (r + r) || (eqb gib (r + r) && eqb (q % 2) 1) then q + 1 else q

abbrev is_x86_64 : Option String → Bool
is_x86_64 none = false
is_x86_64 (some arch) = arch == "x86_64"

abbrev preflight_command : Text
preflight_command =
    str "printf 'os=%s\\n' \"$(. /etc/os-release 2>/dev/null; echo $ID$VERSION_ID)\"; "
    ∷ str "printf 'arch=%s\\n' \"$(uname -m)\"; "
    ∷ str "printf 'cores=%s\\n' \"$(nproc)\"; "
    ∷ str "free -b | awk '/^Mem:/{print \"ram=\"$2}'; "
    ∷ str "printf 'root=%s\\n' \"$(id -u)\""
    ∷ []

unfoldable pub preflight_answer : CommandResult → Preflight
unfolding key_values splitlines lookup to_int
preflight_answer r =
    let info = key_values [] (splitlines r.stdout) in
    let cores = int_field (lookup "cores" info) in
    let ram = or_zero (int_field (lookup "ram" info)) in
    record {
      info = info;
      checks =
          (ok r, lit "host not reachable over SSH")
          ∷ (
            is_x86_64 (lookup "arch" info),
            str "unsupported arch " ∷ repr (lookup "arch" info) ∷ str " (need x86_64)" ∷ [],
          )
          ∷ (
            leb provision_min_cores (or_zero cores),
            str "only "
                ∷ opt_num cores
                ∷ str " cores (want >= "
                ∷ num provision_min_cores
                ∷ str ")"
                ∷ [],
          )
          ∷ (
            leb (provision_min_ram_gib * gib) ram,
            str "only "
                ∷ num (gib_tenths ram / 10)
                ∷ str "."
                ∷ num (gib_tenths ram % 10)
                ∷ str " GiB RAM (want >= "
                ∷ num provision_min_ram_gib
                ∷ str ")"
                ∷ [],
          )
          ∷ [];
    }

abbrev sysctl_line : String × ℕ → Text
sysctl_line (k, v) = str k ∷ str " = " ∷ num v ∷ []

-- The governor is set if it is neither `None` nor empty.
abbrev governor_command : Option String → List Text
governor_command none = []
governor_command (some governor) =
    if governor == ""
    then []
    else (str "for g in /sys/devices/system/cpu/cpu*/cpufreq/scaling_governor; do "
        ∷ str "[ -w \"$g\" ] && echo "
        ∷ str governor
        ∷ str " > \"$g\" || true; done"
        ∷ [])
      ∷ []

abbrev system_commands : Node → List Text
system_commands node =
    lit "install -d -m 755 /etc/sysctl.d /etc/security/limits.d"
    ∷ (str "printf '%s\\n' '" ∷ joined_by "\n" (map sysctl_line node.system.sysctl)
        ++ (str "' > /etc/sysctl.d/21-solfleet.conf" ∷ []))
    ∷ lit "sysctl --system >/dev/null"
    ∷ (str "printf '%s soft nofile "
        ∷ num node.system.open_files
        ∷ str "\\n%s hard nofile "
        ∷ num node.system.open_files
        ∷ str "\\n' '"
        ∷ str node.service.run_user
        ∷ str "' '"
        ∷ str node.service.run_user
        ∷ str "' > /etc/security/limits.d/90-solfleet.conf"
        ∷ [])
    ∷ governor_command node.system.cpu_governor

abbrev pub unit_path : Node → Text
unit_path node = str "/etc/systemd/system/" ∷ str node.service.unit ∷ str ".service" ∷ []

abbrev unit_command : Node → Text → Text
unit_command node unit_text =
    str "install -d -m 755 /etc/solana-validator; cat > " ∷ unit_path node
    ++ (str ".solfleet-new <<'SOLFLEET_UNIT'\n" ∷ unit_text
        ++ (str "\nSOLFLEET_UNIT\nmv -f " ∷ unit_path node
            ++ (str ".solfleet-new " ∷ unit_path node
                ++ (str " && systemctl daemon-reload && systemctl enable "
                    ∷ str node.service.unit
                    ∷ str " >/dev/null 2>&1 || true"
                    ∷ []))))

-- A check for a keypair: its path and whether it is in place.
pub record KeyCheck : Type 0 where
  pub path : Option String
  pub present : Bool

abbrev key_command : String → Text
key_command path = str "test -f " ∷ str path ∷ str " && echo present || echo missing" ∷ []

module _ (env : Env) (node : Node) where
  unfoldable pub preflight : Action Preflight
  unfolding run preflight_answer
  preflight = do r ← run env (node_target node) preflight_command; pure (preflight_answer r)

  unfoldable pub ensure_user : Action Step
  unfolding run error_text
  ensure_user = do
    r ← run env (node_target node) (
        str "id -u "
        ∷ str node.service.run_user
        ∷ str " >/dev/null 2>&1 || useradd --system --create-home --shell /usr/sbin/nologin "
        ∷ str node.service.run_user
        ∷ [])
    pure (step_of r)

  unfoldable pub apply_system : Action Step
  unfolding run error_text
  apply_system = do
    r ← run env (node_target node) (join_and (system_commands node))
    pure (step_of r)

  unfoldable pub install_unit : Text → Action Step
  unfolding run error_text
  install_unit unit_text = do
    r ← run env (node_target node) (unit_command node unit_text)
    pure (step_of r)

  abbrev key_present : String → Action KeyCheck
  key_present path = do
    r ← run env (node_target node) (key_command path)
    pure (record { path = some path; present = ok r && strip r.stdout == "present" })

  unfoldable pub check_identity_key : Action KeyCheck
  unfolding run strip
  check_identity_key = key_present node.service.identity_keypair

  abbrev pub vote_key_at : Option String → Action KeyCheck
  vote_key_at none = pure (record { path = none; present = false })
  vote_key_at (some path) =
      if path == "" then pure (record { path = none; present = false }) else key_present path

  unfoldable pub check_vote_key : Action KeyCheck
  unfolding run strip
  check_vote_key = vote_key_at node.service.vote_account_keypair
