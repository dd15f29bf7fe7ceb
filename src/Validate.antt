-- ===== src/Validate.antt =====
-- src/solfleet/validate.py: the checks of a fleet that change nothing. The answer of the prober and the
-- environment variables are parameters.
pub mod Run
pub mod Failures
pub mod Reads
use Prim.Native.Nat.{◌%◌}
use solfleet.Prelude.{
  ℕ, ◌*◌, ◌/◌, Bool, true, false, ◌&&◌, ◌||◌, not, List, [], ◌∷◌, ◌++◌, String, Option, none, some,
  any, eqb, leb, truthy, ◌==◌, if◌then◌else◌,
}
use solfleet.Prelude.Text.{Text, Piece, lit, str, num, strs, nothing, opt_num}
use solfleet.Prelude.Dict.{Dict, lookup, insert}
use solfleet.Prelude.Strings.{strip, splitlines, partition_eq}
use solfleet.Safety.{PolicyRules, disk_free_ok}
use solfleet.Config.{Node, DnsConfig, cloudflare, route53, rpc, validator}
use solfleet.Probe.{NodeStatus}
use solfleet.Executor.{CommandResult, ok}
use solfleet.Executor.Inspect.{DiskRow, usage, missing, Inspection}
use solfleet.Operations.Restart.{use_pcts}
use solfleet.Provision.{gib}
use solfleet.Provision.Stages.{gib_tenths, int_field, or_zero}

abbrev pub builder_min_cores : ℕ
builder_min_cores = 8

abbrev pub builder_min_ram_gib : ℕ
builder_min_ram_gib = 16

abbrev pub builder_min_disk_gib : ℕ
builder_min_disk_gib = 60

pub data Status : Type 0 where
  pass warn fail : Status

pub record Check : Type 0 where
  pub name : String
  pub status : Status
  pub detail : Text

abbrev check : String → Status → Text → Check
check name status detail = record { name = name; status = status; detail = detail }

-- `{s}` of a `str | None`
abbrev opt_str : Option String → Piece
opt_str none = nothing
opt_str (some s) = str s

abbrev or_unreachable : Option Text → Text
or_unreachable none = lit "unreachable"
or_unreachable (some error) = error

abbrev is_active : Option String → Bool
is_active none = false
is_active (some active) = active == "active"

abbrev or_no_version : Option String → Text
or_no_version none = lit "no version reported"
or_no_version (some version) = if version == "" then lit "no version reported" else lit version

-- `[d.get("path") for d in disk if "error" in d]`
abbrev missing_paths : List DiskRow → List String
missing_paths [] = []
missing_paths (missing path error ∷ rows) = path ∷ missing_paths rows
missing_paths (usage _ _ _ _ _ _ ∷ rows) = missing_paths rows

abbrev disks_check : List String → Check
disks_check [] = check "disks" pass (lit "mounts present")
disks_check (path ∷ paths) = check "disks" fail (str "missing mounts: " ∷ strs (path ∷ paths) ∷ [])

-- The checks behind a login that worked.
unfoldable pub reachable_checks : PolicyRules → Inspection → List Check
unfolding use_pcts disk_free_ok
reachable_checks rules insp =
    check "service" (if is_active insp.service.active then pass else warn)
      (str "active=" ∷ opt_str insp.service.active ∷ [])
    ∷ check "binary" (if truthy insp.version.binary_version then pass else warn)
        (or_no_version insp.version.binary_version)
    ∷ disks_check (missing_paths insp.disk)
    ∷ (if disk_free_ok rules (use_pcts insp.disk)
        then []
        else check "disk_free" warn
            (str "below policy floor min_disk_free_pct=" ∷ opt_num rules.min_disk_free_pct ∷ [])
          ∷ [])

abbrev is_true : Option Bool → Bool
is_true (some true) = true
is_true _ = false

abbrev is_false : Option Bool → Bool
is_false (some false) = true
is_false _ = false

unfoldable pub rpc_check : Option NodeStatus → Check
rpc_check none = check "rpc" fail (lit "rpc unreachable")
rpc_check (some status) =
    if status.reachable && is_true status.healthy
    then check "rpc" pass (str "healthy, lag=" ∷ opt_num status.slot_lag ∷ [])
    else if is_false status.healthy
    then check "rpc" warn (lit "reachable but behind/unhealthy")
    else check "rpc" fail (lit "rpc unreachable")

abbrev lacks_identity : Node → Bool
lacks_identity node = elim node.role [ validator ↦ not (truthy node.identity) | rpc ↦ false ]

-- `_node_checks` from the inspection of the node.
unfoldable pub node_checks : Node → Option NodeStatus → PolicyRules → Inspection → List Check
unfolding reachable_checks rpc_check
node_checks node status rules insp =
    (if insp.service.ok
      then check "ssh" pass (lit "reachable") ∷ reachable_checks rules insp
      else check "ssh" fail (or_unreachable insp.service.error) ∷ [])
    ++ ((if truthy node.rpc_url then rpc_check status ∷ [] else [])
        ++ (if lacks_identity node
            then check "identity" fail (lit "validator has no identity pubkey") ∷ []
            else []))

abbrev pub specs_command : Text
specs_command =
    str "printf 'cores=%s\\n' \"$(nproc)\"; "
    ∷ str "free -b | awk '/^Mem:/{print \"ram=\"$2}'; "
    ∷ str "df -PB1 / | awk 'NR==2{print \"disk=\"$4}'; "
    ∷ str "(command -v cargo >/dev/null && command -v rustc >/dev/null "
    ∷ str "&& echo toolchain=ok || echo toolchain=missing)"
    ∷ []

-- `if "=" in line: k, _, v = line.partition("="); out[k.strip()] = v.strip()`
abbrev set_spec : Dict String → Option (String × String) → Dict String
set_spec specs none = specs
set_spec specs (some (k, v)) = insert (strip k) (strip v) specs

unfoldable pub parse_specs : Dict String → List String → Dict String
unfolding insert partition_eq strip
parse_specs specs [] = specs
parse_specs specs (line ∷ lines) = parse_specs (set_spec specs (partition_eq line)) lines

-- The dict of `_builder_specs` but for the key `reachable`: `none` where that is false. A line can set it.
unfoldable pub builder_specs : CommandResult → Option (Dict String)
unfolding parse_specs splitlines
builder_specs r = if ok r then some (parse_specs [] (splitlines r.stdout)) else none

abbrev is_reachable : Dict String → Bool
is_reachable specs = elim (lookup "reachable" specs) [ none ↦ true | some v ↦ not (v == "") ]

-- `{round(n / GIB, 1) if n else None}`
abbrev gib_text : ℕ → Text
gib_text n =
    if eqb n 0
    then nothing ∷ []
    else num (gib_tenths n / 10) ∷ str "." ∷ num (gib_tenths n % 10) ∷ []

abbrev enough : Bool → Status
enough is_enough = if is_enough then pass else warn

abbrev has_toolchain : Option String → Bool
has_toolchain none = false
has_toolchain (some v) = v == "ok"

abbrev spec_checks : Dict String → List Check
spec_checks specs =
    let cores = int_field (lookup "cores" specs) in
    let ram = or_zero (int_field (lookup "ram" specs)) in
    let disk = or_zero (int_field (lookup "disk" specs)) in
    let toolchain = has_toolchain (lookup "toolchain" specs) in
    check "ssh" pass (lit "reachable")
    ∷ check "cores" (enough (leb builder_min_cores (or_zero cores)))
        (opt_num cores ∷ str " (want >= " ∷ num builder_min_cores ∷ str " for agave builds)" ∷ [])
    ∷ check "ram" (enough (leb (builder_min_ram_gib * gib) ram))
        (gib_text ram ++ (str " GiB (want >= " ∷ num builder_min_ram_gib ∷ str ")" ∷ []))
    ∷ check "disk_free" (enough (leb (builder_min_disk_gib * gib) disk)) (
        gib_text disk ++ (str " GiB free on / (want >= " ∷ num builder_min_disk_gib ∷ str ")" ∷ []))
    ∷ check "toolchain" (enough toolchain) (
        lit
          (if toolchain then "cargo+rustc present" else "no cargo/rustc (install before building)"))
    ∷ []

-- `_builder_checks` from the specs.
unfoldable pub builder_checks : Option (Dict String) → List Check
unfolding lookup
builder_checks none = check "ssh" fail (lit "unreachable") ∷ []
builder_checks (some specs) =
    if is_reachable specs then spec_checks specs else check "ssh" fail (lit "unreachable") ∷ []

-- The environment variables are given by their names.
unfoldable pub dns_checks : (String → Option String) → Option DnsConfig → List Check
dns_checks environ none = []
dns_checks environ (some dns) = elim dns.provider [
  | cloudflare ↦
      let present = truthy (environ "CLOUDFLARE_API_TOKEN") in
      check "cloudflare_token" (enough present) (
        lit (
          if present
          then "CLOUDFLARE_API_TOKEN set"
          else "CLOUDFLARE_API_TOKEN not set (DNS ops will fail)"))
      ∷ []
  | route53 ↦
      let present = truthy (environ "AWS_ACCESS_KEY_ID") || truthy (environ "AWS_PROFILE") in
      check "aws_creds" (enough present)
        (lit (if present then "AWS creds present" else "no AWS creds in env"))
      ∷ []
]

abbrev pub is_fail : Status → Bool
is_fail fail = true
is_fail _ = false

abbrev is_warn : Status → Bool
is_warn warn = true
is_warn _ = false

unfoldable pub worst : List Check → Status
worst checks =
    if any checks (λ c. is_fail c.status)
    then fail
    else if any checks (λ c. is_warn c.status)
    then warn
    else pass
