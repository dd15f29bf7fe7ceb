-- ===== src/Provision/Formats/Commands.antt =====
-- The commands that src/solfleet/provision.py runs on the host that it provisions, but for the format of a
-- device, written out.
use mathlib.Core.List.{Mem}
use mathlib.Core.Path.{subst}
use solfleet.Prelude.{
  ℕ, true, false, List, [], ◌∷◌, ◌++◌, String, Option, none, some, map, ◌==◌, ◌≡◌, refl, ap,
  if◌then◌else◌,
}
use solfleet.Prelude.Text.{Text, lit, str, num}
use solfleet.Config.{Node, DiskConfig}
use solfleet.Executor.Steps.{Swap, swap_parts, join_and}
use solfleet.Provision.{fs_name, joined_by}
use solfleet.Provision.Disks.{tmpfs_size}

abbrev setting : String × ℕ → Text
setting (k, v) = str k ∷ str " = " ∷ num v ∷ []

abbrev governor_part : Option String → List Text
governor_part none = []
governor_part (some governor) =
    if governor == ""
    then []
    else (str "for g in /sys/devices/system/cpu/cpu*/cpufreq/scaling_governor; do "
        ∷ str "[ -w \"$g\" ] && echo "
        ∷ str governor
        ∷ str " > \"$g\" || true; done"
        ∷ [])
      ∷ []

-- A file is moved to its destination, and made executable if it is to be.
abbrev moved : Swap → List Text
moved (staged, dest, true) =
    (str "mv -f " ∷ staged ++ str " " ∷ dest) ∷ (str "chmod 755 " ∷ dest) ∷ []
moved (staged, dest, false) = (str "mv -f " ∷ staged ++ str " " ∷ dest) ∷ []

abbrev all_moved : List Swap → List Text
all_moved [] = []
all_moved (swap ∷ swaps) = moved swap ++ all_moved swaps

-- A command on the host: the questions of the preflight, the user, the settings of the system, the probe and
-- the mount of a disk of the node, the checksum of a file, the moves of files, the unit, the test for a
-- keypair, and the start of the service.
pub data HostCommand (node : Node) : Text → Type 0 where
  preflights : HostCommand node (
      str "printf 'os=%s\\n' \"$(. /etc/os-release 2>/dev/null; echo $ID$VERSION_ID)\"; "
      ∷ str "printf 'arch=%s\\n' \"$(uname -m)\"; "
      ∷ str "printf 'cores=%s\\n' \"$(nproc)\"; "
      ∷ str "free -b | awk '/^Mem:/{print \"ram=\"$2}'; "
      ∷ str "printf 'root=%s\\n' \"$(id -u)\""
      ∷ [])
  adds_user : HostCommand node (
      str "id -u "
      ∷ str node.service.run_user
      ∷ str " >/dev/null 2>&1 || useradd --system --create-home --shell /usr/sbin/nologin "
      ∷ str node.service.run_user
      ∷ [])
  sets_system : HostCommand node (
      join_and (
        lit "install -d -m 755 /etc/sysctl.d /etc/security/limits.d"
        ∷ (str "printf '%s\\n' '" ∷ joined_by "\n" (map setting node.system.sysctl)
            ++ (str "' > /etc/sysctl.d/21-solfleet.conf" ∷ []))
        ∷ lit "sysctl --system >/dev/null"
        ∷ (str "printf '%s soft nofile "
            ∷ num node.system.open_files
            ∷ str "\\n%s hard nofile "
            ∷ num node.system.open_files
            ∷ str "\\n' '"
            ∷ str node.service.run_user
            ∷ str "' '"
            ∷ str node.service.run_user
            ∷ str "' > /etc/security/limits.d/90-solfleet.conf"
            ∷ [])
        ∷ governor_part node.system.cpu_governor))
  probes :
      (disk : DiskConfig)
      → Mem disk node.disks
      → HostCommand node (
          str "lsblk -no FSTYPE "
          ∷ str disk.device
          ∷ str " 2>/dev/null; findmnt -nro TARGET "
          ∷ str disk.device
          ∷ str " 2>/dev/null"
          ∷ [])
  mounts_memory :
      (disk : DiskConfig)
      → Mem disk node.disks
      → HostCommand node (
          str "mkdir -p "
            ∷ str disk.mount
            ∷ str " && "
            ∷ str "grep -q ' "
            ∷ str disk.mount
            ∷ str " ' /etc/fstab || echo 'tmpfs "
            ∷ str disk.mount
            ∷ str " tmpfs "
            ∷ tmpfs_size disk.size_gb
          ++ (str " 0 0' >> /etc/fstab" ∷ [])
          ++ (str " && "
              ∷ str "mountpoint -q "
              ∷ str disk.mount
              ∷ str " || mount "
              ∷ str disk.mount
              ∷ str " && "
              ∷ str "chown "
              ∷ str node.service.run_user
              ∷ str ":"
              ∷ str node.service.run_user
              ∷ str " "
              ∷ str disk.mount
              ∷ []))
  mounts_device :
      (disk : DiskConfig)
      → Mem disk node.disks
      → HostCommand node (
          str "mkdir -p "
          ∷ str disk.mount
          ∷ str " && "
          ∷ str "uuid=$(blkid -s UUID -o value "
          ∷ str disk.device
          ∷ str ") && (grep -q \"$uuid\" /etc/fstab || echo \"UUID=$uuid "
          ∷ str disk.mount
          ∷ str " "
          ∷ str (fs_name disk.fs)
          ∷ str " defaults,noatime 0 2\" >> /etc/fstab)"
          ∷ str " && "
          ∷ str "mountpoint -q "
          ∷ str disk.mount
          ∷ str " || mount "
          ∷ str disk.mount
          ∷ str " && "
          ∷ str "chown "
          ∷ str node.service.run_user
          ∷ str ":"
          ∷ str node.service.run_user
          ∷ str " "
          ∷ str disk.mount
          ∷ [])
  sums : (path : Text) → HostCommand node (str "sha256sum " ∷ path)
  moves : (swaps : List Swap) → HostCommand node (join_and (all_moved swaps))
  installs_unit :
      (path content : Text)
      → path ≡ str "/etc/systemd/system/" ∷ str node.service.unit ∷ str ".service" ∷ []
      → HostCommand node (
          str "install -d -m 755 /etc/solana-validator; cat > " ∷ path
          ++ (str ".solfleet-new <<'SOLFLEET_UNIT'\n" ∷ content
              ++ (str "\nSOLFLEET_UNIT\nmv -f " ∷ path
                  ++ (str ".solfleet-new " ∷ path
                      ++ (str " && systemctl daemon-reload && systemctl enable "
                          ∷ str node.service.unit
                          ∷ str " >/dev/null 2>&1 || true"
                          ∷ [])))))
  tests_key :
      (path : String)
      → HostCommand node (str "test -f " ∷ str path ∷ str " && echo present || echo missing" ∷ [])
  starts : HostCommand node (
      if node.ssh.user == "root"
      then str "systemctl " ∷ str "start" ∷ str " " ∷ str node.service.unit ∷ []
      else str "sudo -n " ∷ str "systemctl " ∷ str "start" ∷ str " " ∷ str node.service.unit ∷ [])

all_moved-swap_parts : (swaps : List Swap) → all_moved swaps ≡ swap_parts swaps
all_moved-swap_parts [] = refl
all_moved-swap_parts ((staged, dest, true) ∷ swaps) =
    ap (λ parts. moved (staged, dest, true) ++ parts) (all_moved-swap_parts swaps)
all_moved-swap_parts ((staged, dest, false) ∷ swaps) =
    ap (λ parts. moved (staged, dest, false) ++ parts) (all_moved-swap_parts swaps)

pub HostCommand-swaps :
    (node : Node) (swaps : List Swap) → HostCommand node (join_and (swap_parts swaps))
HostCommand-swaps node swaps =
    subst (λ parts. HostCommand node (join_and parts)) (all_moved-swap_parts swaps) (moves swaps)
