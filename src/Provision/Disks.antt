-- ===== src/Provision/Disks.antt =====
-- `setup_disk` of src/solfleet/provision.py. The set `allow_format` is a list that is read through `mem`.
use solfleet.Prelude.{
  ℕ, Bool, true, false, List, [], ◌∷◌, ◌++◌, String, Option, none, some, mem, ◌==◌, eqb,
  if◌then◌else◌,
}
use solfleet.Prelude.Text.{Text, lit, str, num, repr}
use solfleet.Prelude.Strings.{strip}
use solfleet.Config.{Node, DiskConfig, FileSystem, ext4, xfs, tmpfs}
use solfleet.Executor.{
  CommandResult, ok, Env, Action, ◌>>=◌, pure, node_target, run, error_text, exit_code_text,
}
use solfleet.Executor.Steps.{Step, step_of, join_and}
use solfleet.Provision.{fs_name}

-- The returned dicts: of a memory file system, of a device that was not prepared, and of one that was, with
-- whether it was formatted and whether it was empty before.
pub data DiskStep : Type 0 where
  in_memory : String → Step → DiskStep
  rejected : String → Text → DiskStep
  prepared : DiskConfig → Bool → Bool → Step → DiskStep

abbrev pub disk_ok : DiskStep → Bool
disk_ok (in_memory mount step) = step.ok
disk_ok (rejected mount error) = false
disk_ok (prepared disk formatted was_empty step) = step.ok

-- `f"size={disk.size_gb}G" if disk.size_gb else "size=50%"`
abbrev pub tmpfs_size : Option ℕ → Text
tmpfs_size none = lit "size=50%"
tmpfs_size (some n) = if eqb n 0 then lit "size=50%" else str "size=" ∷ num n ∷ str "G" ∷ []

abbrev make_mount : DiskConfig → Text
make_mount disk = str "mkdir -p " ∷ str disk.mount ∷ []

abbrev mount_if_needed : DiskConfig → Text
mount_if_needed disk =
    str "mountpoint -q " ∷ str disk.mount ∷ str " || mount " ∷ str disk.mount ∷ []

abbrev own_mount : Node → DiskConfig → Text
own_mount node disk =
    str "chown "
    ∷ str node.service.run_user
    ∷ str ":"
    ∷ str node.service.run_user
    ∷ str " "
    ∷ str disk.mount
    ∷ []

abbrev pub tmpfs_command : Node → DiskConfig → Text
tmpfs_command node disk = join_and (
    make_mount disk
    ∷ (str "grep -q ' "
          ∷ str disk.mount
          ∷ str " ' /etc/fstab || echo 'tmpfs "
          ∷ str disk.mount
          ∷ str " tmpfs "
          ∷ tmpfs_size disk.size_gb
        ++ (str " 0 0' >> /etc/fstab" ∷ []))
    ∷ mount_if_needed disk
    ∷ own_mount node disk
    ∷ [])

abbrev pub mount_command : Node → DiskConfig → Text
mount_command node disk = join_and (
    make_mount disk
    ∷ (str "uuid=$(blkid -s UUID -o value "
        ∷ str disk.device
        ∷ str ") && (grep -q \"$uuid\" /etc/fstab || echo \"UUID=$uuid "
        ∷ str disk.mount
        ∷ str " "
        ∷ str (fs_name disk.fs)
        ∷ str " defaults,noatime 0 2\" >> /etc/fstab)"
        ∷ [])
    ∷ mount_if_needed disk
    ∷ own_mount node disk
    ∷ [])

abbrev pub probe_command : DiskConfig → Text
probe_command disk =
    str "lsblk -no FSTYPE "
    ∷ str disk.device
    ∷ str " 2>/dev/null; findmnt -nro TARGET "
    ∷ str disk.device
    ∷ str " 2>/dev/null"
    ∷ []

abbrev pub mkfs_command : DiskConfig → Text
mkfs_command disk = str "mkfs." ∷ str (fs_name disk.fs) ∷ str " -q " ∷ str disk.device ∷ []

abbrev not_acknowledged : DiskConfig → Text
not_acknowledged disk =
    str "format requested but "
    ∷ str disk.device
    ∷ str " not acknowledged (pass --format-device to allow)"
    ∷ []

abbrev not_empty : DiskConfig → String → Text
not_empty disk existing =
    str "refusing to format "
    ∷ str disk.device
    ∷ str ": not empty/unmounted ("
    ∷ repr (some existing)
    ∷ str ")"
    ∷ []

abbrev mkfs_failed : CommandResult → Text
mkfs_failed r =
    str "mkfs failed: "
    ∷ (if strip r.stderr == "" then exit_code_text r.exit_code else lit (strip r.stderr))

module _ (env : Env) (node : Node) (disk : DiskConfig) where
  abbrev pub setup_tmpfs : Action DiskStep
  setup_tmpfs = do
    r ← run env (node_target node) (tmpfs_command node disk)
    pure (in_memory disk.mount (step_of r))

  unfoldable pub mount_device : Bool → Bool → Action DiskStep
  unfolding run error_text
  mount_device formatted empty = do
    r ← run env (node_target node) (mount_command node disk)
    pure (prepared disk formatted empty (step_of r))

  unfoldable pub after_mkfs : Bool → CommandResult → Action DiskStep
  unfolding mount_device strip
  after_mkfs empty mkfs = elim (ok mkfs) [
    | true ↦ mount_device true empty
    | false ↦ pure (rejected disk.mount (mkfs_failed mkfs))
  ]

  unfoldable pub format_device : Bool → Action DiskStep
  unfolding run after_mkfs
  format_device empty = do
    mkfs ← run env (node_target node) (mkfs_command disk)
    after_mkfs empty mkfs

  -- Behind the probe: the guards of a format, in their order.
  unfoldable pub after_probe : List String → String → Action DiskStep
  unfolding format_device mount_device
  after_probe allow_format existing = elim disk.format [
    | false ↦ mount_device false (existing == "")
    | true ↦ elim (mem disk.device allow_format) [
      | false ↦ pure (rejected disk.mount (not_acknowledged disk))
      | true ↦ elim (existing == "") [
        | false ↦ pure (rejected disk.mount (not_empty disk existing))
        | true ↦ format_device true
      ]
    ]
  ]

  unfoldable pub setup_device : List String → Action DiskStep
  unfolding run strip after_probe
  setup_device allow_format = do
    probe ← run env (node_target node) (probe_command disk)
    after_probe allow_format (strip probe.stdout)

  abbrev pub setup_by : FileSystem → List String → Action DiskStep
  setup_by tmpfs allow_format = setup_tmpfs
  setup_by ext4 allow_format = setup_device allow_format
  setup_by xfs allow_format = setup_device allow_format

  unfoldable pub setup_disk : List String → Action DiskStep
  unfolding run error_text setup_device
  setup_disk allow_format = setup_by disk.fs allow_format

-- `[setup_disk(node, d, ...) for d in node.disks]`
unfoldable pub setup_disks : Env → Node → List String → List DiskConfig → Action (List DiskStep)
unfolding setup_disk
setup_disks env node allow_format [] = pure []
setup_disks env node allow_format (disk ∷ disks) = do
  step ← setup_disk env node disk allow_format
  rest ← setup_disks env node allow_format disks
  pure (step ∷ rest)
