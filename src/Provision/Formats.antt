-- ===== src/Provision/Formats.antt =====
-- Which devices a run of src/solfleet/provision.py formats.
pub mod Commands
pub mod Run
use mathlib.Core.List.{Mem, mem-cons_self, mem-cons_of_mem}
use solfleet.Prelude.{
  ℕ, Bool, true, false, ◌&&◌, List, [], ◌∷◌, ◌++◌, String, mem, ◌==◌, Bool-cases, inl, inr, ◌≡◌,
  ◌⊎◌, if◌then◌else◌,
}
use solfleet.Prelude.Text.{Text}
use solfleet.Prelude.Strings.{strip}
use solfleet.Config.{Node, BuilderHost, DiskConfig, FileSystem, ext4, xfs, tmpfs}
use solfleet.Executor.{
  Env, World, after, Effect, ran, sampled, slept, node_target, builder_target, ssh_argv,
  scp_from_argv, scp_to_argv, run, ok,
}
use solfleet.Executor.Frames.{Traces-after, traces, Keeps, chain, run-Keeps}
use solfleet.Provision.Disks.{
  setup_by, setup_disk, setup_disks, setup_device, after_probe, format_device, after_mkfs,
  mount_device, mkfs_command, probe_command, tmpfs_command,
}
use solfleet.Provision.Formats.Commands.{HostCommand, probes, mounts_memory, mounts_device}
use solfleet.Provision.Guards.{probe, is_blank}

-- What a run does, behind all that was done before: on the host one of the commands that are written
-- out, or, right behind a probe that found it blank, the format of a disk of the node that is configured for it and
-- acknowledged; a command on one of the builders and a copy from it; a copy to the host; the samples and
-- waits of the catch-up.
pub data Provisioning (env : Env) (Builds : BuilderHost → Type 0) (node : Node)
    (allow_format : List String) : List Effect → Effect → Type 0 where
  formats :
      (disk : DiskConfig) (before : List Effect)
      → Mem disk node.disks
      → disk.format ≡ true
      → mem disk.device allow_format ≡ true
      → is_blank env node disk allow_format before ≡ true
      → Provisioning env Builds node allow_format
          (before ++ probe env node disk allow_format ∷ [])
          (ran (ssh_argv (node_target node) (mkfs_command disk)))
  commands :
      (cmd : Text)
      → HostCommand node cmd
      → (before : List Effect)
      → Provisioning env Builds node allow_format before (ran (ssh_argv (node_target node) cmd))
  builds :
      (b : BuilderHost) (cmd : Text)
      → Builds b
      → (before : List Effect)
      → Provisioning env Builds node allow_format before (ran (ssh_argv (builder_target b) cmd))
  pulls :
      (b : BuilderHost) (remote here : Text)
      → Builds b
      → (before : List Effect)
      → Provisioning env Builds node allow_format before
          (ran (scp_from_argv (builder_target b) remote here))
  pushes :
      (here dest : Text) (before : List Effect)
      → Provisioning env Builds node allow_format before
          (ran (scp_to_argv (node_target node) here dest))
  samples :
      (name reference : String) (before : List Effect)
      → Provisioning env Builds node allow_format before (sampled name reference)
  waits :
      (seconds : ℕ) (before : List Effect)
      → Provisioning env Builds node allow_format before (slept seconds)

module _ (env : Env) (Builds : BuilderHost → Type 0) (node : Node)
    (allow_format : List String) where
  abbrev P : List Effect → Effect → Type 0
  P = Provisioning env Builds node allow_format

  pub command-Keeps :
      (cmd : Text) → HostCommand node cmd → Keeps (traces P) (run env (node_target node) cmd)
  command-Keeps cmd plain = run-Keeps (traces P) env (node_target node) cmd (commands cmd plain)

  module _ (disk : DiskConfig) (of_node : Mem disk node.disks) where
    mount_device-Keeps :
        (formatted empty : Bool) → Keeps (traces P) (mount_device env node disk formatted empty)
    unfolding mount_device
    mount_device-Keeps formatted empty = command-Keeps _ (mounts_device disk of_node)

    -- The world behind the probe.
    abbrev probed : World → World
    probed w = after w (probe env node disk allow_format)

    format_device-Keeps :
        (empty : Bool) (w : World)
        → disk.format ≡ true
        → mem disk.device allow_format ≡ true
        → is_blank env node disk allow_format w.effects ≡ true
        → (traces P).Kept (probed w) (format_device env node disk empty (probed w)).1
    unfolding format_device after_mkfs run solfleet.Executor.run_argv
    format_device-Keeps empty w configured known blank =
        let here =
          Traces-after P (probed w) (ran (ssh_argv (node_target node) (mkfs_command disk)))
            (formats disk w.effects of_node configured known blank) in
        elim (Bool-cases (ok (run env (node_target node) (mkfs_command disk) (probed w)).0)) [
          | inl made ↦
              rw (made, format_device) (chain (traces P) here (mount_device-Keeps true empty _))
          | inr failed ↦ rw (failed, format_device) here
        ]

    after_probe-Keeps :
        (w : World)
        → (traces P).Kept
            (probed w)
            (after_probe env node disk allow_format
              (strip
                (env.runner w.effects (ssh_argv (node_target node) (probe_command disk))).stdout)
              (probed w)).1
    unfolding after_probe
    after_probe-Keeps w =
        let existing =
          strip (env.runner w.effects (ssh_argv (node_target node) (probe_command disk))).stdout in
        elim (Bool-cases disk.format) [
          | inr keep ↦ rw (keep, after_probe) (mount_device-Keeps false (existing == "") (probed w))
          | inl configured ↦ elim (Bool-cases (mem disk.device allow_format)) [
            | inr unknown ↦
                rw (configured, after_probe, unknown, after_probe) ((traces P).kept_refl (probed w))
            | inl known ↦ elim (Bool-cases (existing == "")) [
              | inr used ↦
                  rw (configured, after_probe, known, after_probe, used, after_probe)
                    ((traces P).kept_refl (probed w))
              | inl blank ↦
                  rw (configured, after_probe, known, after_probe, blank, after_probe)
                    (format_device-Keeps true w configured known blank)
            ]
          ]
        ]

    setup_device-Keeps : Keeps (traces P) (setup_device env node disk allow_format)
    unfolding setup_device run solfleet.Executor.run_argv
    setup_device-Keeps w =
        chain (traces P)
          ((traces P).kept_after w _ (commands (probe_command disk) (probes disk of_node)))
          (after_probe-Keeps w)

    setup_by-Keeps : (fs : FileSystem) → Keeps (traces P) (setup_by env node disk fs allow_format)
    setup_by-Keeps tmpfs w = command-Keeps (tmpfs_command node disk) (mounts_memory disk of_node) w
    setup_by-Keeps ext4 w = setup_device-Keeps w
    setup_by-Keeps xfs w = setup_device-Keeps w

  pub setup_disks-Keeps :
      (disks : List DiskConfig)
      → ((d : DiskConfig) → Mem d disks → Mem d node.disks)
      → Keeps (traces P) (setup_disks env node allow_format disks)
  unfolding setup_disks setup_disk
  setup_disks-Keeps [] sub w = (traces P).kept_refl w
  setup_disks-Keeps (disk ∷ disks) sub w =
      chain (traces P) (setup_by-Keeps disk (sub disk mem-cons_self) disk.fs w)
        (setup_disks-Keeps disks (λ d m. sub d (mem-cons_of_mem disk m)) _)
