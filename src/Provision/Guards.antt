-- ===== src/Provision/Guards.antt =====
-- When `setup_disk` of src/solfleet/provision.py refuses to format a device.
use solfleet.Prelude.{
  Bool, true, false, ◌&&◌, List, [], ◌∷◌, ◌++◌, String, mem, ◌==◌, ◌≡◌, refl, inl, inr, Bool-cases,
  ap,
}
use solfleet.Prelude.Strings.{strip}
use solfleet.Config.{Node, DiskConfig, FileSystem, ext4, xfs, tmpfs}
use solfleet.Executor.{Env, World, Effect, ran, node_target, ssh_argv, run}
use solfleet.Provision.Disks.{
  disk_ok, probe_command, setup_disk, setup_device, setup_by, after_probe,
}

abbrev pub is_device : FileSystem → Bool
is_device ext4 = true
is_device xfs = true
is_device tmpfs = false

module _ (env : Env) (node : Node) (disk : DiskConfig) (allow_format : List String) where
  abbrev pub probe : Effect
  probe = ran (ssh_argv (node_target node) (probe_command disk))

  -- The probe finds no file system and no mount on the device.
  abbrev pub is_blank : List Effect → Bool
  is_blank es =
      strip (env.runner es (ssh_argv (node_target node) (probe_command disk))).stdout == ""

  after_probe_refuses :
      (existing : String) (w : World)
      → disk.format ≡ true
      → (mem disk.device allow_format && (existing == "")) ≡ false
      → (disk_ok (after_probe env node disk allow_format existing w).0 ≡ false)
        × ((after_probe env node disk allow_format existing w).1 ≡ w)
  unfolding after_probe
  after_probe_refuses existing w formats refused =
      elim (Bool-cases (mem disk.device allow_format)) [
        | inr unknown ↦ rw (formats, after_probe, unknown, after_probe) (refl, refl)
        | inl known ↦ elim (Bool-cases (existing == "")) [
          | inr used ↦ rw (formats, after_probe, known, after_probe, used, after_probe) (refl, refl)
          | inl blank ↦ cc (known, blank, refused)
        ]
      ]

  setup_by_device :
      (fs : FileSystem)
      → is_device fs ≡ true
      → setup_by env node disk fs allow_format ≡ setup_device env node disk allow_format
  setup_by_device ext4 h = refl
  setup_by_device xfs h = refl
  setup_by_device tmpfs h = cc

  setup_device_refuses :
      (w : World)
      → disk.format ≡ true
      → (mem disk.device allow_format && is_blank w.effects) ≡ false
      → (disk_ok (setup_device env node disk allow_format w).0 ≡ false)
        × ((setup_device env node disk allow_format w).1.effects ≡ w.effects ++ probe ∷ [])
  unfolding setup_device run solfleet.Executor.run_argv
  setup_device_refuses w formats refused =
      let (bad, still) = after_probe_refuses _ _ formats refused in (bad, ap (λ v. v.effects) still)

  -- On a block device that is configured to be formatted, but was not acknowledged or is not blank, the
  -- disk setup fails and runs nothing but the probe.
  pub setup_disk_refuses :
      (w : World)
      → is_device disk.fs ≡ true
      → disk.format ≡ true
      → (mem disk.device allow_format && is_blank w.effects) ≡ false
      → (disk_ok (setup_disk env node disk allow_format w).0 ≡ false)
        × ((setup_disk env node disk allow_format w).1.effects ≡ w.effects ++ probe ∷ [])
  unfolding setup_disk
  setup_disk_refuses w device formats refused =
      rw (setup_by_device disk.fs device) (setup_device_refuses w formats refused)
