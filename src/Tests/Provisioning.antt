-- ===== src/Tests/Provisioning.antt =====
-- The theorems on the provisioning of a host at the test fleet.
use solfleet.Prelude.{
  Bool, true, false, ◌&&◌, List, [], ◌∷◌, ◌++◌, String, none, some, ◌≡◌, refl, if◌then◌else◌,
}
use solfleet.Prelude.Text.{Text, Piece}
use solfleet.Prelude.Strings.{starts_with}
use solfleet.Config.{Node, DiskConfig, ext4}
use solfleet.Config.Find.{Found, find_builder}
use solfleet.Executor.{Env, exited}
use solfleet.Executor.Frames.{Traces}
use solfleet.Operations.Upgrade.{builder_of}
use solfleet.Provision.Disks.{disk_ok, setup_disk}
use solfleet.Provision.Report.{Provisioned, planned, finished}
use solfleet.Provision.Run.{provision_found}
use solfleet.Provision.Guards.{probe, setup_disk_refuses}
use solfleet.Provision.Formats.{Provisioning}
use solfleet.Provision.Formats.Run.{provision_found_formats}
use solfleet.Tests.Data.{node_a, mainnet, install, fleet, env, world}

abbrev ledger_disk : DiskConfig
ledger_disk = record {
  device = "/dev/nvme0n1";
  mount = "/mnt/ledger";
  fs = ext4;
  format = true;
  min_size_gb = none;
  size_gb = none;
}

abbrev bare : Node
bare = record node_a { disks = ledger_disk ∷ [] }

abbrev found : Found
found = ("mainnet", mainnet, bare)

-- The answer of a bare host to a command, by how the command begins.
abbrev answer : Text → String
answer [] = ""
answer (Piece.str s ∷ _) =
    if starts_with "printf 'os=" s
    then "arch=x86_64\ncores=16\nram=68719476736\n"
    else if starts_with "lsblk" s
    then ""
    else if starts_with "test -f " s
    then "present"
    else "4f2a"
answer (_ ∷ _) = ""

abbrev last_text : List Text → Text
last_text [] = []
last_text (t ∷ []) = t
last_text (t ∷ u ∷ ts) = last_text (u ∷ ts)

abbrev bare_env : Env
bare_env = record env {
  runner = λ effects argv. record {
    exit_code = exited 0;
    stdout = answer (last_text argv);
    stderr = "";
  };
}

-- The device is not acknowledged.
setup_disk_refuses_example :
    (disk_ok (setup_disk env bare ledger_disk [] world).0 ≡ false)
    × ((setup_disk env bare ledger_disk [] world).1.effects
        ≡ world.effects ++ probe env bare ledger_disk [] ∷ [])
setup_disk_refuses_example = setup_disk_refuses env bare ledger_disk [] world refl refl refl

provision_found_formats_example :
    Traces
      (Provisioning bare_env
        (λ b. find_builder fleet (builder_of (some install)) ≡ some b)
        bare
        ("/dev/nvme0n1" ∷ []))
      world
      (provision_found bare_env fleet 2 1800 "/tmp/s"
        ("/dev/nvme0n1" ∷ [])
        true
        "a"
        "4.1.1"
        found
        world).1
provision_found_formats_example =
    provision_found_formats bare_env fleet 2 1800 "/tmp/s" ("/dev/nvme0n1" ∷ []) true "a" "4.1.1"
      found world

abbrev succeeds : Provisioned → Bool
succeeds (planned _ _) = false
succeeds (finished _ _ succeeded _) = succeeded

-- The host is provisioned.
bare_succeeds :
    succeeds
      (provision_found bare_env fleet 2 1800 "/tmp/s"
        ("/dev/nvme0n1" ∷ [])
        true
        "a"
        "4.1.1"
        found
        world).0
    ≡ true
unfolding provision_found solfleet.Prelude.String-discrete
bare_succeeds = refl
