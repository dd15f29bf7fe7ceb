-- ===== src/Provision.antt =====
-- src/solfleet/provision.py: from a bare host to a serving node. The unit text and the plan; the stages stand
-- in Provision/Stages and Provision/Disks, the run in Provision/Run.
pub mod Stages
pub mod Disks
pub mod Report
pub mod Run
pub mod Guards
pub mod Formats
pub mod Started
pub mod Sound
pub mod Planned
use solfleet.Prelude.{
  ℕ, Bool, true, false, ◌&&◌, not, List, [], ◌∷◌, ◌++◌, String, Option, none, some, map, ◌==◌,
  if◌then◌else◌,
}
use solfleet.Prelude.Text.{Text, lit, str, num, repr}
use solfleet.Config.{
  Node, Cluster, InstallConfig, SolanaNetwork, DiskConfig, FileSystem, ext4, xfs, tmpfs, rpc,
  validator, agave, jito,
}
use solfleet.Operations.Upgrade.{builder_of, builds_geyser}

abbrev pub gib : ℕ
gib = 1073741824

abbrev pub provision_min_ram_gib : ℕ
provision_min_ram_gib = 8

abbrev pub provision_min_cores : ℕ
provision_min_cores = 8

-- `sep.join(texts)`
abbrev pub joined_by : String → List Text → Text
joined_by sep [] = []
joined_by sep (t ∷ []) = t
joined_by sep (t ∷ u ∷ ts) = t ++ (str sep ∷ joined_by sep (u ∷ ts))

-- `net.known_validators if net else []`, and the same of the other fields.
abbrev known_validators_of : Option SolanaNetwork → List String
known_validators_of none = []
known_validators_of (some net) = net.known_validators

abbrev entrypoints_of : Option SolanaNetwork → List String
entrypoints_of none = []
entrypoints_of (some net) = net.entrypoints

abbrev genesis_hash_of : Option SolanaNetwork → Option String
genesis_hash_of none = none
genesis_hash_of (some net) = net.expected_genesis_hash

abbrev flag : String → String → Text
flag name value = str name ∷ str " " ∷ str value ∷ []

-- An argument that stands if its value is neither `None` nor empty.
abbrev optional_flag : String → Option String → List Text
optional_flag name none = []
optional_flag name (some value) = if value == "" then [] else flag name value ∷ []

abbrev when : Bool → List Text → List Text
when c args = if c then args else []

abbrev limit_args : Option ℕ → List Text
limit_args none = []
limit_args (some n) = (str "--limit-ledger-size " ∷ num n ∷ []) ∷ []

unfoldable pub unit_args : Node → Cluster → List Text
unit_args node cluster =
    lit node.service.binary
    ∷ flag "--identity" node.service.identity_keypair
    ∷ (map (flag "--known-validator") (known_validators_of cluster.network)
        ++ (str "--rpc-port " ∷ num node.launch.rpc_port ∷ [])
          ∷ flag "--rpc-bind-address" node.launch.rpc_bind_address
          ∷ (map (flag "--entrypoint") (entrypoints_of cluster.network)
              ++ (optional_flag "--expected-genesis-hash" (genesis_hash_of cluster.network)
                  ++ lit "--wal-recovery-mode skip_any_corrupted_record"
                    ∷ (limit_args node.launch.limit_ledger_size
                        ++ flag "--ledger" node.service.ledger
                          ∷ flag "--accounts" node.service.accounts
                          ∷ (when node.launch.enable_rpc_tx_history (
                                lit "--enable-rpc-transaction-history"
                                ∷ lit "--enable-extended-tx-metadata-storage"
                                ∷ [])
                              ++ (when node.launch.private_rpc (lit "--private-rpc" ∷ [])
                                  ++ (when node.launch.full_rpc_api (lit "--full-rpc-api" ∷ [])
                                      ++ (optional_flag "--geyser-plugin-config"
                                            node.service.geyser_config
                                          ++ ((if node.launch.no_voting
                                                then lit "--no-voting" ∷ []
                                                else optional_flag "--vote-account"
                                                    node.service.vote_account_keypair)
                                              ++ (map lit node.launch.extra_args
                                                  ++ lit "--log -" ∷ []))))))))))

unfoldable pub render_unit : Node → Cluster → Text
unfolding unit_args
render_unit node cluster =
    str "[Unit]\n"
      ∷ str "Description=Solana validator ("
      ∷ str node.name
      ∷ str ")\n"
      ∷ str "After=network-online.target\n"
      ∷ str "Wants=network-online.target\n\n"
      ∷ str "[Service]\n"
      ∷ str "Type=simple\n"
      ∷ str "User="
      ∷ str node.service.run_user
      ∷ str "\nGroup="
      ∷ str node.service.run_user
      ∷ str "\nLimitNOFILE="
      ∷ num node.system.open_files
      ∷ str "\nRestart=always\n"
      ∷ str "RestartSec=1\n"
      ∷ str "ExecStart="
      ∷ joined_by " \\\n  " (unit_args node cluster)
    ++ (str "\n\n[Install]\n" ∷ str "WantedBy=multi-user.target\n" ∷ [])

abbrev pub fs_name : FileSystem → String
fs_name ext4 = "ext4"
fs_name xfs = "xfs"
fs_name tmpfs = "tmpfs"

abbrev pub python_bool : Bool → String
python_bool true = "True"
python_bool false = "False"

abbrev install_source : Option InstallConfig → String
install_source none = "agave"
install_source (some install) = elim install.source [ agave ↦ "agave" | jito ↦ "jito" ]

abbrev disk_step : DiskConfig → Text
disk_step d =
    str "setup disk "
    ∷ str d.device
    ∷ str " -> "
    ∷ str d.mount
    ∷ str " (format="
    ∷ str (python_bool d.format)
    ∷ str ")"
    ∷ []

abbrev pub provision_plan : Node → Cluster → String → List Text
provision_plan node cluster target_version =
    (str "preflight " ∷ str node.name ∷ str " (OS / arch / cores / RAM / root)" ∷ [])
    ∷ (str "create user " ∷ str node.service.run_user ∷ [])
    ∷ (str "apply system tuning (open_files="
        ∷ num node.system.open_files
        ∷ str ", sysctl, governor)"
        ∷ [])
    ∷ (map disk_step node.disks
        ++ (str "build "
            ∷ str (install_source cluster.install)
            ∷ str " "
            ∷ str target_version
            ∷ str " on builder "
            ∷ repr (builder_of cluster.install)
            ∷ [])
          ∷ (str "distribute + place agave binary"
              ∷ str (if builds_geyser cluster.install then " + geyser .so" else "")
              ∷ [])
          ∷ (str "install systemd unit " ∷ str node.service.unit ∷ str ".service" ∷ [])
          ∷ (str "verify identity keypair at " ∷ str node.service.identity_keypair ∷ [])
          ∷ (str "start " ∷ str node.service.unit ∷ str " and wait for catch-up" ∷ [])
          ∷ [])

abbrev pub is_voting : Node → Bool
is_voting node = elim node.role [ validator ↦ not node.launch.no_voting | rpc ↦ false ]
