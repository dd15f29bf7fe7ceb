-- ===== src/Config.antt =====
-- src/solfleet/config.py: the models of fleet.yaml. The validators stand in Config/Validate, the
-- methods of `Fleet` in Config/Find. A field `record` of the source is `record_name` here.
pub mod Validate
pub mod Load
pub mod Find
pub mod Accepted
use solfleet.Prelude.{ℕ, Bool, true, List, [], ◌∷◌, String, Option, none, some}
use solfleet.Prelude.Dict.{Dict}

pub record SshConfig : Type 0 where
  pub user : String
  pub port : ℕ
  pub key_file : Option String

abbrev pub default_ssh : SshConfig
default_ssh = record { user = "sol"; port = 22; key_file = none }

pub record ServiceConfig : Type 0 where
  pub unit : String
  pub binary : String
  pub version_marker : Option String
  pub ledger : String
  pub accounts : String
  pub geyser_lib : Option String
  pub run_user : String
  pub identity_keypair : String
  pub vote_account_keypair : Option String
  pub geyser_config : Option String

abbrev pub default_service : ServiceConfig
default_service = record {
  unit = "solana-validator";
  binary = "/usr/local/bin/agave-validator";
  version_marker = none;
  ledger = "/mnt/ledger";
  accounts = "/mnt/accounts";
  geyser_lib = none;
  run_user = "sol";
  identity_keypair = "/etc/solana-validator/identity.json";
  vote_account_keypair = none;
  geyser_config = none;
}

pub data FileSystem : Type 0 where
  ext4 xfs tmpfs : FileSystem

pub record DiskConfig : Type 0 where
  pub device : String
  pub mount : String
  pub fs : FileSystem
  pub format : Bool
  pub min_size_gb : Option ℕ
  pub size_gb : Option ℕ

pub record SystemTuning : Type 0 where
  pub open_files : ℕ
  pub sysctl : Dict ℕ
  pub cpu_governor : Option String

abbrev pub default_sysctl : Dict ℕ
default_sysctl =
    ("net.core.rmem_max", 134217728)
    ∷ ("net.core.wmem_max", 134217728)
    ∷ ("net.core.rmem_default", 134217728)
    ∷ ("net.core.wmem_default", 134217728)
    ∷ ("vm.max_map_count", 1000000)
    ∷ ("fs.nr_open", 1000000)
    ∷ []

abbrev pub default_system : SystemTuning
default_system = record {
  open_files = 1000000;
  sysctl = default_sysctl;
  cpu_governor = some "performance";
}

pub record LaunchConfig : Type 0 where
  pub rpc_port : ℕ
  pub rpc_bind_address : String
  pub private_rpc : Bool
  pub full_rpc_api : Bool
  pub no_voting : Bool
  pub limit_ledger_size : Option ℕ
  pub enable_rpc_tx_history : Bool
  pub extra_args : List String

abbrev pub default_launch : LaunchConfig
default_launch = record {
  rpc_port = 8899;
  rpc_bind_address = "127.0.0.1";
  private_rpc = true;
  full_rpc_api = true;
  no_voting = true;
  limit_ledger_size = some 100000000;
  enable_rpc_tx_history = true;
  extra_args = [];
}

pub data Role : Type 0 where
  rpc validator : Role

pub record Node : Type 0 where
  pub name : String
  pub role : Role
  pub host : String
  pub rpc_url : Option String
  pub identity : Option String
  pub ssh : SshConfig
  pub service : ServiceConfig
  pub disks : List DiskConfig
  pub system : SystemTuning
  pub launch : LaunchConfig

pub data Strategy : Type 0 where
  build prebuilt : Strategy

pub data Source : Type 0 where
  agave jito : Source

pub record InstallConfig : Type 0 where
  pub strategy : Strategy
  pub builder : Option String
  pub source : Source
  pub agave_repo : String
  pub geyser_repo : Option String
  pub geyser_ref : Option String
  pub artifact_cache : String

pub record SolanaNetwork : Type 0 where
  pub entrypoints : List String
  pub known_validators : List String
  pub expected_genesis_hash : Option String

pub record Cluster : Type 0 where
  pub reference_rpc : String
  pub install : Option InstallConfig
  pub network : Option SolanaNetwork
  pub nodes : List Node

pub record BuilderHost : Type 0 where
  pub host : String
  pub ssh : SshConfig

pub record EjectWhen : Type 0 where
  pub slot_lag : Option ℕ
  pub unhealthy : Bool
  pub delinquent : Bool

pub record Pool : Type 0 where
  pub record_name : String
  pub cluster : String
  pub members : List String
  pub ttl : ℕ
  pub eject_when : EjectWhen

pub data Provider : Type 0 where
  cloudflare route53 : Provider

pub record DnsConfig : Type 0 where
  pub provider : Provider
  pub zone : String
  pub pools : List Pool

pub record Fleet : Type 0 where
  pub clusters : Dict Cluster
  pub builders : Dict BuilderHost
  pub dns : Option DnsConfig
