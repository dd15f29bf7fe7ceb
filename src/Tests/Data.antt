-- ===== src/Tests/Data.antt =====
-- Test data: a fleet, what a probe answers for it, and a session with the in-memory driver.
use solfleet.Prelude.{ℕ, Bool, true, List, [], ◌∷◌, String, Option, none, some}
use solfleet.Audit.{AuditLog}
use solfleet.Config.{
  Role, rpc, validator, Node, default_ssh, default_service, default_system, default_launch,
  EjectWhen, InstallConfig, build, agave, Cluster, Pool, DnsConfig, route53, Fleet,
}
use solfleet.Probe.{NodeStatus, ClusterStatus}
use solfleet.Dns.{DnsSession}
use solfleet.Dns.Memory.{InMemory}
use solfleet.Executor.{Env, World, exited}

abbrev pub node_at : String → Role → Option String → String → Node
node_at name role identity host = record {
  name = name;
  role = role;
  host = host;
  rpc_url = some "http://127.0.0.1:8899";
  identity = identity;
  ssh = default_ssh;
  service = default_service;
  disks = [];
  system = default_system;
  launch = default_launch;
}

abbrev pub node_a : Node
node_a = node_at "a" rpc none "10.0.0.1"

abbrev pub node_b : Node
node_b = node_at "b" rpc none "10.0.0.2"

abbrev pub voter : Node
voter = node_at "v" validator (some "Vote111") "10.0.0.3"

abbrev pub install : InstallConfig
install = record {
  strategy = build;
  builder = some "forge";
  source = agave;
  agave_repo = "https://github.com/anza-xyz/agave";
  geyser_repo = none;
  geyser_ref = none;
  artifact_cache = "/var/cache";
}

abbrev pub mainnet : Cluster
mainnet = record {
  reference_rpc = "https://api.example.com";
  install = some install;
  network = none;
  nodes = node_a ∷ node_b ∷ voter ∷ [];
}

abbrev pub ew : EjectWhen
ew = record { slot_lag = some 50; unhealthy = true; delinquent = true }

abbrev pub pool : Pool
pool = record {
  record_name = "rpc.example.com";
  cluster = "mainnet";
  members = "a" ∷ "b" ∷ [];
  ttl = 30;
  eject_when = ew;
}

abbrev pub dns_config : DnsConfig
dns_config = record { provider = route53; zone = "example.com"; pools = pool ∷ [] }

abbrev pub fleet : Fleet
fleet = record {
  clusters = ("mainnet", mainnet) ∷ [];
  builders = ("forge", record { host = "10.0.0.9"; ssh = default_ssh }) ∷ [];
  dns = some dns_config;
}

abbrev pub status_of : String → Option Bool → Option ℕ → NodeStatus
status_of name healthy slot_lag = record {
  name = name;
  cluster = "mainnet";
  role = rpc;
  reachable = true;
  healthy = healthy;
  version = none;
  slot = none;
  slot_lag = slot_lag;
  delinquent = none;
  activated_stake = none;
  vote_credits = none;
  last_vote = none;
  error = none;
}

-- Node a is healthy, node b lags.
abbrev pub probed : List ClusterStatus
probed =
    record {
      name = "mainnet";
      reference_rpc = "https://api.example.com";
      reference_slot = some 1000;
      reference_version = none;
      reference_error = none;
      nodes = status_of "a" (some true) (some 0) ∷ status_of "b" (some true) (some 80) ∷ [];
    }
    ∷ []

abbrev pub prober : ℕ → List ClusterStatus
prober i = probed

abbrev pub log : AuditLog
log = record { rows = []; next_id = 0; clock = λ i. "2024-01-01T00:00:00" }

-- Both nodes are in the record.
abbrev pub session : DnsSession InMemory
session = record {
  dns = record {
    a = ("rpc.example.com", "10.0.0.1" ∷ "10.0.0.2" ∷ []) ∷ [];
    markers = [];
    ops = [];
  };
  audit = some log;
}

-- Every command succeeds and prints an active service, and every sample is caught up.
abbrev pub env : Env
env = record {
  runner =
      λ effects argv. record { exit_code = exited 0; stdout = "ActiveState=active"; stderr = "" };
  sampler = λ effects node reference. record {
    healthy = some true;
    node_slot = some 1000;
    ref_slot = some 1001;
    lag = some 1;
  };
  leader = λ effects reference identity minutes. none;
}

abbrev pub world : World
world = record { effects = []; audit = some log }
