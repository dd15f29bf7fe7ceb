-- ===== src/Tests/Commands.antt =====
-- The theorems on the commands of src/solfleet/cli.py, the tools of src/solfleet/mcp_server.py and the
-- sampler, at the test fleet.
use solfleet.Prelude.{
  String, List, ◌+◌, ◌++◌, map, length, All, Bool, true, false, ◌&&◌, ◌↔◌, none, some, any, is_some,
  ◌≡◌, if◌then◌else◌, [],
}
use solfleet.Prelude.Text.{lit}
use solfleet.Prelude.Strings.{str_length}
use solfleet.Cli.Table.{format_table, table_rows, widths, warnings}
use solfleet.Cli.Table.Aligned.{line_width, node_count, format_table-IsAligned}
use solfleet.Safety.{Policy, default_rules}
use solfleet.Config.Find.{find_node, find_builder}
use solfleet.Probe.Run.{Rpc, result, rpc_error, http_error, lag_between}
use solfleet.Probe.Facts.{is_up}
use solfleet.Operations.{unknown_node}
use solfleet.Operations.Catchup.{is_caught_up, within}
use solfleet.Operations.Catchup.Sampler.{
  default_sampler, slot_or_none, node_slot_of, default_sampler-is_caught_up,
}
use solfleet.Cli.Operate.{cmd_restart, cmd_upgrade, cmd_bootstrap_builder, known_nodes}
use solfleet.Cli.Exits.{IsRestarted, IsUpgraded, cmd_restart-zero, cmd_upgrade-zero}
use solfleet.Cli.Exits.Bootstrap.{cmd_bootstrap_builder-zero}
use solfleet.Cli.Fleet.{cmd_status}
use solfleet.Cli.Attention.{is_down, cmd_status-code}
use solfleet.Mcp.{unknown, node_detail}
use solfleet.Mcp.Lookup.{detail_of, node_detail_exact}
use solfleet.Tests.Data.{node_a, fleet, probed, env, world}

-- The nodes lag.
abbrev rpc : Rpc
rpc = record {
  health = λ url. rpc_error "Node is behind by 80 slots";
  version = λ url. result (some "4.1.1");
  slot = λ url. result (some 920);
  vote_accounts = λ url. http_error "timeout";
}

abbrev policy : Policy
policy = record { defaults = default_rules; clusters = [] }

cmd_restart-zero_example :
    ((cmd_restart env fleet policy "a" true world).0.code ≡ 0)
    ↔ IsRestarted (cmd_restart env fleet policy "a" true world).0.printed
cmd_restart-zero_example = cmd_restart-zero env fleet policy "a" world

cmd_upgrade-zero_example :
    ((cmd_upgrade env fleet policy "/tmp/s" "a" "4.1.1" false true world).0.code ≡ 0)
    ↔ IsUpgraded "4.1.1"
        (cmd_upgrade env fleet policy "/tmp/s" "a" "4.1.1" false true world).0.printed
cmd_upgrade-zero_example = cmd_upgrade-zero env fleet policy "/tmp/s" "a" "4.1.1" false world

cmd_bootstrap_builder-zero_example :
    ((cmd_bootstrap_builder env fleet policy "forge" true world).0.code ≡ 0)
    ↔ ((◌≡◌ {A = Bool} true false) × (is_some (find_builder fleet (some "forge")) ≡ true))
cmd_bootstrap_builder-zero_example = cmd_bootstrap_builder-zero env fleet policy "forge" true world

cmd_status-code_example :
    (cmd_status rpc fleet false).code
    ≡ (if any fleet.clusters (λ c. any c.1.nodes (is_down rpc c)) then 1 else 0)
cmd_status-code_example = cmd_status-code rpc fleet false

node_detail_exact_example : node_detail rpc fleet "b" ≡ elim (find_node fleet "b") [
  | none ↦ unknown (unknown_node "b") (known_nodes fleet)
  | some found ↦ detail_of rpc "b" found
]
node_detail_exact_example = node_detail_exact rpc fleet "b"

default_sampler-is_caught_up_example :
    is_caught_up 2 (default_sampler rpc node_a "https://api.example.com") ≡ (
      is_up rpc node_a.rpc_url
      && within 2 (
          lag_between
            (slot_or_none (rpc.slot "https://api.example.com"))
            (node_slot_of rpc node_a.rpc_url)))
default_sampler-is_caught_up_example =
    default_sampler-is_caught_up rpc 2 node_a "https://api.example.com"

format_table-IsAligned_example :
    (table : List String) × (format_table probed ≡ map lit table ++ warnings probed)
    × (length table ≡ 1 + node_count probed)
    × All (λ l. str_length l ≡ line_width (widths (table_rows probed))) table
format_table-IsAligned_example = format_table-IsAligned probed
