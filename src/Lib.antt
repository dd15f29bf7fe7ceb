-- ===== src/Lib.antt =====
-- solfleet manages a fleet of Solana nodes: a configuration describes the nodes, a probe reads their
-- state, a watch keeps the DNS records of each pool on its healthy members, and operations restart and
-- upgrade nodes, provision hosts or change DNS records by hand, behind one gate and with an audit log.
--
-- The files, and the code that each is about:
--   Prelude     the types, lists, texts, dicts and results that the other files share. A dict is a list
--               of pairs in its order of insertion, a set is a list that is read through membership.
--   Json        the values that are handed to json.dumps.
--   Safety      src/solfleet/safety.py: PolicyRules, Policy, version_allowed with the patterns of fnmatch
--               (Safety/Fnmatch), disk_free_ok and gate; Safety/Load load_policy.
--   Audit       src/solfleet/audit.py: the table `events`, `record` (record_event) and `recent`.
--   Config      src/solfleet/config.py: the models; Config/Validate the validators, which together are
--               IsAccepted; Config/Find find_node and find_builder; Config/Load load_fleet.
--   Dns         src/solfleet/dns.py: the protocol DnsDriver as a record, the promises IsLawful that its
--               callers rely on; Dns/Memory the driver in memory, Dns/Cloudflare and Dns/Route53 the
--               drivers over their APIs, each with what it relies on there as IsFaithful, for the
--               names that the API keeps as they are spelled and what it accepts (IsLawfulOn);
--               Dns/Names marker_name and the names with a dot at the end, Dns/Make make_driver.
--   Probe       src/solfleet/probe.py: the records that a probe returns; Probe/Run probe_node, with the
--               endpoints as a parameter, Probe/Clusters probe_cluster and probe_fleet.
--   Watch       src/solfleet/watch.py: should_eject and the plan for one pool; Watch/Round the calls of
--               the driver and the audit log, watch_once and watch_loop.
--   Builder     src/solfleet/builder.py: the artifacts of a build and its commands; Builder/Build
--               build_artifacts with its cache, Builder/Bootstrap bootstrap_builder.
--   Executor    src/solfleet/executor.py: argument vectors; Executor/Inspect the read-only steps,
--               Executor/Steps the steps behind the gate, Executor/Frames the relations between worlds
--               that an operation keeps if its commands do.
--   Operations  src/solfleet/operations.py: Operations/Override dns_eject, dns_restore and dns_status;
--               Operations/Catchup wait_for_catchup, and in its Sampler default_sampler;
--               Operations/Restart restart_node, run in Operations/Restart/Run; Operations/Upgrade
--               plan_upgrade, with distribute, _version_matches and _update_marker in its Distribute, the
--               outcomes of execute_upgrade in its Execute and the run in its Run; Operations/Report the
--               dicts that go to the audit log.
--   Provision   src/solfleet/provision.py: render_unit and the plan; Provision/Stages the stages of a run,
--               Provision/Disks setup_disk, Provision/Run provision_node, Provision/Report its dicts.
--   Validate    src/solfleet/validate.py: the checks; Validate/Run validate_fleet.
--   Schedule    src/solfleet/schedule.py: runs, free windows and the report of leader_windows.
--   Voting      src/solfleet/voting.py: vote_status.
--   Cli         src/solfleet/cli.py: Cli/Table format_table, Cli/Report _format_validate, Cli/Operate the
--               commands on a node or a builder, Cli/Fleet the others, with their exit codes; the proofs
--               about these codes are Cli/Exits, Cli/Attention and Cli/Loaded.
--   Mcp         src/solfleet/mcp_server.py: fleet_status, node_detail, version_drift and leader_schedule;
--               Mcp/Tools the tools that hand on to an operation.
--   Tests       each theorem at a concrete input.
--
-- The operations take a driver, which the watch and the overrides share, and the session of its state and
-- the audit log; a lawful driver tells which names are one record. What runs on other machines answers
-- through Executor.Env from all that happened before, and an operation appends what it does to the
-- effects of its World. Numbers are natural numbers, as the configuration's are meant to be. A formatted
-- text keeps the pieces that it shows.
--
-- Bounds: watch_loop takes the number of rounds. The wait for a node takes timeout_s + 1 rounds of fuel,
-- enough because each round waits at least one second. The matcher of patterns takes as much fuel as
-- the pattern is long, and each token takes one character of it at least. A slot lasts 0.4 s, and times
-- are kept in tenths of a second.
--
-- An operation that gives up in several places is a chain of stages, each of which goes on to the next or
-- returns an outcome; the entry of the audit log is a function of the outcome.
--
-- Commands and tools work on the fleet, the policy and the driver that they are given. What a command
-- prints is the data that the operation returned, and its exit code is beside it.
--
-- Not modelled: what the parser of YAML, pydantic's reading of fields, argparse, the HTTP and AWS clients
-- and the server of the tools do, exceptions of a driver, and the waits and the interrupt of an endless
-- loop. cmd_watch takes the driver that make_driver describes, with calls that return; a zone that a
-- cloud driver does not find is the error of its zone_id and ends the caller.
pub mod Prelude
pub mod Json
pub mod Safety
pub mod Audit
pub mod Cli
pub mod Mcp
pub mod Config
pub mod Dns
pub mod Probe
pub mod Watch
pub mod Builder
pub mod Executor
pub mod Operations
pub mod Schedule
pub mod Provision
pub mod Validate
pub mod Voting
pub mod Tests
