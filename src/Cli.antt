-- ===== src/Cli.antt =====
-- src/solfleet/cli.py: the commands, each with what it prints and its exit code. The parsing of the
-- command line is `argparse`, and the printed dicts are the data that the operations return.
pub mod Table
pub mod Operate
pub mod Report
pub mod Fleet
pub mod Exits
pub mod Attention
pub mod Loaded
