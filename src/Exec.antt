-- ===== src/Exec.antt =====
-- src/exec.c, in children: what the executor calls, expansion over the tree, the execution of lists
-- and of chains of && and ||, and what is proved of them.
pub mod Services
pub mod Expansion
pub mod Execute
pub mod Chains
pub mod Process
pub mod Descriptors
pub mod Pipes
pub mod Forks
pub mod Pipelines
pub mod Redirections
pub mod Assignments
pub mod Repl
pub mod Sessions
mod SessionTests
mod ProcessTests
mod Tests
