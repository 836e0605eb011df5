-- ===== src/Proc.antt =====
-- proc.c: the process table and the calls that change it.
pub mod Types
pub mod Alloc
pub mod Signal
pub mod Exit
pub mod Wait
pub mod Fcfs
pub mod Priority
pub mod Wakeup
pub mod Valid
pub mod Child
pub mod Choice
pub mod Policy
pub mod System
pub mod Safety
pub mod Memory
pub mod Contract
pub mod Reaping
pub mod Waking
pub mod Stale
pub mod Boot
mod Examples
