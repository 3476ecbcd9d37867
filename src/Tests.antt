-- ===== src/Tests.antt =====
-- The theorems at concrete inputs: a phone with 8 CPUs, a game with rules, and BPF maps as lists.
mod Maps
mod Sample
mod Printed
mod Values
pub mod Phone
pub mod Apps
pub mod Ebpf
mod Whole
pub mod CpuSets
pub mod Rules
pub mod Cache
pub mod Dispatch
pub mod Daemon
pub mod Kernel
