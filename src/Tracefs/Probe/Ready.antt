-- ===== src/Tracefs/Probe/Ready.antt =====
-- When `probe` of src/bpf.rs turns the eBPF mode on.
use aether_opt_ext.Os.{Os}
use aether_opt_ext.Os.Machine.{Machine}
