-- ===== src/Lib.antt =====
-- Aether OptExt binds the threads of Android apps to CPUs. A configuration lists, for packages and
-- for patterns of thread names, the CPUs to use. A daemon (src/main.rs and its modules) finds the
-- threads of these packages and binds each with sched_setaffinity and a cpuset directory. In its
-- eBPF mode four tracepoint programs (ebpf/src/main.rs) report forks, execs, renames and exits of
-- threads through a ring buffer; they share two maps with the daemon, the whitelist TARGET_COMM_MAP
-- of pieces of package names and APPLIED_MAP of the threads that are bound.
--
-- Which file models what:
-- - CpuSet, CpuSet/..: `CpuSet` of src/cpuset.rs, 16 words of 64 bits. CpuRange, CpuRange/..: its text
--   form, `to_range_string` and `parse_cpu_ranges`.
-- - Os: what the code asks of Linux (a record of calls that pass a world on) and of aya (a record of
--   map operations); both are parameters. Os/Machine: the statics of src/common.rs and src/process.rs
--   and the BPF object that `BpfCtx` owns, with `set_base_cpuset` and `base_cpuset`.
-- - Topology: `CpuTopology`, `create_cpuset_dir` and `ensure_cpuset_dir` of src/cpuset.rs.
--   Topology/Detect, Topology/Detect/..: its `detect_core_types` and `init_cpu_topo`.
-- - Clusters, Clusters/Format: src/cpu.rs, `detect`, `present` and `fmt_cpus`.
-- - Config, Config/..: `fnmatch`, `rule_prio`, `Rule`, `AppConfig` and `pkg_has_thread_rules` of
--   src/config.rs.
-- - RuleMatch, RuleMatch/..: src/rule_match.rs, `thread_affinity`: which CPUs a thread gets.
-- - Process, Process/Reports: `affinity_set` of src/process.rs. ProcFs: its readers of /proc.
--   Scanner, Scanner/Unknown: its `scan_unknown`. OldScan, OldScan/Choice: its older scanner,
--   `scan_one_pid`, `apply`, `cpuset_add` and `ensure_cpuset`.
-- - ProcCache, ProcCache/Tasks: src/proccache.rs, the cache of packages and threads.
-- - Bpf, Bpf/..: the functions of src/bpf.rs on the two maps, and `comm_to_pkg`.
-- - Events, Events/..: the event handlers of src/main.rs. FullScan: its `full_scan`.
-- - Entries, ConfigFile, ConfigFile/..: `AppConfig::load` and `cache::merge` of src/config.rs over an
--   interface for the crate json, and `hot_reload` of src/main.rs. ConfigFile/Save, ConfigFile/Save/..:
--   `cache::save`, `is_blacklisted` and `est_load`. AutoAlloc, AutoAlloc/..: the loop of `main` that
--   saves entries for unknown apps.
-- - ProcMode, ProcMode/..: `ProcState` and `proc_cache_sync` of src/main.rs, the mode without eBPF.
-- - Tracefs, Tracefs/..: `tracepoint_parse`, `offsets_inject`, `attach` and `probe` of src/bpf.rs, and
--   `BpfCtx`. Reader, Reader/..: its `ebpf_reader`, the thread that drains the ring buffer.
-- - Inotify, Inotify/Walk: `init_inotify`, `read_inotify` and `rewatch_inotify` of src/main.rs.
-- - Daemon, Daemon/..: `main`: its arguments, its start (with `init_cpuset` of src/process.rs) and a
--   round of its loop in both modes, composed of the functions above.
-- - System, System/..: the programs in the kernel, the ring buffer, the reader, the channel
--   and the loop of `main`, whose steps come in any order.
-- - Kernel, Kernel/..: ebpf/src/main.rs. Ring is the ring buffer and the map of offsets, Context what
--   the helpers return in one run of a program.
-- - Base, Base/..: numbers, lists, bits, texts and association lists. Tests: concrete runs.
--
-- How state and values are modelled: a function that changes state takes it and returns the next one.
-- `Machine` is the daemon's state beside the cache; the world of the system calls may change in each
-- of them, so other processes may act in between. A text is the list of its UTF-8 bytes. An `i32`
-- such as a thread id is its pattern below 2 ^ 32, a `u64` word a number below 2 ^ 64, and `IsCpuSet`
-- says what the type of the words says. A hash map is an association list and a hash set a list, in
-- the order of iteration, about which nothing is assumed. Loops are recursions on the list or the
-- number of rounds that they go through (64 bits of a word, 9 windows of a name). The walk over an
-- inotify buffer gets a round for each 16 bytes of it and one more, and a header has 16 bytes. The
-- endless loops are step functions: `reader_step` makes one system call of the reader thread, in the
-- phases waiting, draining, closing and ended, and `main_round` is one round of the daemon, given what
-- its clock and its channel show then. `Moves` is a step of one of the parties, the daemon's operations
-- being steps as a whole: what the kernel does in the middle of a full scan is not modelled.
--
-- What the hypotheses on parameters say: AppliedLaws and TargetLaws, that the BPF hash maps keep what is
-- put in them while they are not full (APPLIED_MAP has 8192 entries and would drop the oldest);
-- SeparateMaps, that the two maps do not touch each other; RingLaws and BufferLaws, that a buffer with
-- room appends an entry, and an exit is a step only where there is room; Channel, that nobody but the
-- reader takes from the buffer, while the kernel may add to it at any call; FileLaws, that the storage
-- of the cache's file can be written, a write being sure to succeed only where the directory is;
-- JsonLaws and PrintLaws, that the values of the crate json behave as arrays and objects and a printed
-- array is read back. Tests has systems and maps for which they hold.
--
-- Not modelled: logging (src/log.rs), but for the failures to bind that `affinity_set` reports,
-- which `Machine` records, and the panic hook and signal set-up of `main`, which bind no
-- thread; `scan` of src/process.rs, dead code that reads /proc by getdents over raw memory; `Drop` of
-- `BpfCtx`, which wakes and joins the reader thread; the start of that thread and the loading and
-- attaching of programs by aya, which are calls on a record that `probe` is given.
pub mod Base
pub mod CpuSet
pub mod CpuRange
pub mod Os
pub mod Topology
pub mod Config
pub mod RuleMatch
pub mod Process
pub mod Bpf
pub mod ProcCache
pub mod ProcFs
pub mod Events
pub mod FullScan
pub mod ProcMode
pub mod System
pub mod Entries
pub mod ConfigFile
pub mod Scanner
pub mod Kernel
pub mod Inotify
pub mod OldScan
pub mod Daemon
pub mod Reader
pub mod Tracefs
pub mod AutoAlloc
pub mod Clusters
pub mod Tests
