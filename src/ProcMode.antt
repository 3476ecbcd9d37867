-- ===== src/ProcMode.antt =====
-- src/main.rs, the mode without eBPF: `ProcState` and `proc_cache_sync`.
pub mod Owner
pub mod Tracked
use aether_opt_ext.Base.{
  ℕ, ◌+◌, Bool, true, false, not, ◌&&◌, ◌||◌, Option, none, some, List, [], ◌∷◌, State, ◌>>=◌, pure,
  ltb, ◌==◌, any, if◌then◌else◌,
}
use aether_opt_ext.Base.Map.{insert}
use aether_opt_ext.Base.Text.{Text, codes, parse_i32}
use aether_opt_ext.CpuSet.{CpuSet}
use aether_opt_ext.Os.{Os}
use aether_opt_ext.Os.Machine.{Machine, call}
use aether_opt_ext.Config.{AppConfig, pkg_has_thread_rules}
use aether_opt_ext.ProcFs.{task_tids, process_pkg, interested}
use aether_opt_ext.ProcCache.{ProcCache, empty_cache, clear, task_apply}
use aether_opt_ext.FullScan.{thread_name}

-- The counts are of processes, and far below the bound of an `i32`. `tracked_pids` is a hash set: a
-- list in its order of iteration.
pub record ProcState : Type 0 where
  pub cache : ProcCache
  pub last_proc_count : ℕ
  pub scan_all_proc : Bool
  pub tracked_pids : List ℕ
  pub last_proc_total : ℕ
  pub force_affinity : Bool

abbrev pub new_state : ProcState
new_state = record {
  cache = empty_cache;
  last_proc_count = 0;
  scan_all_proc = true;
  tracked_pids = [];
  last_proc_total = 0;
  force_affinity = false;
}

-- `contains` and `insert` of a set of process ids.
abbrev pub has_pid : ℕ → List ℕ → Bool
has_pid pid pids = any (λ p. p == pid) pids

abbrev pub insert_pid : ℕ → List ℕ → List ℕ
insert_pid pid pids = if has_pid pid pids then pids else pid ∷ pids

-- What the number of processes says: whether to reload, and the state with the new count.
unfoldable pub note_count : Option ℕ → ProcState → Bool × ProcState
note_count none state = (true, state)
note_count (some cur) state = (
  state.scan_all_proc || ltb (state.last_proc_count + 11) cur,
  record state {
    last_proc_count = cur;
    force_affinity =
        not (ltb (state.last_proc_count + 11) cur) && ltb state.last_proc_count cur
        || state.force_affinity;
  },
)

-- The variables of the scan.
pub record Scan : Type 0 where
  pub cache : ProcCache
  pub new_tracked : List ℕ
  pub current_total : ℕ

-- The closure `|_, _, _| false`.
abbrev pub apply_nothing : {W B : Type 0} → ℕ → CpuSet → Text → State (Machine W B) Bool
apply_nothing tid cpus cpuset_dir m = (false, m)

-- `if any { … }`
unfoldable pub track : Bool → ℕ → Text → Bool → Scan → Scan
track any_bound pid pkg htr scan =
    if any_bound
    then record scan {
      cache = record scan.cache { pkgs = insert pid (pkg, htr) scan.cache.pkgs };
      new_tracked = insert_pid pid scan.new_tracked;
    }
    else scan

module _ {W B : Type 0} (os : Os W) where
  -- Whether a process has gone: the loop stops at the first one.
  unfoldable pub any_gone : List ℕ → State (Machine W B) Bool
  any_gone [] m = (false, m)
  any_gone (pid ∷ pids) m =
      let alive = call (os.is_alive pid) m in
      let rest = any_gone pids alive.1 in if alive.0 then rest else (true, alive.1)

  module _ (cfg : AppConfig) where
    -- The threads of a process, and whether one was bound.
    unfoldable pub sync_tids :
        ℕ → Text → Bool → List ℕ → Bool → ProcCache → State (Machine W B) (Bool × ProcCache)
    sync_tids pid pkg htr [] any_bound pc m = ((any_bound, pc), m)
    sync_tids pid pkg htr (tid ∷ tids) any_bound pc m =
        let tn = thread_name os htr tid m in
        let applied = task_apply os tid pid pkg tn.0 htr cfg true apply_nothing pc tn.1 in
        sync_tids pid pkg htr tids (applied.0.0 || any_bound) applied.0.1 applied.1

    unfoldable pub sync_process : ℕ → Text → Option (List ℕ) → Scan → State (Machine W B) Scan
    sync_process pid pkg none scan m = (scan, m)
    sync_process pid pkg (some tids) scan m =
        let htr = pkg_has_thread_rules cfg pkg in
        let synced = sync_tids pid pkg htr tids false scan.cache m in
        (track synced.0.0 pid pkg htr (record scan { cache = synced.0.1 }), synced.1)

    unfoldable pub sync_pkg : ℕ → Option Text → Scan → State (Machine W B) Scan
    sync_pkg pid none scan m = (scan, m)
    sync_pkg pid (some pkg) scan m =
        let tids = task_tids os pid m in
        let synced = sync_process pid pkg tids.0 scan tids.1 in
        if not (interested cfg pkg) then (scan, m) else synced

    -- An entry of /proc that is a process counts, even if it is passed over.
    unfoldable pub sync_entry : ProcState → Option ℕ → Scan → State (Machine W B) Scan
    sync_entry state none scan m = (scan, m)
    sync_entry state (some pid) scan m =
        let counted : Scan = record scan { current_total = scan.current_total + 1 } in
        let pkg = process_pkg os pid m in
        let synced = sync_pkg pid pkg.0 counted pkg.1 in
        if not state.scan_all_proc && not (has_pid pid state.tracked_pids)
        then (counted, m)
        else synced

    unfoldable pub sync_entries : ProcState → List Text → Scan → State (Machine W B) Scan
    sync_entries state [] scan m = (scan, m)
    sync_entries state (name ∷ names) scan m =
        let synced = sync_entry state (parse_i32 name) scan m in
        sync_entries state names synced.0 synced.1

    unfoldable pub sync_dir : ProcState → Option (List Text) → Scan → State (Machine W B) Scan
    sync_dir state none scan m = (scan, m)
    sync_dir state (some names) scan m = sync_entries state names scan m

    -- The cache is built anew.
    unfoldable pub rebuild : ProcState → State (Machine W B) ProcState
    rebuild state m =
        let dir = call (os.read_dir (codes "/proc")) m in
        let start : Scan = record {
          cache = clear state.cache;
          new_tracked = [];
          current_total = 0;
        } in
        let scan = sync_dir state dir.0 start dir.1 in
        (
          record state {
            cache = scan.0.cache;
            scan_all_proc = ltb state.last_proc_total scan.0.current_total;
            last_proc_total = scan.0.current_total;
            tracked_pids = scan.0.new_tracked;
            force_affinity = true;
          },
          scan.1,
        )

    -- The tracked processes are asked only if nothing else makes a reload necessary.
    unfoldable pub must_reload : Bool → ProcState → State (Machine W B) Bool
    must_reload reload state m = if reload then (true, m) else any_gone state.tracked_pids m

    unfoldable pub proc_cache_sync : ProcState → State (Machine W B) (Bool × ProcState)
    proc_cache_sync state m =
        let procs = call os.process_count m in
        let noted = note_count procs.0 state in
        let need_reload = must_reload noted.0 noted.1 procs.1 in
        let rebuilt = rebuild noted.1 need_reload.1 in
        if not need_reload.0
        then ((false, noted.1), need_reload.1)
        else ((true, rebuilt.0), rebuilt.1)
