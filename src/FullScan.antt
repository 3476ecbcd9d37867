-- ===== src/FullScan.antt =====
-- src/main.rs, `full_scan`: the scan of /proc at the start of the eBPF mode and after a new
-- configuration.
pub mod Tracked
use aether_opt_ext.Base.{
  ℕ, Bool, true, false, not, Option, none, some, List, [], ◌∷◌, State, ◌>>=◌, pure, if◌then◌else◌,
}
use aether_opt_ext.Base.Map.{insert}
use aether_opt_ext.Base.Text.{Text, codes, parse_i32}
use aether_opt_ext.Os.{Os, Aya}
use aether_opt_ext.Os.Machine.{Machine, call}
use aether_opt_ext.Config.{AppConfig, pkg_has_thread_rules}
use aether_opt_ext.ProcFs.{task_tids, tid_comm, process_pkg, interested}
use aether_opt_ext.Bpf.{applied_clear}
use aether_opt_ext.ProcCache.{ProcCache, clear, task_apply}
use aether_opt_ext.Events.{event_affinity_apply}

-- A process to scan: its id, its package, and whether the package has thread rules.
abbrev pub Target : Type 0
Target = ℕ × Text × Bool

abbrev pub target_if_interested : AppConfig → ℕ → Option Text → Option Target
target_if_interested cfg pid none = none
target_if_interested cfg pid (some pkg) =
    if not (interested cfg pkg) then none else some (pid, pkg, pkg_has_thread_rules cfg pkg)

abbrev pub push_some {ℓ} : {A : Type ℓ} → Option A → List A → List A
push_some none rest = rest
push_some (some a) rest = a ∷ rest

abbrev pub unwrap_or_default : Option Text → Text
unwrap_or_default none = []
unwrap_or_default (some s) = s

module _ {W B : Type 0} (os : Os W) where
  unfoldable pub target_of : AppConfig → Option ℕ → State (Machine W B) (Option Target)
  target_of cfg none m = (none, m)
  target_of cfg (some pid) m =
      let pkg = process_pkg os pid m in (target_if_interested cfg pid pkg.0, pkg.1)

  unfoldable pub find_targets : AppConfig → List Text → State (Machine W B) (List Target)
  find_targets cfg [] = pure []
  find_targets cfg (name ∷ names) = do
    target ← target_of cfg (parse_i32 name)
    rest ← find_targets cfg names
    pure (push_some target rest)

  -- The name is read only if it is needed.
  unfoldable pub thread_name : Bool → ℕ → State (Machine W B) Text
  thread_name has_thread_rules tid m =
      let comm = tid_comm os tid m in
      if has_thread_rules then (unwrap_or_default comm.0, comm.1) else ([], m)

module _ {W B : Type 0} (os : Os W) (aya : Aya B) (cfg : AppConfig) where
  unfoldable pub scan_tids : Target → List ℕ → ProcCache → State (Machine W B) ProcCache
  scan_tids target [] pc m = (pc, m)
  scan_tids (pid, pkg, htr) (tid ∷ tids) pc m =
      let t_name = thread_name os htr tid m in
      let applied =
        task_apply os tid pid pkg t_name.0 htr cfg true (event_affinity_apply os aya cfg) pc
          t_name.1 in
      scan_tids (pid, pkg, htr) tids applied.0.1 applied.1

  -- A process that has no task directory any more is left out.
  unfoldable pub scan_target : Target → Option (List ℕ) → ProcCache → State (Machine W B) ProcCache
  scan_target target none pc m = (pc, m)
  scan_target (pid, pkg, htr) (some tids) pc m =
      let scanned = scan_tids (pid, pkg, htr) tids pc m in
      (record scanned.0 { pkgs = insert pid (pkg, htr) scanned.0.pkgs }, scanned.1)

  unfoldable pub scan_targets : List Target → ProcCache → State (Machine W B) ProcCache
  scan_targets [] pc m = (pc, m)
  scan_targets (target ∷ targets) pc m =
      let tids = task_tids os target.0 m in
      let scanned = scan_target target tids.0 pc tids.1 in scan_targets targets scanned.0 scanned.1

  -- With nothing in place of /proc the scan ends with an empty cache.
  unfoldable pub scan_names : Option (List Text) → ProcCache → State (Machine W B) ProcCache
  scan_names none pc m = (pc, m)
  scan_names (some names) pc m =
      let targets = find_targets os cfg names m in scan_targets targets.0 pc targets.1

  unfoldable pub full_scan : ProcCache → State (Machine W B) ProcCache
  full_scan pc m =
      let proc_dir = call (os.read_dir (codes "/proc")) (applied_clear aya m) in
      scan_names proc_dir.0 (clear pc) proc_dir.1
