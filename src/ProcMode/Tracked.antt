-- ===== src/ProcMode/Tracked.antt =====
-- `proc_cache_sync` of src/main.rs: the tracked processes against the cache.
use aether_opt_ext.Base.{
  ℕ, ◌+◌, ◌≡◌, refl, ◌∙◌, Bool, true, false, not, ◌||◌, ◌&&◌, Option, none, some, List, [], ◌∷◌,
  arith, Bool-cases, inl, inr, is_some,
}
use aether_opt_ext.Base.Map.{lookup, lookup-insert}
use aether_opt_ext.Base.Text.{Text, parse_i32}
use aether_opt_ext.Os.{Os}
use aether_opt_ext.Os.Machine.{Machine, call}
use aether_opt_ext.Config.{AppConfig, pkg_has_thread_rules}
use aether_opt_ext.ProcFs.{interested}
use aether_opt_ext.ProcCache.{ProcCache, clear, task_apply}
use aether_opt_ext.ProcCache.Tasks.{task_update-pkgs}
use aether_opt_ext.ProcMode.{
  ProcState, Scan, has_pid, apply_nothing, track, sync_tids, sync_process, sync_pkg, sync_entry,
  sync_entries, sync_dir, rebuild, must_reload, note_count, proc_cache_sync,
}
use aether_opt_ext.ProcMode.Owner.{
  owner_in, owner_in_mono, has_pid-insert_pid, so_far, task_update-owned, Consistent,
}

note_count-keeps :
    (o : Option ℕ) (state : ProcState)
    → ((note_count o state).1.cache ≡ state.cache)
      × ((note_count o state).1.tracked_pids ≡ state.tracked_pids)
unfolding note_count
note_count-keeps none state = (refl, refl)
note_count-keeps (some cur) state = (refl, refl)

track-Consistent :
    (any_bound : Bool) (pid : ℕ) (pkg : Text) (htr : Bool) (scan : Scan)
    → ((j : ℕ) → is_some (lookup j scan.cache.pkgs) ≡ has_pid j scan.new_tracked)
    → ((j : ℕ)
        → owner_in (so_far scan.new_tracked pid any_bound) (lookup j scan.cache.tasks) ≡ true)
    → Consistent
        (track any_bound pid pkg htr scan).cache
        (track any_bound pid pkg htr scan).new_tracked
unfolding track
track-Consistent true pid pkg htr scan keys owned = record {
  pkgs_tracked = λ j. ground (
    arith,
    keys j,
    lookup-insert pid j (pkg, htr) scan.cache.pkgs,
    has_pid-insert_pid pid j scan.new_tracked,
  );
  tasks_tracked = λ j.
      owner_in_mono _ _ (lookup j scan.cache.tasks)
        (λ x h. has_pid-insert_pid pid x scan.new_tracked ∙ ground arith) (owned j);
}
track-Consistent false pid pkg htr scan keys owned = record {
  pkgs_tracked = keys;
  tasks_tracked = λ j. owner_in_mono _ _ (lookup j scan.cache.tasks) (λ x. ground arith) (owned j);
}

abbrev IsConsistent : Scan → Type 0
IsConsistent scan = Consistent scan.cache scan.new_tracked

task_apply-pkgs :
    {W B : Type 0} (os : Os W) (cfg : AppConfig) (tid pid : ℕ) (pkg comm : Text) (htr : Bool)
    (pc : ProcCache) (m : Machine W B)
    → (task_apply os tid pid pkg comm htr cfg true apply_nothing pc m).0.1.pkgs ≡ pc.pkgs
unfolding task_apply
task_apply-pkgs os cfg tid pid pkg comm htr pc m = task_update-pkgs tid pid apply_nothing pc _ _

-- The state after a synchronisation, and whether the cache was rebuilt.
abbrev pub Synced : ProcState → Bool × ProcState → Type 0
Synced before (true, after) = Consistent after.cache after.tracked_pids
Synced before (false, after) =
    (after.cache ≡ before.cache) × (after.tracked_pids ≡ before.tracked_pids)

module _ {W B : Type 0} (os : Os W) (cfg : AppConfig) where
  module _ (tracked : List ℕ) (pid : ℕ) (pkg : Text) (htr : Bool) where
    task_apply-owned :
        (tid : ℕ) (any_bound : Bool) (comm : Text) (pc : ProcCache) (m : Machine W B)
        → ((j : ℕ) → owner_in (so_far tracked pid any_bound) (lookup j pc.tasks) ≡ true)
        → (j : ℕ)
        → owner_in
            (so_far tracked pid
              ((task_apply os tid pid pkg comm htr cfg true apply_nothing pc m).0.0 || any_bound))
            (lookup j (task_apply os tid pid pkg comm htr cfg true apply_nothing pc m).0.1.tasks)
          ≡ true
    unfolding task_apply
    task_apply-owned tid any_bound comm pc m h j =
        task_update-owned tracked tid pid any_bound pc _ _ h j

    sync_tids-owned :
        (tids : List ℕ) (any_bound : Bool) (pc : ProcCache) (m : Machine W B)
        → ((j : ℕ) → owner_in (so_far tracked pid any_bound) (lookup j pc.tasks) ≡ true)
        → (j : ℕ)
        → owner_in
            (so_far tracked pid (sync_tids os cfg pid pkg htr tids any_bound pc m).0.0)
            (lookup j (sync_tids os cfg pid pkg htr tids any_bound pc m).0.1.tasks)
          ≡ true
    unfolding sync_tids
    sync_tids-owned [] any_bound pc m h j = h j
    sync_tids-owned (tid ∷ tids) any_bound pc m h j =
        sync_tids-owned tids _ _ _ (task_apply-owned tid any_bound _ pc _ h) j

    sync_tids-pkgs :
        (tids : List ℕ) (any_bound : Bool) (pc : ProcCache) (m : Machine W B)
        → (sync_tids os cfg pid pkg htr tids any_bound pc m).0.1.pkgs ≡ pc.pkgs
    unfolding sync_tids
    sync_tids-pkgs [] any_bound pc m = refl
    sync_tids-pkgs (tid ∷ tids) any_bound pc m =
        sync_tids-pkgs tids _ _ _ ∙ task_apply-pkgs os cfg tid pid pkg _ htr pc _

  sync_process-IsConsistent :
      (pid : ℕ) (pkg : Text) (o : Option (List ℕ)) (scan : Scan) (m : Machine W B)
      → IsConsistent scan
      → IsConsistent (sync_process os cfg pid pkg o scan m).0
  unfolding sync_process
  sync_process-IsConsistent pid pkg none scan m c = c
  sync_process-IsConsistent pid pkg (some tids) scan m c =
      let htr = pkg_has_thread_rules cfg pkg in
      let synced = sync_tids os cfg pid pkg htr tids false scan.cache m in
      track-Consistent synced.0.0 pid pkg htr (record scan { cache = synced.0.1 })
        (λ j.
          rw (sync_tids-pkgs scan.new_tracked pid pkg htr tids false scan.cache m)
            (c.pkgs_tracked j))
        (sync_tids-owned scan.new_tracked pid pkg htr tids false scan.cache m (λ j.
          owner_in_mono _ _ (lookup j scan.cache.tasks) (λ x. ground arith) (c.tasks_tracked j)))

  sync_pkg-IsConsistent :
      (pid : ℕ) (o : Option Text) (scan : Scan) (m : Machine W B)
      → IsConsistent scan
      → IsConsistent (sync_pkg os cfg pid o scan m).0
  unfolding sync_pkg
  sync_pkg-IsConsistent pid none scan m c = c
  sync_pkg-IsConsistent pid (some pkg) scan m c = elim (Bool-cases (not (interested cfg pkg))) [
    | inl skips ↦ rw skips c
    | inr scans ↦ rw scans (sync_process-IsConsistent pid pkg _ scan _ c)
  ]

  sync_entry-IsConsistent :
      (state : ProcState) (o : Option ℕ) (scan : Scan) (m : Machine W B)
      → IsConsistent scan
      → IsConsistent (sync_entry os cfg state o scan m).0
  unfolding sync_entry
  sync_entry-IsConsistent state none scan m c = c
  sync_entry-IsConsistent state (some pid) scan m c =
      let counted : IsConsistent (record scan { current_total = scan.current_total + 1 }) = record {
        pkgs_tracked = c.pkgs_tracked;
        tasks_tracked = c.tasks_tracked;
      } in
      elim (Bool-cases (not state.scan_all_proc && not (has_pid pid state.tracked_pids))) [
        | inl skips ↦ rw skips counted
        | inr scans ↦ rw scans (sync_pkg-IsConsistent pid _ _ _ counted)
      ]

  sync_entries-IsConsistent :
      (state : ProcState) (names : List Text) (scan : Scan) (m : Machine W B)
      → IsConsistent scan
      → IsConsistent (sync_entries os cfg state names scan m).0
  unfolding sync_entries
  sync_entries-IsConsistent state [] scan m c = c
  sync_entries-IsConsistent state (name ∷ names) scan m c =
      sync_entries-IsConsistent state names _ _
        (sync_entry-IsConsistent state (parse_i32 name) scan m c)

  sync_dir-IsConsistent :
      (state : ProcState) (o : Option (List Text)) (scan : Scan) (m : Machine W B)
      → IsConsistent scan
      → IsConsistent (sync_dir os cfg state o scan m).0
  unfolding sync_dir
  sync_dir-IsConsistent state none scan m c = c
  sync_dir-IsConsistent state (some names) scan m c = sync_entries-IsConsistent state names scan m c

  rebuild-Consistent :
      (state : ProcState) (m : Machine W B)
      → Consistent (rebuild os cfg state m).0.cache (rebuild os cfg state m).0.tracked_pids
  unfolding rebuild clear lookup
  rebuild-Consistent state m =
      let start : Scan = record {
        cache = clear state.cache;
        new_tracked = [];
        current_total = 0;
      } in
      sync_dir-IsConsistent state _ start _
        (record { pkgs_tracked = λ j. refl; tasks_tracked = λ j. refl })

  -- After `proc_cache_sync`, if it says that it rebuilt the cache, the tracked processes are exactly
  -- those whose package is in the cache, and every thread in the cache is a thread of one of them.
  -- If it says that it did not, the cache and the tracked processes are as before.
  pub proc_cache_sync-Consistent :
      (state : ProcState) (m : Machine W B) → Synced state (proc_cache_sync os cfg state m).0
  unfolding proc_cache_sync
  proc_cache_sync-Consistent state m =
      let procs = call os.process_count m in
      let noted = note_count procs.0 state in
      let need_reload = must_reload os cfg noted.0 noted.1 procs.1 in
      elim (Bool-cases (not need_reload.0)) [
        | inl still ↦ rw still (note_count-keeps procs.0 state)
        | inr reloads ↦ rw reloads (rebuild-Consistent noted.1 need_reload.1)
      ]
