-- ===== src/FullScan/Tracked.antt =====
-- `full_scan` of src/main.rs, and the threads in the cache against the keys of `APPLIED_MAP`.
use mathlib.Core.Option
use aether_opt_ext.Base.{
  ℕ, ◌≡◌, refl, ◌∙◌, Bool, true, false, Option, none, some, List, [], ◌∷◌, arith,
}
use aether_opt_ext.Base.Map.{lookup}
use aether_opt_ext.Base.Text.{Text}
use aether_opt_ext.Os.{Os, Aya}
use aether_opt_ext.Os.Machine.{Machine}
use aether_opt_ext.Config.{AppConfig}
use aether_opt_ext.ProcFs.{read_cmdline, tid_comm, task_tids, or_comm, process_pkg}
use aether_opt_ext.Bpf.{remove_applied, applied_clear_in, applied_clear}
use aether_opt_ext.ProcCache.{ProcCache, clear}
use aether_opt_ext.Events.Tracked.{AppliedLaws, Tracks}
use aether_opt_ext.Events.Binding.{task_apply-Tracks}
use aether_opt_ext.FullScan.{
  Target, target_of, find_targets, thread_name, scan_tids, scan_target, scan_targets, scan_names,
  full_scan,
}

module _ {W B : Type 0} (os : Os W) where
  read_cmdline-bpf : (pid : ℕ) (m : Machine W B) → (read_cmdline os pid m).1.bpf ≡ m.bpf
  unfolding read_cmdline
  read_cmdline-bpf pid m = refl

  tid_comm-bpf : (tid : ℕ) (m : Machine W B) → (tid_comm os tid m).1.bpf ≡ m.bpf
  unfolding tid_comm
  tid_comm-bpf tid m = refl

  task_tids-bpf : (pid : ℕ) (m : Machine W B) → (task_tids os pid m).1.bpf ≡ m.bpf
  unfolding task_tids
  task_tids-bpf pid m = refl

  or_comm-bpf : (pid : ℕ) (o : Option Text) (m : Machine W B) → (or_comm os pid o m).1.bpf ≡ m.bpf
  unfolding or_comm
  or_comm-bpf pid none m = tid_comm-bpf pid m
  or_comm-bpf pid (some pkg) m = refl

  process_pkg-bpf : (pid : ℕ) (m : Machine W B) → (process_pkg os pid m).1.bpf ≡ m.bpf
  unfolding process_pkg
  process_pkg-bpf pid m = or_comm-bpf pid _ _ ∙ read_cmdline-bpf pid m

  target_of-bpf :
      (cfg : AppConfig) (o : Option ℕ) (m : Machine W B) → (target_of os cfg o m).1.bpf ≡ m.bpf
  unfolding target_of
  target_of-bpf cfg none m = refl
  target_of-bpf cfg (some pid) m = process_pkg-bpf pid m

  find_targets-bpf :
      (cfg : AppConfig) (names : List Text) (m : Machine W B)
      → (find_targets os cfg names m).1.bpf ≡ m.bpf
  unfolding find_targets
  find_targets-bpf cfg [] m = refl
  find_targets-bpf cfg (name ∷ names) m = find_targets-bpf cfg names _ ∙ target_of-bpf cfg _ m

  thread_name-bpf :
      (htr : Bool) (tid : ℕ) (m : Machine W B) → (thread_name os htr tid m).1.bpf ≡ m.bpf
  unfolding thread_name
  thread_name-bpf true tid m = tid_comm-bpf tid m
  thread_name-bpf false tid m = refl

module _ {B : Type 0} (aya : Aya B) where
  -- A BPF object that is loaded has the map.
  abbrev pub Reachable : Option B → Type 0
  Reachable none = ⊥
  Reachable (some b) = aya.has_applied b ≡ true

module _ {B : Type 0} (aya : Aya B) (laws : AppliedLaws aya) where
  has_applied-remove_applied :
      (ks : List ℕ) (b : B) → aya.has_applied (remove_applied aya ks b) ≡ aya.has_applied b
  unfolding remove_applied
  has_applied-remove_applied [] b = refl
  has_applied-remove_applied (k ∷ ks) b =
      has_applied-remove_applied ks (aya.applied_remove k b) ∙ laws.has_remove k b

  applied_clear-Tracks :
      (o : Option B)
      → Reachable aya o
      → Tracks aya (λ j. false) [] (Option.map (applied_clear_in aya) o)
  applied_clear-Tracks none h = h
  applied_clear-Tracks (some b) h = record {
    reachable =
        unfold applied_clear_in in
        ground (arith, h, has_applied-remove_applied (aya.applied_keys b) b);
    tracked = λ j. unfold lookup in ground arith;
  }

module _ {W B : Type 0} (os : Os W) (aya : Aya B) (laws : AppliedLaws aya) (cfg : AppConfig) where
  abbrev none_pending : ℕ → Bool
  none_pending j = false

  scan_tids-Tracks :
      (target : Target) (tids : List ℕ) (pc : ProcCache) (m : Machine W B)
      → Tracks aya none_pending pc.tasks m.bpf
      → Tracks aya none_pending
          (scan_tids os aya cfg target tids pc m).0.tasks
          (scan_tids os aya cfg target tids pc m).1.bpf
  unfolding scan_tids
  scan_tids-Tracks target [] pc m t = t
  scan_tids-Tracks (pid, pkg, htr) (tid ∷ tids) pc m t =
      let t_name = thread_name os htr tid m in
      scan_tids-Tracks (pid, pkg, htr) tids _ _
        (task_apply-Tracks os aya laws cfg none_pending tid pid pkg t_name.0 htr true pc t_name.1
          (rw (thread_name-bpf os htr tid m) t))

  scan_target-Tracks :
      (target : Target) (o : Option (List ℕ)) (pc : ProcCache) (m : Machine W B)
      → Tracks aya none_pending pc.tasks m.bpf
      → Tracks aya none_pending
          (scan_target os aya cfg target o pc m).0.tasks
          (scan_target os aya cfg target o pc m).1.bpf
  unfolding scan_target
  scan_target-Tracks target none pc m t = t
  scan_target-Tracks (pid, pkg, htr) (some tids) pc m t =
      scan_tids-Tracks (pid, pkg, htr) tids pc m t

  scan_targets-Tracks :
      (targets : List Target) (pc : ProcCache) (m : Machine W B)
      → Tracks aya none_pending pc.tasks m.bpf
      → Tracks aya none_pending
          (scan_targets os aya cfg targets pc m).0.tasks
          (scan_targets os aya cfg targets pc m).1.bpf
  unfolding scan_targets
  scan_targets-Tracks [] pc m t = t
  scan_targets-Tracks (target ∷ targets) pc m t =
      scan_targets-Tracks targets _ _
        (scan_target-Tracks target _ pc _ (rw (task_tids-bpf os target.0 m) t))

  scan_names-Tracks :
      (o : Option (List Text)) (pc : ProcCache) (m : Machine W B)
      → Tracks aya none_pending pc.tasks m.bpf
      → Tracks aya none_pending
          (scan_names os aya cfg o pc m).0.tasks
          (scan_names os aya cfg o pc m).1.bpf
  unfolding scan_names
  scan_names-Tracks none pc m t = t
  scan_names-Tracks (some names) pc m t =
      scan_targets-Tracks _ pc _ (rw (find_targets-bpf os cfg names m) t)

  -- Whatever was in the cache and in `APPLIED_MAP`, after `full_scan` with a loaded BPF object
  -- every thread in the cache is a key of the map, if the map can be reached and keeps what is put
  -- in it.
  pub full_scan-Tracks :
      (pc : ProcCache) (m : Machine W B)
      → Reachable aya m.bpf
      → Tracks aya
          (λ j. false)
          (full_scan os aya cfg pc m).0.tasks
          (full_scan os aya cfg pc m).1.bpf
  unfolding full_scan applied_clear clear
  full_scan-Tracks pc m h = scan_names-Tracks _ (clear pc) _ (applied_clear-Tracks aya laws m.bpf h)
