-- ===== src/Daemon/Frame.antt =====
-- Which parts of a round of `main` (src/main.rs) leave the BPF object alone.
use aether_opt_ext.Base.{
  ℕ, ◌≡◌, refl, ◌∙◌, Bool, true, false, Option, none, some, List, [], ◌∷◌, arith, if◌then◌else◌,
  not, ◌==◌,
}
use aether_opt_ext.Base.Text.{Text}
use aether_opt_ext.Os.{Os}
use aether_opt_ext.Os.Machine.{Machine, call}
use aether_opt_ext.Topology.{CpuTopology, create_cpuset_dir}
use aether_opt_ext.Config.{AppConfig}
use aether_opt_ext.Entries.{Json}
use aether_opt_ext.ConfigFile.{
  Loaded, other_cpus, other_cpuset_dir, load_pkgs, load_entries, load_root, load_data, load,
  packages_of, nothing_loaded, reload_with, hot_reload, merge,
}
use aether_opt_ext.Inotify.{Inotify, is_negative, read_inotify, rewatch_inotify, close_failed}
use aether_opt_ext.Daemon.{
  Daemon, Checked, reload, rewatch, on_inotify, on_mtime, is_newer, check_config,
}

if-bpf :
    {A W B : Type 0} (b : Bool) (m : Machine W B) (x y : A × Machine W B)
    → x.1.bpf ≡ m.bpf
    → y.1.bpf ≡ m.bpf
    → (if b then x else y).1.bpf ≡ m.bpf
if-bpf true m x y hx hy = hx
if-bpf false m x y hx hy = hy

module _ {J W B : Type 0} (json : Json J) (os : Os W) (topo : CpuTopology) where
  other_cpuset_dir-bpf :
      (other : Text) (m : Machine W B) → (other_cpuset_dir json os other topo m).1.bpf ≡ m.bpf
  unfolding other_cpuset_dir create_cpuset_dir
  other_cpuset_dir-bpf other m = ground arith

  load_pkgs-bpf :
      (pkgs : List Text) (e : J) (acc : Loaded) (m : Machine W B)
      → (load_pkgs json os topo pkgs e acc m).1.bpf ≡ m.bpf
  unfolding load_pkgs
  load_pkgs-bpf [] e acc m = refl
  load_pkgs-bpf (def ∷ rest) e acc m = other_cpuset_dir-bpf (other_cpus json e) m

  load_entries-bpf :
      (es : List J) (acc : Loaded) (m : Machine W B)
      → (load_entries json os topo es acc m).1.bpf ≡ m.bpf
  unfolding load_entries
  load_entries-bpf [] acc m = refl
  load_entries-bpf (e ∷ es) acc m =
      load_entries-bpf es _ _ ∙ load_pkgs-bpf (packages_of json e) e acc m

  load_root-bpf :
      (path : Text) (root : Option J) (m : Machine W B)
      → (load_root json os path topo root m).1.bpf ≡ m.bpf
  unfolding load_root
  load_root-bpf path none m = refl
  load_root-bpf path (some root) m = if-bpf _ m _ _ refl (load_entries-bpf _ nothing_loaded m)

  load-bpf : (path : Text) (m : Machine W B) → (load json os path topo m).1.bpf ≡ m.bpf
  unfolding load
  load-bpf path m = let file = call (os.read_file path) m in load_data-bpf file.0 file.1
    where
      load_data-bpf :
          (o : Option Text) (m : Machine W B) → (load_data json os path topo o m).1.bpf ≡ m.bpf
      load_data-bpf none m = unfold load_data in refl
      load_data-bpf (some text) m = unfold load_data in load_root-bpf path (json.parse text) m

module _ {J W B : Type 0} (json : Json J) (os : Os W) where
  hot_reload-bpf :
      (path : Text) (cfg : AppConfig) (m : Machine W B)
      → (hot_reload json os path cfg m).1.bpf ≡ m.bpf
  unfolding hot_reload
  hot_reload-bpf path cfg m =
      let loaded = load json os path cfg.topo m in
      reload_with-bpf loaded.0 loaded.1 ∙ load-bpf json os cfg.topo path m
    where
      reload_with-bpf :
          (o : Option AppConfig) (m : Machine W B) → (reload_with json os o cfg m).1.bpf ≡ m.bpf
      reload_with-bpf none m = unfold reload_with in refl
      reload_with-bpf (some new_cfg) m = unfold reload_with merge in refl

module _ {W B : Type 0} (ino : Inotify W) where
  read_inotify-bpf : (fd : ℕ) (m : Machine W B) → (read_inotify ino fd m).1.bpf ≡ m.bpf
  unfolding read_inotify
  read_inotify-bpf fd m = if-bpf (is_negative fd) m _ _ refl refl

  rewatch_inotify-bpf :
      (path : Text) (fd : ℕ) (m : Machine W B) → (rewatch_inotify ino path fd m).1.bpf ≡ m.bpf
  unfolding rewatch_inotify close_failed
  rewatch_inotify-bpf path fd m = ground arith

module _ {J W B : Type 0} (json : Json J) (os : Os W) (ino : Inotify W) (path : Text) where
  -- The variables that a check of the configuration does not touch.
  pub record Unchanged (d : Daemon) (m : Machine W B) (r : Checked × Machine W B) : Type 0 where
    pub same_bpf : r.1.bpf ≡ m.bpf
    pub same_state : r.0.1.proc_state ≡ d.proc_state
    pub same_scan : r.0.1.need_full_scan ≡ d.need_full_scan
    pub same_ok : r.0.1.ok ≡ d.ok

  reload-Unchanged : (d : Daemon) (m : Machine W B) → Unchanged d m (reload json os ino path d m)
  unfolding reload
  reload-Unchanged d m = record {
    same_bpf = hot_reload-bpf json os path d.cfg m;
    same_state = refl;
    same_scan = refl;
    same_ok = refl;
  }

  if-Unchanged :
      (b : Bool) (d : Daemon) (m : Machine W B) (x y : Checked × Machine W B)
      → Unchanged d m x
      → Unchanged d m y
      → Unchanged d m (if b then x else y)
  if-Unchanged true d m x y hx hy = hx
  if-Unchanged false d m x y hx hy = hy

  Unchanged-trans :
      (d : Daemon) (m : Machine W B) (r s : Checked × Machine W B)
      → Unchanged d m r
      → Unchanged r.0.1 r.1 s
      → Unchanged d m s
  Unchanged-trans d m r s h k = record {
    same_bpf = k.same_bpf ∙ h.same_bpf;
    same_state = k.same_state ∙ h.same_state;
    same_scan = k.same_scan ∙ h.same_scan;
    same_ok = k.same_ok ∙ h.same_ok;
  }

  rewatch-Unchanged :
      (c : Checked) (m : Machine W B) → Unchanged c.1 m (rewatch json os ino path c m)
  unfolding rewatch
  rewatch-Unchanged c m = record {
    same_bpf = rewatch_inotify-bpf ino path c.1.inotify_fd m;
    same_state = refl;
    same_scan = refl;
    same_ok = refl;
  }

  kept_as_is : (c : Checked) (m n : Machine W B) → n.bpf ≡ m.bpf → Unchanged c.1 m (c, n)
  kept_as_is c m n e = record { same_bpf = e; same_state = refl; same_scan = refl; same_ok = refl }

  on_inotify-Unchanged :
      (ev : Option ℕ) (d : Daemon) (m : Machine W B)
      → Unchanged d m (on_inotify json os ino path ev d m)
  unfolding on_inotify
  on_inotify-Unchanged none d m = kept_as_is (false, d) m m refl
  on_inotify-Unchanged (some ev) d m =
      let r = reload json os ino path d m in
      let reloaded = reload-Unchanged d m in
      if-Unchanged (ev == 2) d m _ _ (Unchanged-trans d m r _ reloaded (rewatch-Unchanged r.0 r.1))
        (if-Unchanged (ev == 1) d m _ _ reloaded (kept_as_is (false, d) m m refl))

  on_mtime-Unchanged :
      (c : Checked) (m : Machine W B) → Unchanged c.1 m (on_mtime json os ino path c m)
  unfolding on_mtime
  on_mtime-Unchanged c m =
      let mt = call (os.modified path) m in
      if-Unchanged (not (is_negative c.1.inotify_fd)) c.1 m _ _ (kept_as_is c m m refl) (
        if-Unchanged (is_newer mt.0 c.1.cfg.mtime) c.1 m _ _
          (Unchanged-trans c.1 m (c, mt.1) _ (kept_as_is c m mt.1 refl) (reload-Unchanged c.1 mt.1))
          (kept_as_is c m mt.1 refl))

  pub check_config-Unchanged :
      (d : Daemon) (m : Machine W B) → Unchanged d m (check_config json os ino path d m)
  unfolding check_config
  check_config-Unchanged d m =
      let ev = read_inotify ino d.inotify_fd m in
      let noted = on_inotify json os ino path ev.0 d ev.1 in
      Unchanged-trans d m noted _
        (Unchanged-trans d m ((false, d), ev.1) _
          (kept_as_is (false, d) m ev.1 (read_inotify-bpf ino d.inotify_fd m))
          (on_inotify-Unchanged ev.0 d ev.1))
        (on_mtime-Unchanged noted.0 noted.1)
