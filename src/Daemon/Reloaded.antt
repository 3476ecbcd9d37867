-- ===== src/Daemon/Reloaded.antt =====
-- The rules in use through a check of the configuration and a round of the eBPF mode (src/main.rs).
use aether_opt_ext.Base.{
  ℕ, Bool, true, false, not, ◌||◌, ◌==◌, Option, none, some, Bool-cases, inl, inr, if◌then◌else◌,
}
use aether_opt_ext.Base.Text.{Text}
use aether_opt_ext.Os.{Os, Aya}
use aether_opt_ext.Os.Machine.{Machine, call}
use aether_opt_ext.Config.{AppConfig}
use aether_opt_ext.RuleMatch.{thread_affinity}
use aether_opt_ext.RuleMatch.Dir.{ResultDir, thread_affinity-ResultDir}
use aether_opt_ext.Entries.{Json}
use aether_opt_ext.ConfigFile.Rules.{RulesOf}
use aether_opt_ext.ConfigFile.Sound.{hot_reload-RulesOf, rules-RuleDir}
use aether_opt_ext.Inotify.{Inotify, is_negative}
use aether_opt_ext.Daemon.{
  Daemon, Timing, Checked, Received, got, timed_out, disconnected, is_newer, is_due, reload,
  rewatch, on_inotify, on_mtime, check_config, scan_round, on_received, sync_round, ebpf_round,
}

-- Every rule has a directory that is empty or named after its CPUs, and a known package.
abbrev pub IsSound : AppConfig → Type 0
IsSound cfg = RulesOf cfg.pkg_set cfg.rules

pub if-IsSound :
    {S : Type 0} (b : Bool) (cfg : S → AppConfig) (x y : S)
    → IsSound (cfg x)
    → IsSound (cfg y)
    → IsSound (cfg (if b then x else y))
if-IsSound true cfg x y hx hy = hx
if-IsSound false cfg x y hx hy = hy

pub sound-ResultDir :
    {W B : Type 0} (os : Os W) (pkg thread : Text) (now : Machine W B) (cfg : AppConfig)
    → IsSound cfg
    → ResultDir (thread_affinity os pkg thread cfg cfg.topo now).0
sound-ResultDir os pkg thread now cfg h =
    thread_affinity-ResultDir os pkg thread cfg cfg.topo now (rules-RuleDir cfg.pkg_set cfg.rules h)

module _ {J W B : Type 0} (json : Json J) (os : Os W) (ino : Inotify W) (path : Text) where
  abbrev checked_cfg : Checked × Machine W B → AppConfig
  checked_cfg c = c.0.1.cfg

  reload-IsSound :
      (d : Daemon) (m : Machine W B) → IsSound d.cfg → IsSound (reload json os ino path d m).0.1.cfg
  unfolding reload
  reload-IsSound d m h = hot_reload-RulesOf json os path d.cfg m h

  on_inotify-IsSound :
      (ev : Option ℕ) (d : Daemon) (m : Machine W B)
      → IsSound d.cfg
      → IsSound (on_inotify json os ino path ev d m).0.1.cfg
  unfolding on_inotify rewatch
  on_inotify-IsSound none d m h = h
  on_inotify-IsSound (some ev) d m h =
      let r = reload json os ino path d m in
      let watched = rewatch json os ino path r.0 r.1 in
      let sound = reload-IsSound d m h in
      if-IsSound (ev == 2) checked_cfg watched (if ev == 1 then r else ((false, d), m)) sound
        (if-IsSound (ev == 1) checked_cfg r ((false, d), m) sound h)

  on_mtime-IsSound :
      (c : Checked) (m : Machine W B)
      → IsSound c.1.cfg
      → IsSound (on_mtime json os ino path c m).0.1.cfg
  unfolding on_mtime
  on_mtime-IsSound c m h =
      let mt = call (os.modified path) m in
      let r = reload json os ino path c.1 mt.1 in
      if-IsSound (not (is_negative c.1.inotify_fd)) checked_cfg (c, m)
        (if is_newer mt.0 c.1.cfg.mtime then r else (c, mt.1)) h
        (if-IsSound (is_newer mt.0 c.1.cfg.mtime) checked_cfg r (c, mt.1)
          (reload-IsSound c.1 mt.1 h) h)

  pub check_config-IsSound :
      (d : Daemon) (m : Machine W B)
      → IsSound d.cfg
      → IsSound (check_config json os ino path d m).0.1.cfg
  unfolding check_config
  check_config-IsSound d m h = on_mtime-IsSound _ _ (on_inotify-IsSound _ d _ h)

module _ {W B : Type 0} (os : Os W) (aya : Aya B) (timing : Timing W) (interval : ℕ) where
  abbrev daemon_cfg : Daemon × Machine W B → AppConfig
  daemon_cfg s = s.0.cfg

  scan_round-IsSound :
      (changed : Bool) (d : Daemon) (m : Machine W B)
      → IsSound d.cfg
      → IsSound (scan_round os aya timing interval changed d m).0.cfg
  unfolding scan_round
  scan_round-IsSound changed d m h = elim (Bool-cases (changed || d.need_full_scan)) [
    | inl due ↦ rw due h
    | inr waits ↦ rw waits h
  ]

  on_received-IsSound :
      (r : Received) (d : Daemon) (m : Machine W B)
      → IsSound d.cfg
      → IsSound (on_received os aya timing interval r d m).0.cfg
  unfolding on_received
  on_received-IsSound (got event events) d m h = h
  on_received-IsSound timed_out d m h = h
  on_received-IsSound disconnected d m h = h

  sync_round-IsSound :
      (d : Daemon) (m : Machine W B)
      → IsSound d.cfg
      → IsSound (sync_round os aya timing interval d m).0.cfg
  unfolding sync_round
  sync_round-IsSound d m h =
      elim (Bool-cases (is_due (timing.now m.world).0 d.affinity_deadline interval)) [
        | inl due ↦ rw due h
        | inr early ↦ rw early h
      ]

  pub ebpf_round-IsSound :
      (changed : Bool) (d : Daemon) (m : Machine W B)
      → IsSound d.cfg
      → IsSound (ebpf_round os aya timing interval changed d m).0.cfg
  unfolding ebpf_round
  ebpf_round-IsSound changed d m h =
      sync_round-IsSound _ _ (on_received-IsSound _ _ _ (scan_round-IsSound changed d m h))
