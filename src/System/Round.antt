-- ===== src/System/Round.antt =====
-- A round of the loop of `main` (src/main.rs) in its eBPF mode is made of steps of the whole program.
use aether_opt_ext.Base.{ℕ, ◌≡◌, sym, true, List, [], ◌∷◌, ◌++◌}
use mathlib.Core.Path.{subst}
use aether_opt_ext.Base.Text.{Text}
use aether_opt_ext.Os.{Os, Aya}
use aether_opt_ext.Os.Machine.{Machine, call}
use aether_opt_ext.Entries.{Json}
use aether_opt_ext.ConfigFile.Save.{JsonBuild}
use aether_opt_ext.Clusters.{Clusters}
use aether_opt_ext.Inotify.{Inotify}
use aether_opt_ext.Events.{EbpfProcEvent, event_dispatch, dispatch_all}
use aether_opt_ext.Daemon.{
  Daemon, Timing, Received, got, timed_out, disconnected, with_cache, check_config, scan_round,
  on_received, ebpf_round, main_round,
}
use aether_opt_ext.System.{
  Buffer, System, checks, scans, waits, dispatches, closes, corrects, Run, at_first, then_moves,
}

-- What the channel holds before and after the round took from it what it received.
abbrev pub Shows : Received → List EbpfProcEvent → List EbpfProcEvent → Type 0
Shows (got event events) before after = before ≡ (event ∷ events) ++ after
Shows timed_out before after = before ≡ after
Shows disconnected before after = (before ≡ []) × (after ≡ [])

abbrev pub at : {W B Q : Type 0} → Q → Daemon × Machine W B → List EbpfProcEvent → System W B Q
at q s channel = record { daemon = s.0; machine = s.1; entries = q; channel = channel }

module _ {J W B Q : Type 0} (json : Json J) (build : JsonBuild J) (os : Os W) (aya : Aya B)
    (ino : Inotify W) (timing : Timing W) (buffer : Buffer Q) (config_path : Text)
    (clusters : Clusters) (interval : ℕ) (q : Q) where
  abbrev Reaches : System W B Q → System W B Q → Type 0
  Reaches s t = Run json os aya ino timing buffer config_path interval s t

  dispatch_all-Run :
      (s : System W B Q) (events rest : List EbpfProcEvent) (d : Daemon) (m : Machine W B)
      → Reaches s (at q (d, m) (events ++ rest))
      → Reaches s (
          at q
            (
              with_cache (dispatch_all os aya events d.cfg d.proc_state.cache m).0 d,
              (dispatch_all os aya events d.cfg d.proc_state.cache m).1,
            )
            rest)
  unfolding dispatch_all
  dispatch_all-Run s [] rest d m run = run
  dispatch_all-Run s (event ∷ events) rest d m run =
      dispatch_all-Run s events rest
        (with_cache (event_dispatch os aya event d.cfg d.proc_state.cache m).0 d)
        (event_dispatch os aya event d.cfg d.proc_state.cache m).1
        (then_moves run (dispatches event d m q (events ++ rest)))

  on_received-Run :
      (s : System W B Q) (r : Received) (before after : List EbpfProcEvent) (d : Daemon)
      (m : Machine W B)
      → Shows r before after
      → Reaches s (at q (d, m) before)
      → Reaches s (at q (on_received os aya timing interval r d m) after)
  unfolding on_received
  on_received-Run s (got event events) before after d m shows run =
      dispatch_all-Run s (event ∷ events) after d m
        (subst (λ channel. Reaches s (at q (d, m) channel)) shows run)
  on_received-Run s timed_out before after d m shows run =
      subst (λ channel. Reaches s (at q (d, m) channel)) shows run
  on_received-Run s disconnected before after d m (empty_before, empty_after) run =
      subst
        (λ channel. Reaches s (at q (on_received os aya timing interval disconnected d m) channel))
        (sym empty_after)
        (then_moves (subst (λ channel. Reaches s (at q (d, m) channel)) empty_before run)
          (closes d m q))

  -- What the channel shows to a round.
  abbrev pub received_in : Daemon → Machine W B → Received
  received_in d m =
      let checked = check_config json os ino config_path d m in
      (call timing.recv (scan_round os aya timing interval checked.0.0 checked.0.1 checked.1).1).0

  pub main_round-Run :
      (d : Daemon) (m : Machine W B) (before after : List EbpfProcEvent)
      → (check_config json os ino config_path d m).0.1.ok ≡ true
      → Shows (received_in d m) before after
      → Run json os aya ino timing buffer config_path interval
          (at q (d, m) before)
          (at q (main_round json build os aya ino timing config_path clusters interval d m) after)
  unfolding main_round ebpf_round
  main_round-Run d m before after ebpf shows =
      let checked = check_config json os ino config_path d m in
      let scanned = scan_round os aya timing interval checked.0.0 checked.0.1 checked.1 in
      let received = call timing.recv scanned.1 in
      let start = at q (d, m) before in
      let at_check : Reaches start (at q (checked.0.1, checked.1) before) =
        then_moves at_first (checks d m q before) in
      let at_scan : Reaches start (at q scanned before) =
        then_moves at_check (scans checked.0.0 checked.0.1 checked.1 q before) in
      let at_wait : Reaches start (at q (scanned.0, received.1) before) =
        then_moves at_scan (waits scanned.0 scanned.1 q before) in
      let done = on_received-Run start received.0 before after scanned.0 received.1 shows at_wait in
      let dispatched = on_received os aya timing interval received.0 scanned.0 received.1 in
      rw ebpf (then_moves done (corrects dispatched.0 dispatched.1 q after))
