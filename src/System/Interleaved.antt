-- ===== src/System/Interleaved.antt =====
-- The cache against `APPLIED_MAP` while the kernel's programs, the reader thread and the loop of
-- `main` take turns.
use mathlib.Core.Path.{subst}
use aether_opt_ext.Base.{
  ℕ, ◌≡◌, refl, sym, ◌∙◌, Bool, true, ◌||◌, List, [], ◌∷◌, arith, Bool-cases, inl, inr,
}
use aether_opt_ext.Base.Text.{Text}
use aether_opt_ext.Os.{Os, Aya}
use aether_opt_ext.Os.Machine.{Machine}
use aether_opt_ext.Entries.{Json}
use aether_opt_ext.Inotify.{Inotify}
use aether_opt_ext.ProcMode.{ProcState}
use aether_opt_ext.Events.{EbpfProcEvent, event_dispatch}
use aether_opt_ext.Events.Tracked.{AppliedLaws, Tracks}
use aether_opt_ext.Events.Invariant.{event_dispatch-pending}
use aether_opt_ext.Daemon.{
  Daemon, Timing, check_config, scan_round, sync_round, is_due, with_cache, on_received,
  disconnected,
}
use aether_opt_ext.Daemon.Frame.{check_config-Unchanged}
use aether_opt_ext.Daemon.Round.{
  SeparateMaps, While, While-intro, While-elim, Tracks→Reachable, Tracks-more, scan_round-Tracks,
  sync_round-Tracks,
}
use aether_opt_ext.System.Told.{told, programs-Tracks, reads-told}
use aether_opt_ext.System.{
  Buffer, BufferLaws, System, Moves, programs, reads, checks, scans, waits, dispatches, closes,
  corrects, Run, at_first, then_moves,
}

-- While the eBPF mode lasts: the map can be reached, and every cached thread is a key of the map, or
-- its end is on the way, or a full scan is to come.
abbrev pub IsWatched : {W B Q : Type 0} → Aya B → Buffer Q → System W B Q → Type 0
IsWatched aya buffer s = While s.daemon.ok (
    Tracks aya (λ j. s.daemon.need_full_scan || told buffer s.channel s.entries j)
      s.daemon.proc_state.cache.tasks s.machine.bpf)

abbrev WatchedIf : {W B Q : Type 0} → Aya B → Buffer Q → System W B Q → Type 0
WatchedIf aya buffer s =
    s.daemon.ok ≡ true
    → Tracks aya (λ j. s.daemon.need_full_scan || told buffer s.channel s.entries j)
        s.daemon.proc_state.cache.tasks s.machine.bpf

module _ {W B : Type 0} (os : Os W) (aya : Aya B) (timing : Timing W) (interval : ℕ) where
  scan_round-ok :
      (changed : Bool) (d : Daemon) (m : Machine W B)
      → (scan_round os aya timing interval changed d m).0.ok ≡ d.ok
  unfolding scan_round
  scan_round-ok changed d m = elim (Bool-cases (changed || d.need_full_scan)) [
    | inl due ↦ rw due refl
    | inr later ↦ rw later refl
  ]

  pub sync_round-ok :
      (d : Daemon) (m : Machine W B) → (sync_round os aya timing interval d m).0.ok ≡ d.ok
  unfolding sync_round
  sync_round-ok d m =
      elim (Bool-cases (is_due (timing.now m.world).0 d.affinity_deadline interval)) [
        | inl due ↦ rw due refl
        | inr early ↦ rw early refl
      ]

  pub sync_round-need_full_scan :
      (d : Daemon) (m : Machine W B)
      → (sync_round os aya timing interval d m).0.need_full_scan ≡ d.need_full_scan
  unfolding sync_round
  sync_round-need_full_scan d m =
      elim (Bool-cases (is_due (timing.now m.world).0 d.affinity_deadline interval)) [
        | inl due ↦ rw due refl
        | inr early ↦ rw early refl
      ]

module _ {J W B Q : Type 0} (json : Json J) (os : Os W) (aya : Aya B) (ino : Inotify W)
    (timing : Timing W) (buffer : Buffer Q) (config_path : Text) (interval : ℕ)
    (applied : AppliedLaws aya) (sep : SeparateMaps aya) (laws : BufferLaws buffer) where
  checks-WatchedIf :
      (d : Daemon) (m : Machine W B) (q : Q) (channel : List EbpfProcEvent)
      → WatchedIf aya buffer (record { daemon = d; machine = m; entries = q; channel = channel })
      → WatchedIf aya buffer (record {
        daemon = (check_config json os ino config_path d m).0.1;
        machine = (check_config json os ino config_path d m).1;
        entries = q;
        channel = channel;
      })
  checks-WatchedIf d m q channel w ok =
      let after = check_config json os ino config_path d m in
      let u = check_config-Unchanged json os ino config_path d m in
      subst
        (λ o.
          Tracks aya (λ j. after.0.1.need_full_scan || told buffer channel q j)
            after.0.1.proc_state.cache.tasks o)
        (sym u.same_bpf)
        (subst
          (λ (s : ProcState).
            Tracks aya (λ j. after.0.1.need_full_scan || told buffer channel q j) s.cache.tasks
              m.bpf)
          (sym u.same_state)
          (Tracks-more aya _ _ _ _ (λ j h. ground (arith, h, u.same_scan))
            (w (sym u.same_ok ∙ ok))))

  scans-WatchedIf :
      (changed : Bool) (d : Daemon) (m : Machine W B) (q : Q) (channel : List EbpfProcEvent)
      → WatchedIf aya buffer (record { daemon = d; machine = m; entries = q; channel = channel })
      → WatchedIf aya buffer (record {
        daemon = (scan_round os aya timing interval changed d m).0;
        machine = (scan_round os aya timing interval changed d m).1;
        entries = q;
        channel = channel;
      })
  scans-WatchedIf changed d m q channel w ok =
      let t = w (sym (scan_round-ok os aya timing interval changed d m) ∙ ok) in
      Tracks-more aya (told buffer channel q) _ _ _ (λ j h. ground (arith, h))
        (scan_round-Tracks os aya applied sep timing interval (told buffer channel q) changed d m
          (Tracks→Reachable aya _ _ _ t)
          (λ scanned. Tracks-more aya _ _ _ _ (λ j h. ground (arith, h, scanned)) t))

  corrects-WatchedIf :
      (d : Daemon) (m : Machine W B) (q : Q) (channel : List EbpfProcEvent)
      → WatchedIf aya buffer (record { daemon = d; machine = m; entries = q; channel = channel })
      → WatchedIf aya buffer (record {
        daemon = (sync_round os aya timing interval d m).0;
        machine = (sync_round os aya timing interval d m).1;
        entries = q;
        channel = channel;
      })
  corrects-WatchedIf d m q channel w ok =
      Tracks-more aya _ _ _ _
        (λ j h. ground (arith, h, sync_round-need_full_scan os aya timing interval d m))
        (sync_round-Tracks os aya applied sep timing interval _ d m
          (w (sym (sync_round-ok os aya timing interval d m) ∙ ok)))

  dispatches-WatchedIf :
      (event : EbpfProcEvent) (d : Daemon) (m : Machine W B) (q : Q) (channel : List EbpfProcEvent)
      → WatchedIf aya buffer
          (record { daemon = d; machine = m; entries = q; channel = event ∷ channel })
      → WatchedIf aya buffer (record {
        daemon = with_cache (event_dispatch os aya event d.cfg d.proc_state.cache m).0 d;
        machine = (event_dispatch os aya event d.cfg d.proc_state.cache m).1;
        entries = q;
        channel = channel;
      })
  dispatches-WatchedIf event d m q channel w ok =
      event_dispatch-pending os aya applied d.cfg (λ j. d.need_full_scan || told buffer channel q j)
        event d.proc_state.cache m (Tracks-more aya _ _ _ _ (λ j h. ground (arith, h)) (w ok))

  closes-WatchedIf :
      (d : Daemon) (m : Machine W B) (q : Q)
      → WatchedIf aya buffer (record {
        daemon = (on_received os aya timing interval disconnected d m).0;
        machine = (on_received os aya timing interval disconnected d m).1;
        entries = q;
        channel = [];
      })
  unfolding on_received
  closes-WatchedIf d m q ok = absurd (ground arith)

  Moves-WatchedIf :
      {s t : System W B Q}
      → Moves json os aya ino timing buffer config_path interval s t
      → WatchedIf aya buffer s
      → WatchedIf aya buffer t
  Moves-WatchedIf (programs d m b c q r channel loaded step) w = λ ok.
      programs-Tracks aya buffer applied laws d.need_full_scan channel d.proc_state.cache.tasks b c
        q r step
        (subst
          (λ o.
            Tracks aya (λ j. d.need_full_scan || told buffer channel q j) d.proc_state.cache.tasks
              o)
          loaded (w ok))
  Moves-WatchedIf (reads d m q channel e es first) w = λ ok.
      Tracks-more aya _ _ _ _
        (λ j h. ground (arith, h, reads-told aya buffer applied laws channel e es q j first)) (w ok)
  Moves-WatchedIf (checks d m q channel) w = checks-WatchedIf d m q channel w
  Moves-WatchedIf (scans changed d m q channel) w = scans-WatchedIf changed d m q channel w
  Moves-WatchedIf (waits d m q channel) w = w
  Moves-WatchedIf (dispatches event d m q channel) w = dispatches-WatchedIf event d m q channel w
  Moves-WatchedIf (closes d m q) w = closes-WatchedIf d m q
  Moves-WatchedIf (corrects d m q channel) w = corrects-WatchedIf d m q channel w

  -- If the object's maps are apart, `APPLIED_MAP` and the ring buffer keep what is put in them, and
  -- the buffer has room whenever a thread exits, then whatever the order in which the tracepoint
  -- programs run, the reader moves entries into the channel and the daemon checks its configuration,
  -- scans, dispatches and corrects, each of these as one step: as long as the eBPF mode lasts, the
  -- map can be reached, and each thread in the cache is a key of the map, or its EXIT event is in the
  -- buffer or the channel, or a full scan is to come.
  pub Run-IsWatched :
      {s t : System W B Q}
      → Run json os aya ino timing buffer config_path interval s t
      → IsWatched aya buffer s
      → IsWatched aya buffer t
  Run-IsWatched at_first w = w
  Run-IsWatched (then_moves run move) w =
      While-intro _ (Moves-WatchedIf move (While-elim _ (Run-IsWatched run w)))
