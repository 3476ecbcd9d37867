-- ===== src/System/AfterRound.antt =====
-- What holds after a round of the loop of `main` (src/main.rs) in its eBPF mode.
use aether_opt_ext.Base.{
  ℕ, ◌≡◌, refl, sym, ap, ◌∙◌, Bool, true, false, List, arith, ◌||◌, Bool-cases, inl, inr,
}
use aether_opt_ext.Base.Text.{Text}
use aether_opt_ext.Os.{Os, Aya}
use aether_opt_ext.Os.Machine.{Machine, call}
use aether_opt_ext.Entries.{Json}
use aether_opt_ext.ConfigFile.Save.{JsonBuild}
use aether_opt_ext.Clusters.{Clusters}
use aether_opt_ext.Inotify.{Inotify}
use aether_opt_ext.Events.{EbpfProcEvent}
use aether_opt_ext.Events.Tracked.{AppliedLaws, Tracks}
use aether_opt_ext.Daemon.{
  Daemon, Timing, Received, got, timed_out, disconnected, check_config, scan_round, on_received,
  ebpf_round, main_round,
}
use aether_opt_ext.Daemon.Round.{SeparateMaps, While-elim, Tracks-more}
use aether_opt_ext.System.{Buffer, BufferLaws}
use aether_opt_ext.System.Told.{told}
use aether_opt_ext.System.Interleaved.{
  IsWatched, Run-IsWatched, sync_round-ok, sync_round-need_full_scan,
}
use aether_opt_ext.System.Round.{Shows, at, received_in, main_round-Run}

module _ {W B : Type 0} (os : Os W) (aya : Aya B) (timing : Timing W) (interval : ℕ) where
  scan_round-need_full_scan :
      (changed : Bool) (d : Daemon) (m : Machine W B)
      → (scan_round os aya timing interval changed d m).0.need_full_scan ≡ false
  unfolding scan_round
  scan_round-need_full_scan changed d m = elim (Bool-cases (changed || d.need_full_scan)) [
    | inl due ↦ rw due refl
    | inr later ↦ rw later (ground arith)
  ]

  on_received-need_full_scan :
      (r : Received) (d : Daemon) (m : Machine W B)
      → (on_received os aya timing interval r d m).0.ok ≡ true
      → (on_received os aya timing interval r d m).0.need_full_scan ≡ d.need_full_scan
  unfolding on_received
  on_received-need_full_scan (got event events) d m ok = refl
  on_received-need_full_scan timed_out d m ok = refl
  on_received-need_full_scan disconnected d m ok = absurd (ground arith)

  -- No full scan is due after a round that stays in the eBPF mode.
  ebpf_round-need_full_scan :
      (changed : Bool) (d : Daemon) (m : Machine W B)
      → (ebpf_round os aya timing interval changed d m).0.ok ≡ true
      → (ebpf_round os aya timing interval changed d m).0.need_full_scan ≡ false
  unfolding ebpf_round
  ebpf_round-need_full_scan changed d m ok =
      let scanned = scan_round os aya timing interval changed d m in
      let received = call timing.recv scanned.1 in
      let dispatched = on_received os aya timing interval received.0 scanned.0 received.1 in
      sync_round-need_full_scan os aya timing interval dispatched.0 dispatched.1
      ∙ (on_received-need_full_scan received.0 scanned.0 received.1
            (sym (sync_round-ok os aya timing interval dispatched.0 dispatched.1) ∙ ok)
          ∙ scan_round-need_full_scan changed d m)

module _ {J W B Q : Type 0} (json : Json J) (build : JsonBuild J) (os : Os W) (aya : Aya B)
    (ino : Inotify W) (timing : Timing W) (buffer : Buffer Q) (config_path : Text)
    (clusters : Clusters) (interval : ℕ) (applied : AppliedLaws aya) (sep : SeparateMaps aya)
    (laws : BufferLaws buffer) where
  -- If the object's maps are apart, `APPLIED_MAP` and the ring buffer keep what is put in them, each
  -- cached thread is watched when a round of the eBPF mode begins (it is a key of the map, or its
  -- EXIT event is on the way, or a full scan is to come), the channel holds the events that the
  -- round receives, and the kernel and the reader take no step meanwhile, then after the round, if
  -- the mode lasts, each cached thread is a key of `APPLIED_MAP`, or its EXIT event is still in the
  -- buffer or the channel, and no full scan is needed for that.
  pub main_round-Tracks :
      (d : Daemon) (m : Machine W B) (q : Q) (before after : List EbpfProcEvent)
      → IsWatched aya buffer (at q (d, m) before)
      → (check_config json os ino config_path d m).0.1.ok ≡ true
      → Shows
          (received_in json build os aya ino timing buffer config_path clusters interval q d m)
          before
          after
      → (main_round json build os aya ino timing config_path clusters interval d m).0.ok ≡ true
      → Tracks aya
          (told buffer after q)
          (main_round json build os aya ino timing config_path clusters interval d
            m).0.proc_state.cache.tasks
          (main_round json build os aya ino timing config_path clusters interval d m).1.bpf
  main_round-Tracks d m q before after watched ebpf shows ok =
      let checked = check_config json os ino config_path d m in
      let step : main_round json build os aya ino timing config_path clusters interval d m
          ≡ ebpf_round os aya timing interval checked.0.0 checked.0.1 checked.1 =
        unfold main_round in rw ebpf refl in
      let no_scan : (main_round json build os aya ino timing config_path clusters interval d
            m).0.need_full_scan
          ≡ false =
        ap (λ s. s.0.need_full_scan) step
        ∙ ebpf_round-need_full_scan os aya timing interval checked.0.0 checked.0.1 checked.1
            (sym (ap (λ s. s.0.ok) step) ∙ ok) in
      let run =
        main_round-Run json build os aya ino timing buffer config_path clusters interval q d m
          before after ebpf shows in
      Tracks-more aya _ _ _ _ (λ j h. ground (arith, h, no_scan))
        (While-elim _
          (Run-IsWatched json os aya ino timing buffer config_path interval applied sep laws run
            watched)
          ok)
