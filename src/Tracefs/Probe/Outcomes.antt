-- ===== src/Tracefs/Probe/Outcomes.antt =====
-- The ways in which `probe` of src/bpf.rs can end.
use aether_opt_ext.Base.{◌≤◌, ◌^◌, ◌<◌, ◌≡◌, true, false, Option, none, some, Bool, ◌⊎◌}
use aether_opt_ext.Base.Text.{codes}
use aether_opt_ext.Os.{Os}
use aether_opt_ext.Os.Machine.{Machine, call}
use aether_opt_ext.Tracefs.{EbpfOffsets, tracefs_root, read_offsets}
use aether_opt_ext.Tracefs.Probe.{
  Loader, BpfCtx, attach, offsets_inject, program_fork, program_exec, program_exit, program_rename,
}

-- The object with the offsets, in which the three programs are then attached.
pub record IsAttached {W B : Type 0} (l : Loader W B) (injected : B) : Type 0 where
  pub fork : (attach l program_fork (codes "sched") injected).0 ≡ true
  pub exec :
      (attach l program_exec (codes "sched") (attach l program_fork (codes "sched") injected).1).0
      ≡ true
  pub exit :
      (attach l program_exit
        (codes "sched")
        (attach l program_exec
          (codes "sched")
          (attach l program_fork (codes "sched") injected).1).1).0
      ≡ true

-- The object once all four programs were offered to it.
abbrev pub with_programs : {W B : Type 0} → Loader W B → B → B
with_programs l injected =
    let fork = (attach l program_fork (codes "sched") injected).1 in
    let exec = (attach l program_exec (codes "sched") fork).1 in
    let exit = (attach l program_exit (codes "sched") exec).1 in
    (attach l program_rename (codes "task") exit).1

-- A context with everything that the eBPF mode uses: the object that the ring buffer was taken from.
pub record IsReady {W B : Type 0} (l : Loader W B) (attached : B) (ctx : BpfCtx B) : Type 0 where
  pub ok : ctx.ok ≡ true
  pub object : B
  pub taken : l.take_events attached ≡ some object
  pub bpf : ctx.bpf ≡ some object
  pub fd : ctx.wakeup_fd < 2 ^ 31
  pub thread : ctx.has_reader ≡ true

-- The offsets that the format files tell after the object was loaded.
abbrev pub told_offsets : {W B : Type 0} → Os W → Machine W B → Option EbpfOffsets
told_offsets os m = let root = tracefs_root os m in (read_offsets os root.0 root.1).0

-- The object was loaded, took the offsets that the format files tell, had the programs attached then,
-- and is the one that the context has.
pub record Probed {W B : Type 0} (os : Os W) (l : Loader W B) (m : Machine W B) (ctx : BpfCtx B)
    : Type 0 where
  pub loaded : B
  pub was_loaded : (call l.load_object m).0 ≡ some loaded
  pub offsets : EbpfOffsets
  pub told : told_offsets os (call l.load_object m).1 ≡ some offsets
  pub injected : B
  pub has_map : l.has_offsets_map loaded ≡ true
  pub set : l.set_offsets offsets loaded ≡ some injected
  pub attached : IsAttached l injected
  pub ready : IsReady l (with_programs l injected) ctx

-- Why the offsets could not be set.
abbrev pub CannotSet : {W B : Type 0} → Loader W B → Option EbpfOffsets → B → Type 0
CannotSet l o b =
    (o ≡ none)
    ⊎ (l.has_offsets_map b ≡ false)
    ⊎ (x : EbpfOffsets) × ((o ≡ some x) × (l.set_offsets x b ≡ none))

-- Why one of the three programs is not attached, in the order in which they are.
abbrev pub CannotAttach : {W B : Type 0} → Loader W B → B → Type 0
CannotAttach l b =
    let fork = attach l program_fork (codes "sched") b in
    let exec = attach l program_exec (codes "sched") fork.1 in
    let exit = attach l program_exit (codes "sched") exec.1 in
    (fork.0 ≡ false) ⊎ (exec.0 ≡ false) ⊎ (exit.0 ≡ false)

-- Why the reader is not started.
abbrev pub CannotRead : {W B : Type 0} → Loader W B → B → Machine W B → Type 0
CannotRead l b m = (2 ^ 31 ≤ (call l.eventfd m).0) ⊎ (l.take_events b ≡ none)

-- Why there is no eBPF mode.
pub data Failed {W B : Type 0} (os : Os W) (l : Loader W B) (enable : Bool) (m : Machine W B)
    : Type 0 where
  disabled : enable ≡ false → Failed os l enable m
  not_loaded : (call l.load_object m).0 ≡ none → Failed os l enable m
  not_set :
      (b : B)
      → (call l.load_object m).0 ≡ some b
      → CannotSet l (told_offsets os (call l.load_object m).1) b
      → Failed os l enable m
  not_attached :
      (b object : B)
      → (call l.load_object m).0 ≡ some b
      → (offsets_inject os l b (call l.load_object m).1).0 ≡ some object
      → CannotAttach l object
      → Failed os l enable m
  not_read :
      (b object : B)
      → (call l.load_object m).0 ≡ some b
      → (offsets_inject os l b (call l.load_object m).1).0 ≡ some object
      → CannotRead l (with_programs l object) (offsets_inject os l b (call l.load_object m).1).1
      → Failed os l enable m
