-- ===== src/Reader/Layout.antt =====
-- The bytes in which the kernel's `ProcEvent` (ebpf/src/main.rs) stands in the ring buffer, and what
-- the reader of src/bpf.rs makes of them.
use aether_opt_ext.Base.{
  ℕ, ◌^◌, ◌<◌, ◌≡◌, sym, ap, ◌∙◌, append-nil, List, [], ◌++◌, arith, length, take, drop,
  take-append, drop-append, length-append,
}
use aether_opt_ext.Base.Bytes.{le32, to_le32, le32-to_le32}
use aether_opt_ext.Kernel.{ProcEvent}
use aether_opt_ext.Events.{EbpfProcEvent}
use aether_opt_ext.Reader.{read_event, event_size}

-- `#[repr(C)]`: the fields follow one another without a gap.
unfoldable pub proc_event_bytes : ProcEvent → List ℕ
proc_event_bytes e = to_le32 e.pid ++ (to_le32 e.tid ++ (e.comm ++ to_le32 e.event_type))

-- The numbers of the structure have 32 bits, and the name has 16 bytes.
pub record IsProcEvent (e : ProcEvent) : Type 0 where
  pub pid_lt : e.pid < 2 ^ 32
  pub tid_lt : e.tid < 2 ^ 32
  pub comm_size : length e.comm ≡ 16
  pub type_lt : e.event_type < 2 ^ 32

-- The event that user space is to get.
abbrev pub received : ProcEvent → EbpfProcEvent
received e = record { pid = e.pid; tid = e.tid; comm = e.comm; event_type = e.event_type }

pub length-proc_event_bytes :
    (e : ProcEvent) → IsProcEvent e → length (proc_event_bytes e) ≡ event_size
unfolding proc_event_bytes to_le32
length-proc_event_bytes e v =
    omega (arith, v.comm_size, length-append e.comm (to_le32 e.event_type))

module _ (e : ProcEvent) (v : IsProcEvent e) where
  abbrev tail : List ℕ
  tail = e.comm ++ to_le32 e.event_type

  tid_read : le32 (drop 4 (to_le32 e.pid ++ (to_le32 e.tid ++ tail))) ≡ e.tid
  unfolding to_le32
  tid_read = le32-to_le32 e.tid tail v.tid_lt

  comm_read : take 16 tail ≡ e.comm
  comm_read =
      ap (λ (n : ℕ). take n (e.comm ++ to_le32 e.event_type)) (sym v.comm_size)
      ∙ take-append e.comm (to_le32 e.event_type)

  type_read : le32 (drop 16 tail) ≡ e.event_type
  type_read =
      ap (λ (n : ℕ). le32 (drop n (e.comm ++ to_le32 e.event_type))) (sym v.comm_size)
      ∙ (ap (λ (s : List ℕ). le32 s) (drop-append e.comm (to_le32 e.event_type))
          ∙ (ap (λ (s : List ℕ). le32 s) (sym (append-nil (to_le32 e.event_type)))
              ∙ le32-to_le32 e.event_type [] v.type_lt))

-- An event with numbers of 32 bits and a name of 16 bytes is read as it was written.
pub read_event-proc_event_bytes :
    (e : ProcEvent) → IsProcEvent e → read_event (proc_event_bytes e) ≡ received e
unfolding read_event proc_event_bytes to_le32
read_event-proc_event_bytes e v = λ i. record {
  pid = le32-to_le32 e.pid (to_le32 e.tid ++ tail e v) v.pid_lt i;
  tid = tid_read e v i;
  comm = comm_read e v i;
  event_type = type_read e v i;
}
