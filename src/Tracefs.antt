-- ===== src/Tracefs.antt =====
-- src/bpf.rs, `tracefs_root`, `tracepoint_parse`, `offsets_inject` and `probe`: the offsets of the
-- tracepoints' fields, and the loading of the programs.
pub mod Line
pub mod Format
pub mod Probe
use aether_opt_ext.Base.{
  ℕ, ◌-◌, ◌^◌, Bool, true, false, Option, none, some, List, [], ◌∷◌, ◌++◌, map, State, ltb, leb,
  if◌then◌else◌, length,
}
use aether_opt_ext.Base.Text.{
  Text, codes, is_empty, split, trim, first_part, parse_uint, text_eq, split_whitespace,
  last_or_nil, strip_prefix, lines,
}
use aether_opt_ext.Os.{Os}
use aether_opt_ext.Os.Machine.{Machine, call}

-- `HashMap<String, u32>`
abbrev pub Fields : Type 0
Fields = List (Text × ℕ)

unfoldable pub get_field : Text → Fields → Option ℕ
get_field name [] = none
get_field name ((k, v) ∷ fields) = if text_eq k name then some v else get_field name fields

abbrev pub u32_max : ℕ
u32_max = 2 ^ 32 - 1

-- `strip_prefix("offset:")` and the number behind it.
abbrev pub offset_in : Option Text → Option ℕ
offset_in none = none
offset_in (some off_str) = parse_uint u32_max (trim off_str)

abbrev pub or_else {ℓ} : {A : Type ℓ} → Option A → Option A → Option A
or_else none o = o
or_else (some a) o = some a

-- The first of the parts that is an offset.
unfoldable pub first_offset : List Text → Option ℕ
first_offset [] = none
first_offset (part ∷ parts) =
    or_else (offset_in (strip_prefix part (codes "offset:"))) (first_offset parts)

-- The last word, without the size of an array.
unfoldable pub field_name : Text → Text
field_name part = first_part b'[' (last_or_nil (split_whitespace part))

abbrev pub field_at : Text → Option ℕ → Option (Text × ℕ)
field_at name none = none
field_at name (some off) = if is_empty name then none else some (name, off)

-- The parts of a field: the declaration, and those that may hold the offset.
unfoldable pub parse_parts : List Text → Option (Text × ℕ)
unfolding first_offset field_name
parse_parts [] = none
parse_parts (decl ∷ []) = none
parse_parts (decl ∷ part ∷ parts) = field_at (field_name decl) (first_offset (part ∷ parts))

abbrev pub parse_field : Option Text → Option (Text × ℕ)
parse_field none = none
parse_field (some rest) = parse_parts (map trim (split b';' rest))

unfoldable pub parse_line : Text → Option (Text × ℕ)
unfolding parse_parts
parse_line line = parse_field (strip_prefix (trim line) (codes "field:"))

-- A later field of a name takes the place of an earlier one.
abbrev pub add_field : Option (Text × ℕ) → Fields → Fields
add_field none offsets = offsets
add_field (some field) offsets = field ∷ offsets

unfoldable pub parse_lines : List Text → Fields → Fields
unfolding parse_line
parse_lines [] offsets = offsets
parse_lines (line ∷ rest) offsets = parse_lines rest (add_field (parse_line line) offsets)

unfoldable pub parse_format : Text → Fields
unfolding parse_lines
parse_format content = parse_lines (lines content) []

pub record EbpfOffsets : Type 0 where
  pub fork_child_pid : ℕ
  pub fork_child_comm : ℕ
  pub rename_newcomm : ℕ

abbrev pub with_newcomm : ℕ → ℕ → Option ℕ → Option EbpfOffsets
with_newcomm pid comm none = none
with_newcomm pid comm (some newcomm) =
    some (record { fork_child_pid = pid; fork_child_comm = comm; rename_newcomm = newcomm })

abbrev pub with_comm : ℕ → Option ℕ → Option ℕ → Option EbpfOffsets
with_comm pid none newcomm = none
with_comm pid (some comm) newcomm = with_newcomm pid comm newcomm

abbrev pub with_pid : Option ℕ → Option ℕ → Option ℕ → Option EbpfOffsets
with_pid none comm newcomm = none
with_pid (some pid) comm newcomm = with_comm pid comm newcomm

-- Each `?` ends it with nothing.
unfoldable pub offsets_of : Fields → Fields → Option EbpfOffsets
offsets_of fork_fields rename_fields =
    with_pid (get_field (codes "child_pid") fork_fields)
      (get_field (codes "child_comm") fork_fields) (get_field (codes "newcomm") rename_fields)

abbrev pub map_format : Option Text → Option Fields
map_format none = none
map_format (some content) = some (parse_format content)

module _ {W B : Type 0} (os : Os W) where
  unfoldable pub tracefs_root : State (Machine W B) (Option Text)
  tracefs_root m =
      let tracing = codes "/sys/kernel/tracing" in
      let debug = codes "/sys/kernel/debug/tracing" in
      let first = call (os.exists tracing) m in
      let second = call (os.exists debug) first.1 in
      if first.0 then (some tracing, first.1) else (if second.0 then some debug else none, second.1)

  unfoldable pub tracepoint_parse : Text → Text → Text → State (Machine W B) (Option Fields)
  unfolding parse_format
  tracepoint_parse root category name m =
      let path = root ++ codes "/events/" ++ category ++ codes "/" ++ name ++ codes "/format" in
      let content = call (os.read_file path) m in (map_format content.0, content.1)

  -- The second file is read only if the first could be.
  unfoldable pub read_rename : Text → Option Fields → State (Machine W B) (Option EbpfOffsets)
  unfolding tracepoint_parse offsets_of
  read_rename root none m = (none, m)
  read_rename root (some fork_fields) m =
      let rename = tracepoint_parse root (codes "task") (codes "task_rename") m in
      (elim rename.0 [ none ↦ none | some fields ↦ offsets_of fork_fields fields ], rename.1)

  unfoldable pub read_offsets : Option Text → State (Machine W B) (Option EbpfOffsets)
  unfolding read_rename
  read_offsets none m = (none, m)
  read_offsets (some root) m =
      let fork = tracepoint_parse root (codes "sched") (codes "sched_process_fork") m in
      read_rename root fork.0 fork.1
