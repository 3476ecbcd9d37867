-- ===== src/Inotify/Walk.antt =====
-- The loop of `read_inotify` of src/main.rs over the events that the kernel writes.
use aether_opt_ext.Base.{
  ℕ, zero, suc, ◌+◌, ◌*◌, ◌/◌, ◌^◌, ◌≤◌, ◌<◌, ◌≡◌, refl, sym, ap, ◌∙◌, Bool, true, false, ◌||◌,
  some, List, [], ◌∷◌, ◌++◌, append_assoc, arith, leb, length, any, All, Bool-cases, inl, inr,
  length-append, drop-append_add,
}
use aether_opt_ext.Base.Bytes.{u32_at, le32, to_le32, le32-to_le32}
use aether_opt_ext.Inotify.{
  Seen, nothing_seen, note_event, walk, read_events, header, has_bits, in_gone, in_close_write,
}

walk-ends :
    (rounds off : ℕ) (bytes : List ℕ) (seen : Seen)
    → 0 < rounds
    → length bytes < off + header * rounds
    → (r : Seen) × (walk rounds off bytes seen ≡ some r)
unfolding walk
walk-ends zero off bytes seen p h = absurd (omega arith)
walk-ends (suc rounds) off bytes seen p h = elim (Bool-cases (leb (off + header) (length bytes))) [
  | inl more ↦
      let le : off + header ≤ length bytes = ground arith in
      rw more (
        walk-ends rounds (off + (header + u32_at (off + 12) bytes)) bytes
          (note_event (u32_at (off + 4) bytes) seen) (omega arith) (omega arith))
  | inr done ↦ rw done (seen, refl)
]

-- Whatever is in the buffer, the loop ends within one round for each 16 bytes and one more, so the
-- rounds never run out.
pub read_events-ends : (bytes : List ℕ) → (r : Seen) × (read_events bytes ≡ some r)
unfolding read_events
read_events-ends bytes =
    walk-ends (length bytes / header + 1) 0 bytes nothing_seen (omega arith) (omega arith)

-- An event of the kernel, and the bytes in which it hands it over.
pub record InotifyEvent : Type 0 where
  pub wd : ℕ
  pub mask : ℕ
  pub cookie : ℕ
  pub name : List ℕ

pub record IsEvent (e : InotifyEvent) : Type 0 where
  pub mask_lt : e.mask < 2 ^ 32
  pub len_lt : length e.name < 2 ^ 32

abbrev pub event_bytes : InotifyEvent → List ℕ
event_bytes e =
    to_le32 e.wd ++ (to_le32 e.mask ++ (to_le32 e.cookie ++ (to_le32 (length e.name) ++ e.name)))

abbrev pub events_bytes : List InotifyEvent → List ℕ
events_bytes [] = []
events_bytes (e ∷ es) = event_bytes e ++ events_bytes es

abbrev pub is_gone : InotifyEvent → Bool
is_gone e = has_bits e.mask in_gone

abbrev pub is_change : InotifyEvent → Bool
is_change e = has_bits e.mask in_gone || has_bits e.mask in_close_write

module _ (p : List ℕ) (e : InotifyEvent) (v : IsEvent e) (t : List ℕ) where
  mask_at : u32_at (length p + 4) (p ++ (event_bytes e ++ t)) ≡ e.mask
  unfolding to_le32
  mask_at =
      ap (λ (s : List ℕ). le32 s) (drop-append_add p 4 (event_bytes e ++ t))
      ∙ le32-to_le32 e.mask _ v.mask_lt

  len_at : u32_at (length p + 12) (p ++ (event_bytes e ++ t)) ≡ length e.name
  unfolding to_le32
  len_at =
      ap (λ (s : List ℕ). le32 s) (drop-append_add p 12 (event_bytes e ++ t))
      ∙ le32-to_le32 (length e.name) (e.name ++ t) v.len_lt

  length-event_bytes : length (event_bytes e) ≡ header + length e.name
  unfolding to_le32
  length-event_bytes = omega arith

-- What the events add to what was seen.
abbrev seen_in : List InotifyEvent → Seen → Seen
seen_in es seen = record {
  reload = any is_change es || seen.reload;
  rewatch = any is_gone es || seen.rewatch;
}

or_false : (b : Bool) → (b || false) ≡ b
or_false true = refl
or_false false = refl

or_later : (a b c : Bool) → (b || (a || c)) ≡ ((a || b) || c)
or_later true true c = refl
or_later true false c = refl
or_later false true c = refl
or_later false false c = refl

or_later2 : (a d b c : Bool) → (b || (a || d || c)) ≡ ((a || d) || b || c)
or_later2 true d true c = refl
or_later2 true d false c = refl
or_later2 false true true c = refl
or_later2 false true false c = refl
or_later2 false false true c = refl
or_later2 false false false c = refl

seen_next :
    (e : InotifyEvent) (es : List InotifyEvent) (seen : Seen)
    → some (seen_in es (note_event e.mask seen)) ≡ some (seen_in (e ∷ es) seen)
unfolding note_event
seen_next e es seen = λ i. some (record {
  reload =
      or_later2 (has_bits e.mask in_gone) (has_bits e.mask in_close_write) (any is_change es)
        seen.reload i;
  rewatch = or_later (is_gone e) (any is_gone es) seen.rewatch i;
})

walk-events :
    (es : List InotifyEvent) (rounds : ℕ) (p : List ℕ) (seen : Seen)
    → All IsEvent es
    → 0 < rounds
    → length (p ++ events_bytes es) < length p + header * rounds
    → walk rounds (length p) (p ++ events_bytes es) seen ≡ some (seen_in es seen)
unfolding walk
walk-events es zero p seen v r h = absurd (omega arith)
walk-events [] (suc rounds) p seen v r h =
    let stop : leb (length p + header) (length (p ++ [])) ≡ false =
      ground (arith, length-append p []) in
    rw stop refl
walk-events (e ∷ es) (suc rounds) p seen (v, vs) r h =
    let size = length-event_bytes p e v (events_bytes es) in
    let more : leb (length p + header) (length (p ++ (event_bytes e ++ events_bytes es))) ≡ true =
      ground (
        arith,
        size,
        length-append p (event_bytes e ++ events_bytes es),
        length-append (event_bytes e) (events_bytes es),
      ) in
    let off : length p + (header + length e.name) ≡ length (p ++ event_bytes e) =
      omega (arith, size, length-append p (event_bytes e)) in
    let bytes : p ++ (event_bytes e ++ events_bytes es) ≡ (p ++ event_bytes e) ++ events_bytes es =
      sym (append_assoc p (event_bytes e) (events_bytes es)) in
    let rest =
      walk-events es rounds (p ++ event_bytes e) (note_event e.mask seen) vs
        (omega (
          arith,
          length-append p (event_bytes e ++ events_bytes es),
          length-append (event_bytes e) (events_bytes es),
        ))
        (omega (arith, ap (λ (b : List ℕ). length b) bytes, off)) in
    rw (more, mask_at p e v (events_bytes es), len_at p e v (events_bytes es))
      ((λ i. walk rounds (off i) (bytes i) (note_event e.mask seen)) ∙ (rest ∙ seen_next e es seen))

-- Events of 32-bit masks and lengths ask for a reload exactly if one of them tells of a write, a
-- removal or a move of the file, and for a new watch exactly if one tells of a removal or a move.
pub read_events-events_bytes :
    (es : List InotifyEvent)
    → All IsEvent es
    → read_events (events_bytes es)
      ≡ some (record { reload = any is_change es; rewatch = any is_gone es })
unfolding read_events
read_events-events_bytes es v =
    walk-events es (length (events_bytes es) / header + 1) [] nothing_seen v (omega arith)
      (omega arith)
    ∙ λ i.
        some
          (record { reload = or_false (any is_change es) i; rewatch = or_false (any is_gone es) i })
