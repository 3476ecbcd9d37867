-- ===== src/Tracefs/Line.antt =====
-- `tracepoint_parse` of src/bpf.rs on a line of a format file as the kernel prints it.
use aether_opt_ext.Base.{
  ℕ, ◌≤◌, ◌≢◌, ◌≡◌, refl, sym, ap, ◌∙◌, Option, none, some, List, [], ◌∷◌, ◌++◌, append_assoc,
  append-nil, map, arith, All, All-append, drop-append, inl,
}
use aether_opt_ext.Base.Text.{
  Text, codes, head_or_nil, split, trim, first_part, parse_uint, to_string, to_string-digits,
  IsDigit, IsPlain, IsWordByte, split-append, split-lacks, trim-plain, trim-framed, trim-tab,
  split_whitespace-last, strip_prefix, starts_with-append, parse_uint-to_string,
}
use aether_opt_ext.Tracefs.{
  u32_max, first_offset, offset_in, field_name, parse_parts, parse_field, parse_line,
}

-- The end of a declaration: nothing, or the size of an array.
abbrev pub array_text : Option Text → Text
array_text none = []
array_text (some size) = b'[' ∷ size

-- A field of a tracepoint: its type, its name, the size if it is an array, the offset, and the text
-- behind the offset.
pub record Field : Type 0 where
  pub type_start : ℕ
  pub type_rest : Text
  pub name_start : ℕ
  pub name_rest : Text
  pub array : Option Text
  pub offset : ℕ
  pub more : Text

abbrev pub name_of : Field → Text
name_of f = f.name_start ∷ f.name_rest

abbrev pub last_word : Field → Text
last_word f = f.name_start ∷ (f.name_rest ++ array_text f.array)

abbrev pub decl : Field → Text
decl f = (f.type_start ∷ f.type_rest) ++ (32 ∷ last_word f)

abbrev pub offset_text : Field → Text
offset_text f = codes "offset:" ++ to_string f.offset

-- "\tfield:TYPE NAME;\toffset:N;MORE;"
abbrev pub field_text : Field → Text
field_text f = decl f ++ (b';' ∷ ((9 ∷ offset_text f) ++ (b';' ∷ (f.more ++ b';' ∷ []))))

abbrev pub field_line : Field → Text
field_line f = 9 ∷ (codes "field:" ++ field_text f)

-- A byte of a word that is no semicolon, and one that is no bracket either.
abbrev pub IsTokenByte : ℕ → Type 0
IsTokenByte b = IsPlain b × (b ≢ b';')

abbrev pub IsTypeByte : ℕ → Type 0
IsTypeByte b = IsWordByte b × (b ≢ b';')

pub record IsField (f : Field) : Type 0 where
  pub type_first : IsTokenByte f.type_start
  pub type_bytes : All IsTypeByte f.type_rest
  pub name_bytes : All IsTokenByte (name_of f)
  pub name_lacks : All (λ b. b ≢ b'[') (name_of f)
  pub array_bytes : All IsTokenByte (array_text f.array)
  pub offset_le : f.offset ≤ u32_max

All-weaken : (P Q : ℕ → Type 0) (s : Text) → ((b : ℕ) → P b → Q b) → All P s → All Q s
All-weaken P Q [] f h = tt
All-weaken P Q (b ∷ s) f (hb, h) = (f b hb, All-weaken P Q s f h)

pub strip_prefix-append : (p s : Text) → strip_prefix (p ++ s) p ≡ some s
unfolding strip_prefix
strip_prefix-append p s = rw (starts_with-append p s, drop-append p s) refl

cut :
    (name : Text) (array : Option Text)
    → All (λ b. b ≢ b'[') name
    → first_part b'[' (name ++ array_text array) ≡ name
cut name none h =
    ap (λ s. first_part b'[' s) (append-nil name) ∙ ap head_or_nil (split-lacks b'[' name h)
cut name (some size) h = ap head_or_nil (split-append b'[' name size h)

-- The last byte of a text that is not empty.
last_byte :
    (b : ℕ) (w : Text)
    → All IsPlain (b ∷ w)
    → (s : Text) × (c : ℕ) × IsPlain c × (b ∷ w ≡ s ++ c ∷ [])
last_byte b [] (hb, h) = ([], b, hb, refl)
last_byte b (c ∷ w) (hb, h) = let (s, d, p, e) = last_byte c w h in (b ∷ s, d, p, ap (λ t. b ∷ t) e)

-- A text that begins with a plain byte and ends with some is not trimmed.
trim-ends :
    (a : ℕ) (s : Text) (b : ℕ) (w : Text)
    → IsPlain a
    → All IsPlain (b ∷ w)
    → trim (a ∷ (s ++ (b ∷ w))) ≡ a ∷ (s ++ (b ∷ w))
trim-ends a s b w ha hw =
    let (t, c, hc, e) = last_byte b w hw in
    let same : a ∷ (s ++ (b ∷ w)) ≡ a ∷ ((s ++ t) ++ c ∷ []) =
      ap (λ x. a ∷ (s ++ x)) e ∙ ap (λ x. a ∷ x) (sym (append_assoc s t (c ∷ []))) in
    ap trim same ∙ (trim-framed a (s ++ t) c ha hc ∙ sym same)

module _ (f : Field) (v : IsField f) where
  word_bytes : All IsTokenByte (last_word f)
  word_bytes = All-append IsTokenByte (name_of f) (array_text f.array) v.name_bytes v.array_bytes

  IsPlain-word : All IsPlain (last_word f)
  IsPlain-word = All-weaken IsTokenByte IsPlain (last_word f) (λ b h. h.0) word_bytes

  decl_lacks : All (λ b. b ≢ b';') (decl f)
  decl_lacks = (
    v.type_first.1,
    All-append (λ b. b ≢ b';') f.type_rest (32 ∷ last_word f)
        (All-weaken IsTypeByte (λ b. b ≢ b';') f.type_rest (λ b h. h.1) v.type_bytes)
        (omega arith, All-weaken IsTokenByte (λ b. b ≢ b';') (last_word f) (λ b h. h.1) word_bytes),
  )

  -- The name without the size of the array.
  cut_array : first_part b'[' (last_word f) ≡ name_of f
  cut_array = cut (name_of f) f.array v.name_lacks

  decl_name : field_name (decl f) ≡ name_of f
  unfolding field_name
  decl_name =
      ap (λ w. first_part b'[' w)
        (split_whitespace-last (f.type_start ∷ f.type_rest) f.name_start
          (f.name_rest ++ array_text f.array)
          (
            inl v.type_first.0,
            All-weaken IsTypeByte IsWordByte f.type_rest (λ b h. h.0) v.type_bytes,
          )
          IsPlain-word)
      ∙ cut_array

  trim-decl : trim (decl f) ≡ decl f
  trim-decl =
      let same : decl f ≡ f.type_start ∷ ((f.type_rest ++ 32 ∷ []) ++ last_word f) =
        ap (λ x. f.type_start ∷ x) (sym (append_assoc f.type_rest (32 ∷ []) (last_word f))) in
      ap trim same
      ∙ (trim-ends f.type_start (f.type_rest ++ 32 ∷ []) f.name_start
            (f.name_rest ++ array_text f.array) v.type_first.0 IsPlain-word
          ∙ sym same)

  digits-IsPlain : All IsPlain (to_string f.offset)
  digits-IsPlain =
      All-weaken IsDigit IsPlain (to_string f.offset) (λ b d. omega arith)
        (to_string-digits f.offset)

  offset_bytes : All IsTokenByte (offset_text f)
  offset_bytes = All-append IsTokenByte (codes "offset:") (to_string f.offset) (ground arith) (
      All-weaken IsDigit IsTokenByte (to_string f.offset) (λ b d. (omega arith, omega arith))
        (to_string-digits f.offset))

  offset_trim : trim (9 ∷ offset_text f) ≡ offset_text f
  offset_trim =
      trim-tab (offset_text f)
      ∙ trim-plain (offset_text f)
          (All-weaken IsTokenByte IsPlain (offset_text f) (λ b h. h.0) offset_bytes)

  offset_read : offset_in (strip_prefix (offset_text f) (codes "offset:")) ≡ some f.offset
  offset_read =
      ap offset_in (strip_prefix-append (codes "offset:") (to_string f.offset))
      ∙ (ap (λ s. parse_uint u32_max s) (trim-plain (to_string f.offset) digits-IsPlain)
          ∙ parse_uint-to_string u32_max f.offset v.offset_le)

  -- Behind the declaration and the offset, nothing matters.
  parts_read :
      (rest : List Text) → parse_parts (decl f ∷ offset_text f ∷ rest) ≡ some (name_of f, f.offset)
  unfolding parse_parts first_offset
  parts_read rest = rw (decl_name, offset_read) refl

  offset_lacks : All (λ b. b ≢ b';') (9 ∷ offset_text f)
  offset_lacks = (
    omega arith,
    All-weaken IsTokenByte (λ b. b ≢ b';') (offset_text f) (λ b h. h.1) offset_bytes,
  )

  field_read : parse_field (some (field_text f)) ≡ some (name_of f, f.offset)
  field_read =
      let tail : Text = f.more ++ b';' ∷ [] in
      let cut_decl = split-append b';' (decl f) ((9 ∷ offset_text f) ++ (b';' ∷ tail)) decl_lacks in
      let cut_offset = split-append b';' (9 ∷ offset_text f) tail offset_lacks in
      ap (λ ps. parse_parts (map trim ps)) (cut_decl ∙ ap (λ ps. decl f ∷ ps) cut_offset)
      ∙ ((λ i. parse_parts (trim-decl i ∷ offset_trim i ∷ map trim (split b';' tail)))
          ∙ parts_read (map trim (split b';' tail)))

  line_trim : trim (field_line f) ≡ codes "field:" ++ field_text f
  line_trim =
      let inner : Text =
        codes "ield:" ++ (decl f ++ (b';' ∷ ((9 ∷ offset_text f) ++ (b';' ∷ f.more)))) in
      let same : codes "field:" ++ field_text f ≡ b'f' ∷ (inner ++ b';' ∷ []) = simp append_assoc in
      trim-tab (codes "field:" ++ field_text f)
      ∙ (ap trim same ∙ (trim-framed b'f' inner b';' (omega arith) (omega arith) ∙ sym same))

-- A line that the kernel prints for a field gives the field's name, without the size of an array,
-- and its offset, if the type, the name and the size are of printable ASCII bytes, none of them a
-- semicolon, only the type has blanks, the name has no bracket, and the offset fits 32 bits.
pub parse_line-field_line :
    (f : Field) → IsField f → parse_line (field_line f) ≡ some (name_of f, f.offset)
unfolding parse_line
parse_line-field_line f v =
    ap (λ s. parse_field (strip_prefix s (codes "field:"))) (line_trim f v)
    ∙ (ap parse_field (strip_prefix-append (codes "field:") (field_text f)) ∙ field_read f v)
