-- ===== src/Tracefs/Format.antt =====
-- `tracepoint_parse` of src/bpf.rs on the whole format file of a tracepoint.
use aether_opt_ext.Base.{
  ℕ, ◌≢◌, ◌≡◌, refl, ap, ◌∙◌, Option, none, some, List, [], ◌∷◌, All, map, if◌then◌else◌,
}
use aether_opt_ext.Base.Text.{Text, lines_text, lines-lines_text, text_eq}
use aether_opt_ext.Tracefs.{Fields, get_field, add_field, parse_line, parse_lines, parse_format}
use aether_opt_ext.Tracefs.Line.{Field, IsField, name_of, field_line, parse_line-field_line}

-- A line that is no field, or a field.
pub data FormatLine : Type 0 where
  other : Text → FormatLine
  field : Field → FormatLine

abbrev pub line_text : FormatLine → Text
line_text (other text) = text
line_text (field f) = field_line f

-- One line, which reads as it should.
abbrev pub IsLine : FormatLine → Type 0
IsLine (other text) = All (λ b. b ≢ 10) text × (parse_line text ≡ none)
IsLine (field f) = All (λ b. b ≢ 10) (field_line f) × IsField f

-- The offset of a field: that of the last field with its name.
abbrev pub offset_in_file : Text → List FormatLine → Option ℕ → Option ℕ
offset_in_file name [] found = found
offset_in_file name (other text ∷ ls) found = offset_in_file name ls found
offset_in_file name (field f ∷ ls) found =
    offset_in_file name ls (if text_eq (name_of f) name then some f.offset else found)

abbrev pub file_text : List FormatLine → Text
file_text ls = lines_text (map line_text ls)

one_line_each :
    (ls : List FormatLine) → All IsLine ls → All (λ l. All (λ b. b ≢ 10) l) (map line_text ls)
one_line_each [] h = tt
one_line_each (other text ∷ ls) ((one, _), h) = (one, one_line_each ls h)
one_line_each (field f ∷ ls) ((one, _), h) = (one, one_line_each ls h)

get_field-parse_lines :
    (name : Text) (ls : List FormatLine) (acc : Fields)
    → All IsLine ls
    → get_field name (parse_lines (map line_text ls) acc)
      ≡ offset_in_file name ls (get_field name acc)
unfolding parse_lines
get_field-parse_lines name [] acc h = refl
get_field-parse_lines name (other text ∷ ls) acc ((_, skips), h) =
    ap (λ o. get_field name (parse_lines (map line_text ls) (add_field o acc))) skips
    ∙ get_field-parse_lines name ls acc h
get_field-parse_lines name (field f ∷ ls) acc ((_, v), h) =
    ap (λ o. get_field name (parse_lines (map line_text ls) (add_field o acc)))
      (parse_line-field_line f v)
    ∙ (get_field-parse_lines name ls ((name_of f, f.offset) ∷ acc) h
        ∙ ap (λ o. offset_in_file name ls o) (unfold get_field in refl))

-- In a format file of lines that hold a field as the kernel prints it or no field at all, each field
-- has the offset of its last line.
pub get_field-parse_format :
    (name : Text) (ls : List FormatLine)
    → All IsLine ls
    → get_field name (parse_format (file_text ls)) ≡ offset_in_file name ls none
unfolding parse_format
get_field-parse_format name ls h =
    ap (λ ps. get_field name (parse_lines ps []))
      (lines-lines_text (map line_text ls) (one_line_each ls h))
    ∙ (get_field-parse_lines name ls [] h
        ∙ ap (λ o. offset_in_file name ls o) (unfold get_field in refl))
