-- ===== src/Tests/Values.antt =====
-- The interface to the crate `json` at the values of the examples, and its laws.
use aether_opt_ext.Base.{
  ◌≡◌, refl, ap, ◌∙◌, true, false, Option, none, some, [], ◌∷◌, ◌++◌, arith, if◌then◌else◌,
  Bool-cases, inl, inr,
}
use aether_opt_ext.Base.Text.{
  Text, codes, text_eq, text_eq_refl, text_eq→eq, is_empty, starts_with, trim-framed,
  trim_start-plain,
}
use aether_opt_ext.Entries.{Json}
use aether_opt_ext.ConfigFile.Save.{JsonBuild}
use aether_opt_ext.ConfigFile.Save.Unique.{JsonLaws}
use aether_opt_ext.AutoAlloc.Laws.{PrintLaws}
use aether_opt_ext.Tests.Printed.{
  Value, null, text, no_items, item, no_fields, field, is_array, is_object, members, entries, get,
  first_member, push, set_field, print, stringify, parse, parse-stringify,
}

abbrev pub as_str : Value → Option Text
as_str (text s) = some s
as_str _ = none

abbrev pub value_json : Json Value
value_json = record {
  parse = parse;
  get = get;
  as_str = as_str;
  as_bool = λ v. none;
  is_array = is_array;
  is_object = is_object;
  members = members;
  entries = entries;
}

abbrev pub value_build : JsonBuild Value
value_build = record {
  at = λ v i. first_member (members v);
  new_object = no_fields;
  set_field = set_field;
  new_array = no_items;
  push = push;
  string = text;
  stringify_pretty = λ v n. stringify v;
}

is_array-push : (a v : Value) → is_array a ≡ true → is_array (push a v) ≡ true
is_array-push null v h = h
is_array-push (text s) v h = h
is_array-push no_items v h = refl
is_array-push (item w r) v h = is_array-push r v h
is_array-push no_fields v h = h
is_array-push (field k w r) v h = h

members-push : (a v : Value) → is_array a ≡ true → members (push a v) ≡ members a ++ v ∷ []
members-push null v h = absurd (ground arith)
members-push (text s) v h = absurd (ground arith)
members-push no_items v h = refl
members-push (item w r) v h = ap (λ vs. w ∷ vs) (members-push r v h)
members-push no_fields v h = absurd (ground arith)
members-push (field k w r) v h = absurd (ground arith)

is_object-set :
    (o : Value) (k : Text) (v : Value) → is_object o ≡ true → is_object (set_field o k v) ≡ true
is_object-set null k v h = h
is_object-set (text s) k v h = h
is_object-set no_items k v h = h
is_object-set (item w r) k v h = h
is_object-set no_fields k v h = refl
is_object-set (field l w r) k v h = elim (Bool-cases (text_eq l k)) [
  | inl same ↦ rw same h
  | inr other ↦ rw other (is_object-set r k v h)
]

get-set_self : (o : Value) (k : Text) (v : Value) → is_object o ≡ true → get (set_field o k v) k ≡ v
get-set_self null k v h = absurd (ground arith)
get-set_self (text s) k v h = absurd (ground arith)
get-set_self no_items k v h = absurd (ground arith)
get-set_self (item w r) k v h = absurd (ground arith)
get-set_self no_fields k v h = rw (text_eq_refl k) refl
get-set_self (field l w r) k v h = elim (Bool-cases (text_eq l k)) [
  | inl same ↦ rw (same, same) refl
  | inr other ↦ rw (other, other) (get-set_self r k v h)
]

get-set_other :
    (o : Value) (k l : Text) (v : Value)
    → is_object o ≡ true
    → text_eq k l ≡ false
    → get (set_field o k v) l ≡ get o l
get-set_other null k l v h ne = absurd (ground arith)
get-set_other (text s) k l v h ne = absurd (ground arith)
get-set_other no_items k l v h ne = absurd (ground arith)
get-set_other (item w r) k l v h ne = absurd (ground arith)
get-set_other no_fields k l v h ne = rw ne refl
get-set_other (field j w r) k l v h ne = elim (Bool-cases (text_eq j k)) [
  | inl same ↦
      let missed : text_eq j l ≡ false = rw (text_eq→eq j k same) ne in rw (same, missed) refl
  | inr other ↦ rw other (ap (λ rest. if text_eq j l then w else rest) (get-set_other r k l v h ne))
]

pub value-JsonLaws : JsonLaws value_json value_build
value-JsonLaws = record {
  is_array_new = refl;
  members_new = refl;
  is_array_push = is_array-push;
  members_push = members-push;
  at_first = λ a v h. ap first_member h;
  is_object_new = refl;
  is_object_set = is_object-set;
  get_set_self = get-set_self;
  get_set_other = get-set_other;
  as_str_string = λ s. refl;
}

pub value-PrintLaws : PrintLaws value_json value_build
value-PrintLaws = record {
  not_blank = λ a h.
      ap is_empty
        (trim-framed b'[' (print a) b']' (omega arith, omega arith) (omega arith, omega arith));
  bracket = λ a h.
      ap (λ s. starts_with s (codes "["))
        (trim_start-plain b'[' (print a ++ b']' ∷ []) (omega arith, omega arith))
      ∙ unfold starts_with in refl;
  parse_back = λ a h. parse-stringify a;
}
