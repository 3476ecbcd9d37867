-- ===== src/Tests/Printed.antt =====
-- A type of json values for the examples, printed and read back.
use aether_opt_ext.Base.{
  ℕ, zero, suc, ◌≤◌, ◌<◌, ◌≡◌, refl, ap, Bool, true, false, Option, none, some, List, [], ◌∷◌, ◌++◌,
  arith, append_assoc, if◌then◌else◌, ◌==◌, length, take, drop, take-append, drop-append,
  length-append,
}
use aether_opt_ext.Base.Text.{Text, text_eq}

-- An array is `no_items` or an item in front of an array, an object likewise.
pub data Value : Type 0 where
  null : Value
  text : Text → Value
  no_items : Value
  item : Value → Value → Value
  no_fields : Value
  field : Text → Value → Value → Value

abbrev pub is_array : Value → Bool
is_array no_items = true
is_array (item v r) = is_array r
is_array _ = false

abbrev pub is_object : Value → Bool
is_object no_fields = true
is_object (field k v r) = is_object r
is_object _ = false

abbrev pub members : Value → List Value
members (item v r) = v ∷ members r
members _ = []

abbrev pub entries : Value → List (Text × Value)
entries (field k v r) = (k, v) ∷ entries r
entries _ = []

abbrev pub get : Value → Text → Value
get (field k v r) key = let rest = get r key in if text_eq k key then v else rest
get _ key = null

abbrev pub first_member : List Value → Value
first_member [] = null
first_member (v ∷ vs) = v

abbrev pub push : Value → Value → Value
push (item w r) v = item w (push r v)
push no_items v = item v no_items
push null v = null
push (text s) v = text s
push no_fields v = no_fields
push (field k w r) v = field k w r

abbrev pub set_field : Value → Text → Value → Value
set_field (field k w r) key v =
    let rest = set_field r key v in if text_eq k key then field k v r else field k w rest
set_field no_fields key v = field key v no_fields
set_field null key v = null
set_field (text s) key v = text s
set_field no_items key v = no_items
set_field (item w r) key v = item w r

-- Each value prints a number for its kind, and a text prints its length first.
abbrev pub print : Value → Text
print null = 0 ∷ []
print (text s) = 1 ∷ length s ∷ s
print no_items = 2 ∷ []
print (item v r) = 3 ∷ print v ++ print r
print no_fields = 4 ∷ []
print (field k v r) = 5 ∷ length k ∷ k ++ (print v ++ print r)

abbrev Read : Type 0
Read = Option (Value × Text)

abbrev bind_read : Read → (Value → Text → Read) → Read
bind_read none f = none
bind_read (some (v, s)) f = f v s

abbrev read_text : Text → Read
read_text [] = none
read_text (n ∷ s) = some (text (take n s), drop n s)

abbrev with_key : Text → (Text → Text → Read) → Read
with_key [] f = none
with_key (n ∷ s) f = f (take n s) (drop n s)

-- `rounds` is at least the length of what is read.
read_value : ℕ → Text → Read
read_value zero s = none
read_value (suc rounds) [] = none
read_value (suc rounds) (c ∷ s) =
    let as_item =
      bind_read (read_value rounds s)
        (λ v t. bind_read (read_value rounds t) (λ r u. some (item v r, u))) in
    let as_field = with_key s (λ k w.
      bind_read (read_value rounds w)
        (λ v t. bind_read (read_value rounds t) (λ r u. some (field k v r, u)))) in
    if c == 0
    then some (null, s)
    else if c == 1
    then read_text s
    else if c == 2
    then some (no_items, s)
    else if c == 3
    then as_item
    else if c == 4
    then some (no_fields, s)
    else as_field

print-length : (v : Value) → 0 < length (print v)
print-length null = omega arith
print-length (text s) = omega arith
print-length no_items = omega arith
print-length (item v r) = omega arith
print-length no_fields = omega arith
print-length (field k v r) = omega arith

read_value-print :
    (v : Value) (rounds : ℕ) (t : Text)
    → length (print v) ≤ rounds
    → read_value rounds (print v ++ t) ≡ some (v, t)
unfolding read_value
read_value-print v zero t h = absurd (omega (arith, print-length v))
read_value-print null (suc rounds) t h = refl
read_value-print (text s) (suc rounds) t h = rw (take-append s t, drop-append s t) refl
read_value-print no_items (suc rounds) t h = refl
read_value-print no_fields (suc rounds) t h = refl
read_value-print (item v r) (suc rounds) t h = rw (append_assoc (print v) (print r) t) (
    rw
      (
        read_value-print v rounds (print r ++ t) (omega (arith, length-append (print v) (print r))),
        read_value-print r rounds t (omega (arith, length-append (print v) (print r))),
      )
      refl)
read_value-print (field k v r) (suc rounds) t h =
    let rest : Text = print v ++ print r in
    let size = length-append k rest in
    let size_both = length-append (print v) (print r) in
    rw (append_assoc k rest t) (
      rw (take-append k (rest ++ t), drop-append k (rest ++ t))
        (rw (append_assoc (print v) (print r) t) (
          rw
            (
              read_value-print v rounds (print r ++ t) (omega (arith, size, size_both)),
              read_value-print r rounds t (omega (arith, size, size_both)),
            )
            refl)))

abbrev pub stringify : Value → Text
stringify v = b'[' ∷ (print v ++ b']' ∷ [])

abbrev value_of : Read → Option Value
value_of none = none
value_of (some (v, s)) = some v

unfoldable pub parse : Text → Option Value
unfolding read_value
parse [] = none
parse (c ∷ s) = value_of (read_value (length s) s)

pub parse-stringify : (v : Value) → parse (stringify v) ≡ some v
unfolding parse
parse-stringify v = ap value_of (
    read_value-print v (length (print v ++ b']' ∷ [])) (b']' ∷ [])
      (omega (arith, length-append (print v) (b']' ∷ []))))
