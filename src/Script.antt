-- ===== src/Script.antt =====
-- src/relay/messages/player_command.rs: the type of a command, read out of the script value that
-- carries it. A position in the buffer is the list of the bytes left there.
use veredus.Auth.{text}
use veredus.Base.{
  ℕ, zero, suc, ◌+◌, ◌*◌, Bool, false, ◌&&◌, ◌||◌, Option, none, some, List, [], ◌∷◌, ◌++◌, length,
  take, drop, ltb, ◌==◌, if◌then◌else◌,
}
use veredus.Text.{Text, Bytes, same_text}
use veredus.Text.Utf16.{decode_utf16}

abbrev pub script_type_void : ℕ
script_type_void = 0

abbrev pub script_type_null : ℕ
script_type_null = 1

abbrev pub script_type_array : ℕ
script_type_array = 2

abbrev pub script_type_object : ℕ
script_type_object = 3

abbrev pub script_type_string : ℕ
script_type_string = 4

abbrev pub script_type_int : ℕ
script_type_int = 5

abbrev pub script_type_double : ℕ
script_type_double = 6

abbrev pub script_type_boolean : ℕ
script_type_boolean = 7

abbrev pub script_type_backref : ℕ
script_type_backref = 8

abbrev script_type_typed_array : ℕ
script_type_typed_array = 9

abbrev script_type_array_buffer : ℕ
script_type_array_buffer = 10

abbrev script_type_object_prototype : ℕ
script_type_object_prototype = 11

abbrev script_type_object_number : ℕ
script_type_object_number = 12

abbrev script_type_object_string : ℕ
script_type_object_string = 13

abbrev script_type_object_boolean : ℕ
script_type_object_boolean = 14

abbrev script_type_object_map : ℕ
script_type_object_map = 15

abbrev script_type_object_set : ℕ
script_type_object_set = 16

abbrev pub max_skip_depth : ℕ
max_skip_depth = 64

-- `?` on an `Option`.
infixl 5 ◌>>?◌
abbrev pub ◌>>?◌ {ℓ κ} : {A : Type ℓ} {B : Type κ} → Option A → (A → Option B) → Option B
(found >>? rest) = elim found [ none ↦ none | some a ↦ rest a ]

-- The next `n` bytes and what is left after them, if there are so many.
unfoldable pub take_bytes : ℕ → Bytes → Option (Bytes × Bytes)
take_bytes n bs = if ltb (length bs) n then none else some (take n bs, drop n bs)

-- The check of the bounds that the scalars share.
unfoldable pub skip_bytes : ℕ → Bytes → Option Bytes
skip_bytes n bs = if ltb (length bs) n then none else some (drop n bs)

unfoldable pub read_u32 : Bytes → Option (ℕ × Bytes)
read_u32 (a ∷ b ∷ c ∷ d ∷ rest) = some (a + b * 256 + c * 65536 + d * 16777216, rest)
read_u32 (a ∷ b ∷ c ∷ []) = none
read_u32 (a ∷ b ∷ []) = none
read_u32 (a ∷ []) = none
read_u32 [] = none

-- The units of `len * 2` bytes.
unfoldable pub units_le : Bytes → List ℕ
units_le (a ∷ b ∷ bs) = (a + b * 256) ∷ units_le bs
units_le (a ∷ []) = []
units_le [] = []

unfoldable pub read_script_string : Bytes → Option (Text × Bytes)
read_script_string [] = none
read_script_string (is_latin1 ∷ bs) = read_u32 bs >>? λ r.
    if is_latin1 == 0
    then (take_bytes (r.0 * 2) r.1 >>? λ s. some (decode_utf16 (units_le s.0), s.1))
    else take_bytes r.0 r.1

-- `n` times the same step; a step that fails ends the loop.
unfoldable pub repeat : ℕ → (Bytes → Option Bytes) → Bytes → Option Bytes
repeat zero step bs = some bs
repeat (suc n) step bs = step bs >>? λ rest. repeat n step rest

-- A property: its name, then its value.
unfoldable pub skip_prop : (Bytes → Option Bytes) → Bytes → Option Bytes
skip_prop skip_val bs = read_script_string bs >>? λ r. skip_val r.1

-- A number of properties, then each of them.
unfoldable pub skip_props : (Bytes → Option Bytes) → Bytes → Option Bytes
skip_props skip_val bs = read_u32 bs >>? λ r. repeat r.0 (skip_prop skip_val) r.1

-- The body of `skip_script_val` after its tag; `inner` is the call at the next depth.
unfoldable pub skip_tagged : (Bytes → Option Bytes) → ℕ → Bytes → Option Bytes
skip_tagged inner tag bs =
    if tag == script_type_void || tag == script_type_null
    then some bs
    else if tag == script_type_boolean || tag == script_type_object_boolean
    then skip_bytes 1 bs
    else if tag == script_type_int || tag == script_type_backref
    then skip_bytes 4 bs
    else if tag == script_type_double || tag == script_type_object_number
    then skip_bytes 8 bs
    else if tag == script_type_string || tag == script_type_object_string
    then (read_script_string bs >>? λ r. some r.1)
    else if tag == script_type_object
    then skip_props inner bs
    else if tag == script_type_object_prototype
    then (read_script_string bs >>? λ r. skip_props inner r.1)
    else if tag == script_type_array
    then (read_u32 bs >>? λ r. skip_props inner r.1)
    else if tag == script_type_typed_array
    then (skip_bytes 9 bs >>? inner)
    else if tag == script_type_array_buffer
    then (read_u32 bs >>? λ r. skip_bytes r.0 r.1)
    else if tag == script_type_object_map
    then (read_u32 bs >>? λ r. repeat r.0 (λ b. inner b >>? inner) r.1)
    else if tag == script_type_object_set
    then (read_u32 bs >>? λ r. repeat r.0 inner r.1)
    else none

-- `levels` is how much deeper the value may nest: `MAX_SKIP_DEPTH + 1 - depth`.
unfoldable pub skip_script_val : ℕ → Bytes → Option Bytes
skip_script_val zero bs = none
skip_script_val (suc levels) [] = none
skip_script_val (suc levels) (tag ∷ bs) = skip_tagged (skip_script_val levels) tag bs

-- `skip_script_val(data, pos, 0)`.
abbrev pub skip_top : Bytes → Option Bytes
skip_top = skip_script_val (suc max_skip_depth)

unfoldable pub is_type : Text → Bool
unfolding text
is_type name = same_text name (text "type")

-- The value of one property, given its name, and kept if that is "type".
unfoldable pub type_value : Text → Bytes → Option (List (Option Text) × Bytes)
unfolding is_type
type_value name [] = none
type_value name (tag ∷ bs) =
    if is_type name && tag == script_type_string
    then (read_script_string bs >>? λ v. some (some v.0 ∷ [], v.1))
    else (skip_top (tag ∷ bs) >>? λ rest. some (if is_type name then none ∷ [] else [], rest))

-- `for _ in 0..num_props`.
unfoldable pub type_values_of : ℕ → Bytes → Option (List (Option Text))
type_values_of zero bs = some []
type_values_of (suc n) bs = read_script_string bs >>? λ r.
    type_value r.0 r.1 >>? λ v. type_values_of n v.1 >>? λ more. some (v.0 ++ more)

unfoldable pub type_values : Bytes → Option (List (Option Text))
type_values [] = none
type_values (tag ∷ bs) =
    if tag == script_type_object then (read_u32 bs >>? λ r. type_values_of r.0 r.1) else none

unfoldable pub extract_command_type : Bytes → Option Text
extract_command_type bs = elim (type_values bs) [
  | none ↦ none
  | some [] ↦ none
  | some (only ∷ []) ↦ only
  | some (a ∷ b ∷ more) ↦ none
]

unfoldable pub has_repeated_type : Bytes → Bool
has_repeated_type bs = elim (type_values bs) [ none ↦ false | some vs ↦ ltb 1 (length vs) ]
