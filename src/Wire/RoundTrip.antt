-- ===== src/Wire/RoundTrip.antt =====
-- Each reader of `Wire` gives back what its writer wrote, and leaves the bytes after it.
use Prim.Native.String.{String}
use veredus.Base.{
  ℕ, zero, suc, ◌+◌, ◌*◌, ◌/◌, ◌%◌, ◌≤◌, ◌<◌, ◌≡◌, refl, ap, Bool, true, false, List, [], ◌∷◌, ◌++◌,
  length, take, drop, ◌==◌, arith, All, length-append,
}
use veredus.Base.Words.{u32_max, u16_max}
use veredus.Base.Result.{ok}
use veredus.Text.{Text, Bytes, IsText, is_scalar}
use veredus.Text.Utf8.{as_bytes, from_utf8-as_bytes}
use veredus.Text.Utf16.{encode_utf16, decode_utf16-encode_utf16, char_units}
use veredus.Wire.{
  Reader, u32_to_be_bytes, u16_to_be_bytes, u32_to_le_bytes, read_u32, read_u32_le, read_u16,
  read_u8, read_flag, flag_to_byte, read_bytes, read_blob, write_blob, read_string, write_string,
  read_units, write_units, read_wide_string, write_wide_string, read_items, read_all, write_all,
}

pub read_u32-write :
    (f : String) (n : ℕ) (rest : Bytes)
    → n ≤ u32_max
    → read_u32 f (u32_to_be_bytes n ++ rest) ≡ ok (n, rest)
unfolding read_u32 u32_to_be_bytes
read_u32-write f n rest h = ap (λ m. ok (m, rest)) (omega arith)

pub read_u32_le-write :
    (f : String) (n : ℕ) (rest : Bytes)
    → n ≤ u32_max
    → read_u32_le f (u32_to_le_bytes n ++ rest) ≡ ok (n, rest)
unfolding read_u32_le u32_to_le_bytes
read_u32_le-write f n rest h = ap (λ m. ok (m, rest)) (omega arith)

pub read_u16-write :
    (f : String) (n : ℕ) (rest : Bytes)
    → n ≤ u16_max
    → read_u16 f (u16_to_be_bytes n ++ rest) ≡ ok (n, rest)
unfolding read_u16 u16_to_be_bytes
read_u16-write f n rest h = ap (λ m. ok (m, rest)) (omega arith)

pub read_u8-write : (f : String) (n : ℕ) (rest : Bytes) → read_u8 f (n ∷ rest) ≡ ok (n, rest)
unfolding read_u8
read_u8-write f n rest = refl

pub read_flag-write :
    (f : String) (b : Bool) (rest : Bytes) → read_flag f (flag_to_byte b ∷ rest) ≡ ok (b, rest)
unfolding read_flag read_u8 flag_to_byte
read_flag-write f true rest = refl
read_flag-write f false rest = refl

take-append : (xs ys : Bytes) → take (length xs) (xs ++ ys) ≡ xs
take-append [] ys = refl
take-append (x ∷ xs) ys = ap (λ t. x ∷ t) (take-append xs ys)

drop-append : (xs ys : Bytes) → drop (length xs) (xs ++ ys) ≡ ys
drop-append [] ys = refl
drop-append (x ∷ xs) ys = drop-append xs ys

pub read_bytes-append :
    (f : String) (xs rest : Bytes) → read_bytes f (length xs) (xs ++ rest) ≡ ok (xs, rest)
unfolding read_bytes
read_bytes-append f xs rest =
    rw (take-append xs rest, drop-append xs rest) (ground (arith, length-append xs rest))

pub append_assoc : (xs ys zs : Bytes) → (xs ++ ys) ++ zs ≡ xs ++ (ys ++ zs)
append_assoc [] ys zs = refl
append_assoc (x ∷ xs) ys zs = ap (λ t. x ∷ t) (append_assoc xs ys zs)

pub read_blob-write :
    (f g : String) (xs rest : Bytes)
    → length xs ≤ u32_max
    → read_blob f g (write_blob xs ++ rest) ≡ ok (xs, rest)
unfolding read_blob write_blob
read_blob-write f g xs rest h =
    rw
      (
        append_assoc (u32_to_be_bytes (length xs)) xs rest,
        read_u32-write f (length xs) (xs ++ rest) h,
      )
      (read_bytes-append g xs rest)

-- A text that a field of 32-bit length can carry.
pub record IsShort (s : Text) : Type 0 where
  pub chars : IsText s
  pub size : length (as_bytes s) ≤ u32_max

pub read_string-write :
    (f g h : String) (s : Text) (rest : Bytes)
    → IsShort s
    → read_string f g h (write_string s ++ rest) ≡ ok (s, rest)
unfolding read_string write_string
read_string-write f g h s rest v =
    rw (read_blob-write f g (as_bytes s) rest v.size, from_utf8-as_bytes s v.chars) refl

abbrev IsUnit : ℕ → Type 0
IsUnit u = (u ≤ u16_max) × ((u == 0) ≡ false)

read_units-write :
    (us : List ℕ) (rest : Bytes)
    → All IsUnit us
    → read_units (write_units us ++ rest) ≡ ok (us, rest)
unfolding read_units write_units u16_to_be_bytes
read_units-write [] rest h = refl
read_units-write (u ∷ us) rest h =
    let unit : (u / 256 % 256) * 256 + u % 256 ≡ u = let low = h.0.0 in omega arith in
    rw (read_units-write us rest h.1, unit, h.0.1) refl

-- A text without a null character, which a wide string can carry.
abbrev pub IsWide : Text → Type 0
IsWide s = All (λ c. (is_scalar c ≡ true) × ((c == 0) ≡ false)) s

char_units-IsUnit :
    (c : ℕ) (us : List ℕ)
    → is_scalar c ≡ true
    → (c == 0) ≡ false
    → All IsUnit us
    → All IsUnit (char_units c ++ us)
unfolding char_units
char_units-IsUnit c us h g rest = ground arith

encode_utf16-IsUnit : (s : Text) → IsWide s → All IsUnit (encode_utf16 s)
unfolding encode_utf16
encode_utf16-IsUnit [] h = tt
encode_utf16-IsUnit (c ∷ cs) h =
    char_units-IsUnit c (encode_utf16 cs) h.0.0 h.0.1 (encode_utf16-IsUnit cs h.1)

IsWide→IsText : (s : Text) → IsWide s → IsText s
IsWide→IsText [] h = tt
IsWide→IsText (c ∷ cs) h = (h.0.0, IsWide→IsText cs h.1)

pub read_wide_string-write :
    (s : Text) (rest : Bytes)
    → IsWide s
    → read_wide_string (write_wide_string s ++ rest) ≡ ok (s, rest)
unfolding read_wide_string write_wide_string
read_wide_string-write s rest h =
    rw
      (
        read_units-write (encode_utf16 s) rest (encode_utf16-IsUnit s h),
        decode_utf16-encode_utf16 s (IsWide→IsText s h),
      )
      refl

pub length-write_string : (s : Text) (rest : Bytes) → length rest < length (write_string s ++ rest)
unfolding write_string write_blob u32_to_be_bytes
length-write_string s rest = let l = length-append (as_bytes s) rest in omega arith

length-write_units : (us : List ℕ) (rest : Bytes) → length rest < length (write_units us ++ rest)
unfolding write_units u16_to_be_bytes
length-write_units [] rest = omega arith
length-write_units (u ∷ us) rest = let l = length-write_units us rest in omega arith

pub length-write_wide_string :
    (s : Text) (rest : Bytes) → length rest < length (write_wide_string s ++ rest)
unfolding write_wide_string
length-write_wide_string s rest = length-write_units (encode_utf16 s) rest

-- Items that their reader gives back and that take a byte at least come back from the loop.
module _ {A : Type 0} (IsItem : A → Type 0) (read : Reader A) (write : A → Bytes)
    (back : (a : A) (rest : Bytes) → IsItem a → read (write a ++ rest) ≡ ok (a, rest))
    (takes : (a : A) (rest : Bytes) → length rest < length (write a ++ rest)) where
  read_items-cons :
      (fuel : ℕ) (a : A) (rest bs : Bytes) (more : List A)
      → read bs ≡ ok (a, rest)
      → length rest < length bs
      → read_items read fuel rest ≡ ok more
      → read_items read (suc fuel) bs ≡ ok (a ∷ more)
  unfolding read_items
  read_items-cons fuel a rest [] more e l h = ground arith
  read_items-cons fuel a rest (b ∷ bs) more e l h = rw e (rw h refl)

  read_items-write :
      (fuel : ℕ) (xs : List A)
      → All IsItem xs
      → length (write_all write xs) ≤ fuel
      → read_items read fuel (write_all write xs) ≡ ok xs
  unfolding write_all read_items
  read_items-write zero [] h l = refl
  read_items-write (suc fuel) [] h l = refl
  read_items-write zero (x ∷ xs) h l = ground (arith, takes x (write_all write xs))
  read_items-write (suc fuel) (x ∷ xs) h l =
      read_items-cons fuel x (write_all write xs) (write_all write (x ∷ xs)) xs
        (back x (write_all write xs) h.0) (takes x (write_all write xs))
        (read_items-write fuel xs h.1 (let t = takes x (write_all write xs) in omega arith))

  pub read_all-write : (xs : List A) → All IsItem xs → read_all read (write_all write xs) ≡ ok xs
  unfolding read_all
  read_all-write xs h = read_items-write (length (write_all write xs)) xs h (omega arith)
