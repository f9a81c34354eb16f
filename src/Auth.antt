-- ===== src/Auth.antt =====
-- src/relay/auth.rs: the rules on names, and whether a client's version and mods fit. The general
-- category of a character, which a library decides, is the parameter `is_format`.
pub mod Clean
pub mod Numbered
mod Examples
use Prim.Native.String
use Prim.Native.Char.{char}
use veredus.Base.{
  ℕ, zero, suc, ◌+◌, ◌%◌, ◌^◌, Bool, true, false, ◌&&◌, ◌||◌, not, Option, none, some, List, [],
  ◌∷◌, ◌++◌, map, ltb, leb, ◌==◌, if◌then◌else◌, is_empty, select, take, length,
}
use mathlib.Core.Option
use veredus.Text.{Text, same_text}
use veredus.Text.Decimal.{decimal}
use veredus.Wire.Handshake.{EnabledMod}

-- A literal of the source as a text.
unfoldable pub text : String.String → Text
text String.[] = []
text (String.◌∷◌ (char n p) cs) = n ∷ text cs

abbrev pub max_name_len : ℕ
max_name_len = 32

abbrev pub anonymous : Text
unfolding text
anonymous = text "Anonymous"

abbrev pub suffix_marker : Text
unfolding text
suffix_marker = text " ("

abbrev pub reserved_prefix : Text
unfolding text
reserved_prefix = text "----"

-- `char::is_control`.
unfoldable pub is_control : ℕ → Bool
is_control c = ltb c 32 || (leb 127 c && ltb c 160)

-- `char::is_whitespace`.
unfoldable pub is_whitespace : ℕ → Bool
is_whitespace c =
    (leb 9 c && leb c 13)
    || (leb 8192 c && leb c 8202)
    || c == 32
    || c == 133
    || c == 160
    || c == 5760
    || c == 8232
    || c == 8233
    || c == 8239
    || c == 8287
    || c == 12288

-- `str::trim` from the left, and from the right.
unfoldable pub trim_start : Text → Text
trim_start [] = []
trim_start (c ∷ cs) = if is_whitespace c then trim_start cs else c ∷ cs

unfoldable pub trim_end : Text → Text
trim_end [] = []
trim_end (c ∷ cs) =
    let rest = trim_end cs in if is_whitespace c && is_empty rest then [] else c ∷ rest

unfoldable pub starts_with : Text → Text → Bool
starts_with [] s = true
starts_with (p ∷ ps) [] = false
starts_with (p ∷ ps) (c ∷ cs) = p == c && starts_with ps cs

-- `str::find`.
unfoldable pub find_text : Text → Text → Option ℕ
find_text p [] = if is_empty p then some 0 else none
find_text p (c ∷ cs) =
    let rest = find_text p cs in if starts_with p (c ∷ cs) then some 0 else Option.map suc rest

unfoldable pub brace : ℕ → ℕ
brace c = if c == 91 then 123 else if c == 93 then 125 else c

unfoldable pub is_shown : (ℕ → Bool) → ℕ → Bool
is_shown is_format c = not (is_control c) && not (is_format c)

unfoldable pub or_anonymous : Text → Text
or_anonymous trimmed = if is_empty trimmed then anonymous else trimmed

unfoldable pub sanitize : (is_format : ℕ → Bool) → Text → Text
sanitize is_format raw =
    or_anonymous
      (trim_end (trim_start (take max_name_len (select (is_shown is_format) (map brace raw)))))

unfoldable pub server_display_name : Text → Text
server_display_name configured = reserved_prefix ++ configured

unfoldable pub reserved : Text → Bool
reserved name = starts_with reserved_prefix name

unfoldable pub suffix_stripped : Text → Text
suffix_stripped name = elim (find_text suffix_marker name) [ none ↦ name | some at ↦ take at name ]

-- `format!("{candidate}{SUFFIX_MARKER}{counter})")`.
unfoldable pub numbered : Text → ℕ → Text
numbered candidate counter = candidate ++ (suffix_marker ++ (decimal counter ++ (41 ∷ [])))

-- The loop of `deduplicate`; `none` is a loop that goes on.
unfoldable pub count_up : (Text → Bool) → Text → ℕ → ℕ → Option Text
count_up taken candidate zero counter = none
count_up taken candidate (suc fuel) counter =
    let rest = count_up taken candidate fuel ((counter + 1) % 2 ^ 32) in
    if taken (numbered candidate counter) then rest else some (numbered candidate counter)

unfoldable pub deduplicate : ℕ → Text → (Text → Bool) → Option Text
deduplicate fuel candidate taken =
    if not (taken candidate) then some candidate else count_up taken candidate fuel 2

unfoldable pub mod_name : EnabledMod → Text
mod_name m = m.name ++ (45 ∷ m.version)

-- `zip`, and `all` of the pairs.
unfoldable pub same_mods : List EnabledMod → List EnabledMod → Bool
same_mods [] clients = true
same_mods (server ∷ servers) [] = true
same_mods (server ∷ servers) (client ∷ clients) =
    same_text (mod_name server) (mod_name client) && same_mods servers clients

unfoldable pub compatible : Text → List EnabledMod → Text → List EnabledMod → Bool
compatible server_version server_mods client_version client_mods =
    if not (same_text server_version client_version)
      || not (length server_mods == length client_mods)
    then false
    else same_mods server_mods client_mods
