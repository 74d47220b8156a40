-- ===== src/Prelude/Text.antt =====
-- What the program uses of Go's `strings` package. A text is a list of characters: bytes that are
-- not valid UTF-8 are not represented.
use Prim.Native.Nat.{◌-◌}
use Prim.Native.Char.{Char, code}
use Prim.Native.String.{String, char_at}
use mathlib.Core.Bool.{Bool, ◌&&◌, ◌||◌}
use conductor.Prelude.Tests.{leb, ltb, nat_eq, if◌then◌else◌}

-- `unicode.IsSpace`: the code points with the property White_Space.
unfoldable pub is_space : Char → Bool
is_space c =
    let n = code c in
    (leb 9 n && leb n 13)
    || nat_eq n 32
    || nat_eq n 0x85
    || nat_eq n 0xa0
    || nat_eq n 0x1680
    || (leb 0x2000 n && leb n 0x200a)
    || nat_eq n 0x2028
    || nat_eq n 0x2029
    || nat_eq n 0x202f
    || nat_eq n 0x205f
    || nat_eq n 0x3000

unfoldable pub trim_left : String → String
unfolding is_space
trim_left String.[] = ""
trim_left (String.◌∷◌ c s) = let rest = trim_left s in if is_space c then rest else String.◌∷◌ c s

-- The character in front of the trimmed rest stays, unless both are blank.
abbrev keep_char : Char → String → String
keep_char c String.[] = if is_space c then "" else String.◌∷◌ c ""
keep_char c (String.◌∷◌ d s) = String.◌∷◌ c (String.◌∷◌ d s)

unfoldable pub trim_right : String → String
unfolding is_space
trim_right String.[] = ""
trim_right (String.◌∷◌ c s) = keep_char c (trim_right s)

-- `strings.TrimSpace`
unfoldable pub trim_space : String → String
unfolding trim_left trim_right
trim_space s = trim_right (trim_left s)

-- `unicode.ToLower`: ASCII letters here, the other planes by the table that is handed in.
unfoldable pub lower_char : (Char → Char) → Char → Char
lower_char fold c =
    if ltb (code c) 128
    then (if leb 65 (code c) && leb (code c) 90
        then char_at "abcdefghijklmnopqrstuvwxyz" (code c - 65)
        else c)
    else fold c

-- `strings.ToLower`
unfoldable pub to_lower : (Char → Char) → String → String
unfolding lower_char
to_lower fold String.[] = ""
to_lower fold (String.◌∷◌ c s) = String.◌∷◌ (lower_char fold c) (to_lower fold s)

-- `strings.ReplaceAll` of a backslash and the letter n by a line feed.
unfoldable pub unescape_newlines : String → String
unescape_newlines String.[] = ""
unescape_newlines (String.◌∷◌ c String.[]) = String.◌∷◌ c ""
unescape_newlines (String.◌∷◌ c (String.◌∷◌ d s)) =
    let behind = unescape_newlines (String.◌∷◌ d s) in
    let rest = unescape_newlines s in
    if nat_eq (code c) 92 && nat_eq (code d) 110
    then String.◌∷◌ (char_at "\n" 0) rest
    else String.◌∷◌ c behind
