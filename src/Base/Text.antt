-- ===== src/Base/Text.antt =====
-- Texts put together: concatenation, and a number in decimal as `strconv.Itoa` and `%d` print it.
use Prim.Native.Nat.{ℕ, zero, suc, ◌+◌, ◌/◌, ◌%◌}
use Prim.Native.Char.{code}
use Prim.Native.String.{String, ◌++◌ as text_append}
use mathlib.Core.Bool.{Bool, true, false, ◌&&◌, ◌||◌}
use mathlib.Core.List.{List, [], ◌∷◌}
use text.Mathlib.Text.{◌==◌ as str_eq}
use ncn_platform.Base.Tests.{ltb, leb, ◌==◌, if◌then◌else◌}
use ncn_platform.Base.Lists.{length, all}

digit : ℕ → String
digit d =
    if d == 0
    then "0"
    else if d == 1
    then "1"
    else if d == 2
    then "2"
    else if d == 3
    then "3"
    else if d == 4
    then "4"
    else if d == 5
    then "5"
    else if d == 6
    then "6"
    else if d == 7
    then "7"
    else if d == 8
    then "8"
    else "9"

-- A number has no more digits than its value plus one, so that much fuel prints all of them.
digits : ℕ → ℕ → String
unfolding digit
digits zero n = ""
digits (suc fuel) n =
    let rest = text_append (digits fuel (n / 10)) (digit (n % 10)) in
    if ltb n 10 then digit n else rest

unfoldable pub itoa : ℕ → String
unfolding digits
itoa n = digits (suc n) n

-- The code points of a text.
abbrev pub codes : String → List ℕ
codes String.[] = []
codes (String.◌∷◌ c s) = code c ∷ codes s

lower_alnum : ℕ → Bool
lower_alnum c = (leb b'a' c && leb c b'z') || (leb b'0' c && leb c b'9')

id_char : ℕ → Bool
unfolding lower_alnum
id_char c = lower_alnum c || c == b'-'

valid_codes : ℕ → List ℕ → Bool
unfolding lower_alnum id_char
valid_codes most [] = false
valid_codes most (c ∷ cs) =
    lower_alnum c && (all id_char cs && (leb 1 (length cs) && leb (length cs) most))

-- The grammar `^[a-z0-9][a-z0-9-]{1,most}$` of the identifiers.
unfoldable pub valid_id : ℕ → String → Bool
unfolding valid_codes
valid_id most s = valid_codes most (codes s)

-- `unicode.IsSpace`.
is_space : ℕ → Bool
is_space c =
    (leb 9 c && leb c 13)
    || (c == 32
        || (c == 133
            || (c == 160
                || (c == 5760
                    || ((leb 8192 c && leb c 8202)
                        || (c == 8232
                            || (c == 8233 || (c == 8239 || (c == 8287 || c == 12288)))))))))

trim_left : String → String
unfolding is_space
trim_left String.[] = ""
trim_left (String.◌∷◌ c s) =
    let rest = trim_left s in if is_space (code c) then rest else String.◌∷◌ c s

trim_right : String → String
unfolding is_space
trim_right String.[] = ""
trim_right (String.◌∷◌ c s) =
    let rest = trim_right s in if is_space (code c) && str_eq rest "" then "" else String.◌∷◌ c rest

-- `strings.TrimSpace`.
unfoldable pub trim_space : String → String
unfolding trim_left trim_right
trim_space s = trim_right (trim_left s)

-- `len` of a text: its bytes in UTF-8.
unfoldable pub byte_length : String → ℕ
byte_length String.[] = 0
byte_length (String.◌∷◌ c s) =
    (if ltb (code c) 128
      then 1
      else if ltb (code c) 2048
      then 2
      else if ltb (code c) 65536
      then 3
      else 4)
    + byte_length s

-- `<` on texts: the order of their bytes, which in UTF-8 is that of the code points.
unfoldable pub text_less : String → String → Bool
text_less s String.[] = false
text_less String.[] (String.◌∷◌ d t) = true
text_less (String.◌∷◌ c s) (String.◌∷◌ d t) =
    let rest = text_less s t in if ltb (code c) (code d) then true else code c == code d && rest
