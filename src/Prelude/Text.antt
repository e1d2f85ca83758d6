-- ===== src/Prelude/Text.antt =====
-- The text operations of Python that the source uses: `str.strip`, `str(n)`, `s < t`, f-strings.
use Prim.Native.Nat.{ℕ, zero, suc, ◌/◌, ◌%◌, Ordering}
use Prim.Native.Char.{Char, code}
use Prim.Native.String.{String, compare}
use Prim.Native.String as Str
use mathlib.Core.Path.{◌≡◌, refl}
use mathlib.Core.Bool.{Bool, true, false, ◌&&◌, ◌||◌, not}
use mathlib.Core.List.{List, [], ◌∷◌}
use text.Mathlib.Text.{◌==◌}
use analyst_watch.Prelude.Tests.{eqb, leb, ltb, if◌then◌else◌}

-- `str.isspace` of one character.
unfoldable pub is_space : Char → Bool
is_space ch =
    let c = code ch in
    (leb 9 c && leb c 13)
    || (leb 28 c && leb c 32)
    || eqb c 133
    || eqb c 160
    || eqb c 5760
    || (leb 8192 c && leb c 8202)
    || eqb c 8232
    || eqb c 8233
    || eqb c 8239
    || eqb c 8287
    || eqb c 12288

unfoldable pub lstrip : String → String
lstrip String.[] = ""
lstrip (String.◌∷◌ c s) = let rest = lstrip s in if is_space c then rest else String.◌∷◌ c s

unfoldable pub rstrip : String → String
rstrip String.[] = ""
rstrip (String.◌∷◌ c s) =
    let rest = rstrip s in if is_space c && rest == "" then "" else String.◌∷◌ c rest

unfoldable pub strip : String → String
unfolding is_space lstrip rstrip
strip s = rstrip (lstrip s)

-- `not s or s != s.strip()`, the test that most validators make.
unfoldable pub is_blank_or_padded : String → Bool
unfolding strip
is_blank_or_padded s = s == "" || not (s == strip s)

-- `s < t` by code points, the order of `sorted`.
abbrev pub str_ltb : String → String → Bool
str_ltb s t = elim (compare s t) [ Ordering.lt ↦ true | _ ↦ false ]

abbrev pub str_leb : String → String → Bool
str_leb s t = elim (compare s t) [ Ordering.gt ↦ false | _ ↦ true ]

-- An f-string: its pieces in order.
unfoldable pub concat : List String → String
concat [] = ""
concat (s ∷ ss) = Str.◌++◌ s (concat ss)

digit : ℕ → String
digit d =
    if eqb d 0
    then "0"
    else if eqb d 1
    then "1"
    else if eqb d 2
    then "2"
    else if eqb d 3
    then "3"
    else if eqb d 4
    then "4"
    else if eqb d 5
    then "5"
    else if eqb d 6
    then "6"
    else if eqb d 7
    then "7"
    else if eqb d 8
    then "8"
    else "9"

decimal_on : ℕ → ℕ → String
decimal_on zero n = ""
decimal_on (suc f) n =
    let front = decimal_on f (n / 10) in
    if ltb n 10 then digit n else Str.◌++◌ front (digit (n % 10))

-- `str(n)`; `n + 1` rounds are enough, since each divides by ten.
unfoldable pub decimal : ℕ → String
unfolding digit decimal_on
decimal n = decimal_on (suc n) n

decimal_runs : decimal 40960 ≡ "40960"
unfolding decimal
decimal_runs = refl

strip_runs : strip "  a b\t" ≡ "a b"
unfolding strip
strip_runs = refl
