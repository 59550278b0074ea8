-- ===== src/Prelude/Text.antt =====
-- Text as the list of its code points.
use Prim.Native.Nat.{ℕ, zero, suc, ◌+◌, ◌/◌, ◌%◌}
use Prim.Native.Char.{code}
use Prim.Native.String.{String}
use mathlib.Core.Bool.{Bool, true, false, ◌&&◌}
use mathlib.Core.Option.{Option, none, some}
use mathlib.Core.List.{List, [], ◌∷◌, ◌++◌}
use b_browser.Prelude.Tests.{ltb, nat_same, if◌then◌else◌}
use b_browser.Prelude.Eq.{PartialEq, nat_eq, list_eq}

abbrev pub Str : Type 0
Str = List ℕ

-- The code points of a literal.
abbrev pub chars : String → Str
chars String.[] = []
chars (String.◌∷◌ ch rest) = code ch ∷ chars rest

instance abbrev pub text_eq : PartialEq Str
text_eq = list_eq

-- The UTF-8 encoding of a code point: `bytes()`, `as_bytes()`.
unfoldable pub utf8_char : ℕ → List ℕ
utf8_char c =
    if ltb c 0x80
    then c ∷ []
    else if ltb c 0x800
    then (0xc0 + c / 64) ∷ (0x80 + c % 64) ∷ []
    else if ltb c 0x10000
    then (0xe0 + c / 4096) ∷ (0x80 + c / 64 % 64) ∷ (0x80 + c % 64) ∷ []
    else (0xf0 + c / 262144) ∷ (0x80 + c / 4096 % 64) ∷ (0x80 + c / 64 % 64) ∷ (0x80 + c % 64) ∷ []

unfoldable pub utf8 : Str → List ℕ
unfolding utf8_char
utf8 [] = []
utf8 (c ∷ s) = utf8_char c ++ utf8 s

-- `starts_with(p)`
abbrev pub starts_with : Str → Str → Bool
starts_with s [] = true
starts_with [] (p ∷ ps) = false
starts_with (c ∷ s) (p ∷ ps) = nat_same c p && starts_with s ps

abbrev prepend : ℕ → Option (Str × Str) → Option (Str × Str)
prepend c none = none
prepend c (some (before, after)) = some (c ∷ before, after)

-- `split_once(c)`, at the first occurrence.
abbrev pub split_once : ℕ → Str → Option (Str × Str)
split_once c [] = none
split_once c (x ∷ s) =
    let rest = split_once c s in if nat_same x c then some ([], s) else prepend x rest

abbrev pub cons_head : ℕ → List Str → List Str
cons_head c [] = (c ∷ []) ∷ []
cons_head c (w ∷ ws) = (c ∷ w) ∷ ws

-- `split(p)`: the pieces between the characters that satisfy `p`, one more than there are such.
abbrev pub split : (ℕ → Bool) → Str → List Str
split p [] = [] ∷ []
split p (c ∷ s) = let rest = split p s in if p c then [] ∷ rest else cons_head c rest

-- `join(sep)`
abbrev pub join : Str → List Str → Str
join sep [] = []
join sep (w ∷ []) = w
join sep (w ∷ v ∷ ws) = w ++ (sep ++ join sep (v ∷ ws))

-- `{}` of a `bool`
abbrev pub show_bool : Bool → Str
show_bool true = chars "true"
show_bool false = chars "false"

-- `{:w}` of a text: blanks up to `w` code points.
abbrev pub pad_to : ℕ → Str → Str
pad_to zero s = s
pad_to (suc w) [] = b' ' ∷ pad_to w []
pad_to (suc w) (c ∷ s) = c ∷ pad_to w s
