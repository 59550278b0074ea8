-- ===== src/Prelude/Words.antt =====
-- `split_whitespace` and `trim`, by the Unicode property White_Space, and the words of a text
-- joined again.
use Prim.Native.Nat.{ℕ}
use mathlib.Core.Path.{◌≡◌, refl, sym, ap, ◌∙◌}
use mathlib.Core.Logic.{◌≢◌, inl, inr}
use mathlib.Core.Bool.{Bool, false, ◌&&◌, ◌||◌}
use mathlib.Core.List.{List, [], ◌∷◌, ◌++◌, append_assoc, append-nil}
use b_browser.Prelude.Tests.{leb, nat_same, if◌then◌else◌, Bool-cases}
use b_browser.Prelude.Lists.{All, All-append, is_empty}
use b_browser.Prelude.Text.{Str, join}

abbrev pub is_whitespace : ℕ → Bool
is_whitespace c =
    (leb 9 c && leb c 13)
    || nat_same c 32
    || nat_same c 133
    || nat_same c 160
    || nat_same c 5760
    || (leb 8192 c && leb c 8202)
    || nat_same c 8232
    || nat_same c 8233
    || nat_same c 8239
    || nat_same c 8287
    || nat_same c 12288

-- The word read so far, unless it is empty, before the rest.
abbrev pub push_word : Str → List Str → List Str
push_word [] ws = ws
push_word (c ∷ w) ws = (c ∷ w) ∷ ws

-- The words of a text that continues the word `w`.
abbrev pub words_from : Str → Str → List Str
words_from w [] = push_word w []
words_from w (c ∷ s) =
    let next = words_from [] s in
    let more = words_from (w ++ c ∷ []) s in if is_whitespace c then push_word w next else more

-- `split_whitespace`
unfoldable pub split_whitespace : Str → List Str
split_whitespace s = words_from [] s

-- Not empty and without white space.
abbrev pub IsWord : Str → Type 0
IsWord w = (w ≢ []) × All (λ c. is_whitespace c ≡ false) w

push_word-nonempty : (w : Str) (ws : List Str) → w ≢ [] → push_word w ws ≡ w ∷ ws
push_word-nonempty [] ws h = absurd (h refl)
push_word-nonempty (c ∷ w) ws h = refl

words_from-word :
    (w u s : Str)
    → All (λ c. is_whitespace c ≡ false) u
    → words_from w (u ++ s) ≡ words_from (w ++ u) s
words_from-word w [] s h = ap (λ x. words_from x s) (sym (append-nil w))
words_from-word w (c ∷ u) s h =
    rw (h.0)
      (words_from-word (w ++ c ∷ []) u s h.1 ∙ ap (λ x. words_from x s) (append_assoc w (c ∷ []) u))

-- The words of words joined by a space are those words.
pub split_whitespace-join :
    (ws : List Str) → All IsWord ws → split_whitespace (join (32 ∷ []) ws) ≡ ws
unfolding split_whitespace
split_whitespace-join [] h = refl
split_whitespace-join (w ∷ []) h =
    ap (words_from []) (sym (append-nil w))
    ∙ words_from-word [] w [] h.0.1
    ∙ push_word-nonempty w [] h.0.0
split_whitespace-join (w ∷ v ∷ ws) h =
    words_from-word [] w (32 ∷ join (32 ∷ []) (v ∷ ws)) h.0.1
    ∙ push_word-nonempty w (words_from [] (join (32 ∷ []) (v ∷ ws))) h.0.0
    ∙ ap (λ l. w ∷ l) (split_whitespace-join (v ∷ ws) h.1)

append-nonempty : (w : Str) (c : ℕ) → w ++ c ∷ [] ≢ []
append-nonempty [] c = λ p. cc
append-nonempty (x ∷ w) c = λ p. cc

push_word-IsWord :
    (w : Str) (ws : List Str)
    → All (λ c. is_whitespace c ≡ false) w
    → All IsWord ws
    → All IsWord (push_word w ws)
push_word-IsWord [] ws h k = k
push_word-IsWord (c ∷ w) ws h k = ((λ p. cc, h), k)

words_from-IsWord : (w s : Str) → All (λ c. is_whitespace c ≡ false) w → All IsWord (words_from w s)
words_from-IsWord [] [] h = tt
words_from-IsWord (c ∷ w) [] h = ((λ p. cc, h), tt)
words_from-IsWord w (c ∷ s) h = elim (Bool-cases (is_whitespace c)) [
  | inl e ↦ rw e (push_word-IsWord w (words_from [] s) h (words_from-IsWord [] s tt))
  | inr e ↦ rw e (
      words_from-IsWord (w ++ c ∷ []) s
        (All-append (λ x. is_whitespace x ≡ false) w (c ∷ []) h (e, tt)))
]

pub split_whitespace-IsWord : (s : Str) → All IsWord (split_whitespace s)
unfolding split_whitespace
split_whitespace-IsWord s = words_from-IsWord [] s tt

-- `trim`
abbrev pub trim_start : Str → Str
trim_start [] = []
trim_start (c ∷ s) = let rest = trim_start s in if is_whitespace c then rest else c ∷ s

abbrev trim_end : Str → Str
trim_end [] = []
trim_end (c ∷ s) =
    let rest = trim_end s in if is_whitespace c && is_empty rest then [] else c ∷ rest

abbrev pub trim : Str → Str
trim s = trim_end (trim_start s)
