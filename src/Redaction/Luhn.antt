-- ===== src/Redaction/Luhn.antt =====
-- The Luhn checksum of a number with one other digit.
use b_browser.Prelude.{
  Bool, Bool-cases, Str, [], ap, arith, false, if◌then◌else◌, inl, inr, nat_same, not, refl, sym,
  true, ℕ, ◌%◌, ◌++◌, ◌+◌, ◌∙◌, ◌∷◌, ◌≡◌, ◌≢◌,
}
use mathlib.Core.List.{append-nil, append_assoc}
use b_browser.Redaction.{luhn, luhn_loop, double, to_digit, is_ascii_digit, rev}

-- What a character adds, and the flag after `n` characters.
abbrev pub weight : Bool → ℕ → ℕ
weight alt c = if alt then double (to_digit c) else to_digit c

luhn_loop-sum :
    (sum more : ℕ) (alt : Bool) (cs : Str)
    → luhn_loop (sum + more) alt cs ≡ sum + luhn_loop more alt cs
unfolding luhn_loop
luhn_loop-sum sum more alt [] = refl
luhn_loop-sum sum more alt (c ∷ cs) =
    ap (λ n. luhn_loop n (not alt) cs) (omega arith)
    ∙ luhn_loop-sum sum (more + weight alt c) (not alt) cs

abbrev pub flag : Bool → Str → Bool
flag alt [] = alt
flag alt (c ∷ cs) = flag (not alt) cs

pub luhn_loop-append :
    (sum : ℕ) (alt : Bool) (xs ys : Str)
    → luhn_loop sum alt (xs ++ ys) ≡ luhn_loop (luhn_loop sum alt xs) (flag alt xs) ys
unfolding luhn_loop
luhn_loop-append sum alt [] ys = refl
luhn_loop-append sum alt (x ∷ xs) ys = luhn_loop-append (sum + weight alt x) (not alt) xs ys

pub rev-append : (xs ys : Str) → rev (xs ++ ys) ≡ rev ys ++ rev xs
rev-append [] ys = sym (append-nil (rev ys))
rev-append (x ∷ xs) ys =
    ap (λ l. l ++ x ∷ []) (rev-append xs ys) ∙ append_assoc (rev ys) (rev xs) (x ∷ [])

pub luhn_loop-from :
    (sum more : ℕ) (alt : Bool) (cs : Str)
    → luhn_loop (sum + more) alt cs ≡ sum + (more + luhn_loop 0 alt cs)
luhn_loop-from sum more alt cs =
    ap (λ n. luhn_loop n alt cs) (omega arith) ∙ luhn_loop-sum (sum + more) 0 alt cs ∙ omega arith

-- The checksum as what one character adds to the sum of the others.
luhn-parts :
    (before after : Str) (c : ℕ)
    → luhn_loop 0 false (rev (before ++ c ∷ after))
      ≡ luhn_loop 0 false (rev after)
        + (weight (flag false (rev after)) c
            + luhn_loop 0 (not (flag false (rev after))) (rev before))
luhn-parts before after c =
    ap (luhn_loop 0 false)
      (rev-append before (c ∷ after) ∙ append_assoc (rev after) (c ∷ []) (rev before))
    ∙ luhn_loop-append 0 false (rev after) (c ∷ rev before)
    ∙ (unfold luhn_loop in
        luhn_loop-from (luhn_loop 0 false (rev after)) (weight (flag false (rev after)) c)
          (not (flag false (rev after))) (rev before))

weight-Injective :
    (alt : Bool) (c d sum : ℕ)
    → is_ascii_digit c ≡ true
    → is_ascii_digit d ≡ true
    → (sum + weight alt c) % 10 ≡ 0
    → (sum + weight alt d) % 10 ≡ 0
    → c ≡ d
weight-Injective true c d sum hc hd e f = ground arith
weight-Injective false c d sum hc hd e f = ground arith

-- A number that passes the check does not pass with any one of its digits replaced by another.
pub luhn-one_digit :
    (before after : Str) (c d : ℕ)
    → is_ascii_digit c ≡ true
    → is_ascii_digit d ≡ true
    → c ≢ d
    → luhn (before ++ c ∷ after) ≡ true
    → luhn (before ++ d ∷ after) ≡ false
unfolding luhn
luhn-one_digit before after c d hc hd differ h =
    elim (Bool-cases (nat_same (luhn_loop 0 false (rev (before ++ d ∷ after)) % 10) 0)) [
      | inr e ↦ e
      | inl e ↦
          let rest = luhn_loop 0 (not (flag false (rev after))) (rev before) in
          let sum = luhn_loop 0 false (rev after) + rest in
          absurd (
            differ (
              weight-Injective (flag false (rev after)) c d sum hc hd
                (ground (arith, luhn-parts before after c))
                (ground (arith, luhn-parts before after d))))
    ]
