-- ===== src/Isolation/Derivation.antt =====
-- Which site and which principal a URL has.
use b_browser.Prelude.{
  All, Bool, Bool-cases, List, Str, [], ap, arith, chars, false, inl, inr, leb, length,
  length-append, nat_same, refl, true, ℕ, ◌++◌, ◌∙◌, ◌∷◌, ◌≡◌,
}
use b_browser.Prelude.Text.{split}
use b_browser.Isolation.Hosts.{first_piece, last_two, registrable}
use b_browser.Isolation.Blink
use b_browser.Isolation.Gecko
use b_browser.Isolation.Blink.{site_for_url}
use b_browser.Isolation.Gecko.{principal_for}

abbrev pub is_dot : ℕ → Bool
is_dot c = nat_same c 46

-- No character of the text satisfies the test.
abbrev pub NoneOf : (ℕ → Bool) → Str → Type 0
NoneOf p = All (λ c. p c ≡ false)

-- The text is empty, or its first character satisfies the test.
abbrev pub StartsWith : (ℕ → Bool) → Str → Type 0
StartsWith p [] = Unit
StartsWith p (c ∷ s) = p c ≡ true

module _ (p : ℕ → Bool) where
  first_piece-append :
      (s tail : Str) → NoneOf p s → StartsWith p tail → first_piece p (s ++ tail) ≡ s
  first_piece-append [] [] h t = refl
  first_piece-append [] (c ∷ tail) h t = rw t refl
  first_piece-append (c ∷ s) tail h t = rw (h.0, first_piece-append s tail h.1 t) refl

  split-none : (s : Str) → NoneOf p s → split p s ≡ s ∷ []
  split-none [] h = refl
  split-none (c ∷ s) h = rw (h.0, split-none s h.1) refl

  split-nonempty : (s : Str) → (w : Str) × (ws : List Str) × (split p s ≡ w ∷ ws)
  split-nonempty [] = ([], [], refl)
  split-nonempty (c ∷ s) = elim (Bool-cases (p c)) [
    | inl e ↦ ([], split p s, rw e refl)
    | inr e ↦ let rest = split-nonempty s in (c ∷ rest.0, rest.1, rw (e, rest.2) refl)
  ]

  split-append : (s t : Str) (c : ℕ) → p c ≡ true → split p (s ++ c ∷ t) ≡ split p s ++ split p t
  split-append [] t c h = rw h refl
  split-append (d ∷ s) t c h = elim (Bool-cases (p d)) [
    | inl e ↦ rw (e, split-append s t c h) refl
    | inr e ↦ let rest = split-nonempty s in rw (e, split-append s t c h, rest.2) refl
  ]

last_two-append : (xs : List Str) (a b : Str) → last_two (xs ++ a ∷ b ∷ []) ≡ a ∷ b ∷ []
last_two-append [] a b = refl
last_two-append (x ∷ []) a b = refl
last_two-append (x ∷ y ∷ []) a b = refl
last_two-append (x ∷ y ∷ z ∷ xs) a b = last_two-append (y ∷ z ∷ xs) a b

-- A host of three labels or more.
abbrev pub dotted : Str → Str → Str → Str
dotted sub a b = sub ++ 46 ∷ (a ++ 46 ∷ b)

registrable-dotted :
    (sub a b : Str) → NoneOf is_dot a → NoneOf is_dot b → registrable (dotted sub a b) ≡ a ++ 46 ∷ b
registrable-dotted sub a b ha hb =
    let labels : split is_dot (dotted sub a b) ≡ split is_dot sub ++ a ∷ b ∷ [] =
      split-append is_dot sub (a ++ 46 ∷ b) 46 refl
      ∙ ap (λ l. split is_dot sub ++ l)
          (split-append is_dot a b 46 refl ∙ cc (split-none is_dot a ha, split-none is_dot b hb)) in
    let enough : leb 2 (length (split is_dot sub ++ a ∷ b ∷ [])) ≡ true =
      ground (arith, length-append (split is_dot sub) (a ∷ b ∷ [])) in
    rw (labels, enough, last_two-append (split is_dot sub) a b) refl

-- The site of an https URL whose host has at least three labels is `https://` with the last two of
-- them, whatever follows the host from a `/`, `:`, `?` or `#` on.
pub site_for_url-https :
    (sub a b tail : Str)
    → NoneOf Blink.ends_host (dotted sub a b)
    → NoneOf is_dot a
    → NoneOf is_dot b
    → StartsWith Blink.ends_host tail
    → site_for_url (chars "https://" ++ (dotted sub a b ++ tail))
      ≡ chars "https://" ++ (a ++ 46 ∷ b)
unfolding site_for_url
site_for_url-https sub a b tail host ha hb stops =
    ap (λ h. chars "https://" ++ registrable h)
      (first_piece-append Blink.ends_host (dotted sub a b) tail host stops)
    ∙ ap (λ r. chars "https://" ++ r) (registrable-dotted sub a b ha hb)

-- Fission's principal of an https URL is `https://` with the last two labels of the text before the
-- first `/` or `:`, also where that text contains a `?` or a `#`, so that the two labels may stand
-- in a query.
pub principal_for-https :
    (sub a b tail : Str)
    → NoneOf Gecko.ends_host (dotted sub a b)
    → NoneOf is_dot a
    → NoneOf is_dot b
    → StartsWith Gecko.ends_host tail
    → principal_for (chars "https://" ++ (dotted sub a b ++ tail))
      ≡ chars "https://" ++ (a ++ 46 ∷ b)
unfolding principal_for
principal_for-https sub a b tail host ha hb stops =
    ap (λ h. chars "https://" ++ registrable h)
      (first_piece-append Gecko.ends_host (dotted sub a b) tail host stops)
    ∙ ap (λ r. chars "https://" ++ r) (registrable-dotted sub a b ha hb)
