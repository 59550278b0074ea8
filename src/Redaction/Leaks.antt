-- ===== src/Redaction/Leaks.antt =====
-- What a redacted text still tells about the text that it came from.
use b_browser.Prelude.{
  if◌then◌else◌, nat_same, All, List, Option, Option-cases, Str, [], ap, inl, inr, none, refl, some,
  sym, ◌∙◌, ◌∷◌, ◌↔◌, ◌≡◌, ◌≢◌, ◌⊎◌, arith, chars,
}
use b_browser.Prelude.Text.{join}
use b_browser.Prelude.Words.{split_whitespace}
use b_browser.Redaction.{
  Finding, email, credit_card, api_key_like, Redacted, RedactionConfig, detect, placeholder,
  replaced, redact_tokens, redact,
}
use b_browser.Redaction.Idempotence.{words-redact}

-- The kind that a placeholder names, by its first letter after the underscore.
abbrev kind : Str → Option Finding
kind (_ ∷ _ ∷ _ ∷ _ ∷ _ ∷ _ ∷ _ ∷ _ ∷ _ ∷ _ ∷ c ∷ _) =
    if nat_same c b'E'
    then some email
    else if nat_same c b'C'
    then some credit_card
    else some api_key_like
kind _ = none

kind-placeholder : (f : Finding) → kind (placeholder f) ≡ some f
kind-placeholder email = refl
kind-placeholder credit_card = refl
kind-placeholder api_key_like = refl

some_injective : (f g : Finding) → some f ≡ some g → f ≡ g
some_injective f g e = cc

placeholder_injective : (f g : Finding) → placeholder f ≡ placeholder g → f ≡ g
placeholder_injective f g e =
    some_injective f g (sym (kind-placeholder f) ∙ ap kind e ∙ kind-placeholder g)

-- The word is none of the placeholders.
abbrev pub IsOrdinary : Str → Type 0
IsOrdinary w = (f : Finding) → w ≢ placeholder f

module _ (cfg : RedactionConfig) where
  -- The same word, or two in which the same kind is detected.
  abbrev pub IsAlike : Str → Str → Type 0
  IsAlike v w = (v ≡ w) ⊎ ((f : Finding) × (detect cfg v ≡ some f) × (detect cfg w ≡ some f))

  -- Word for word.
  abbrev pub AreAlike : List Str → List Str → Type 0
  AreAlike [] [] = Unit
  AreAlike (v ∷ vs) (w ∷ ws) = IsAlike v w × AreAlike vs ws
  AreAlike _ _ = ⊥

  same_tokens : (vs ws : List Str) → AreAlike vs ws → redact_tokens cfg vs ≡ redact_tokens cfg ws
  unfolding redact_tokens
  same_tokens [] [] h = refl
  same_tokens (v ∷ vs) (w ∷ ws) (inl e, h) = cc (e, same_tokens vs ws h)
  same_tokens (v ∷ vs) (w ∷ ws) (inr (f, a, b), h) = rw (a, b, same_tokens vs ws h) refl
  same_tokens [] (w ∷ ws) h = absurd h
  same_tokens (v ∷ vs) [] h = absurd h

  word-IsAlike :
      (v w : Str)
      → IsOrdinary v
      → IsOrdinary w
      → replaced (detect cfg v) v ≡ replaced (detect cfg w) w
      → IsAlike v w
  word-IsAlike v w hv hw e = elim (Option-cases (detect cfg v)) [
    | inl a ↦ elim (Option-cases (detect cfg w)) [
      | inl b ↦ inl (ground arith)
      | inr (g, b) ↦ absurd (hv g (ground arith))
    ]
    | inr (f, a) ↦ elim (Option-cases (detect cfg w)) [
      | inl b ↦ absurd (hw f (ground arith))
      | inr (g, b) ↦ inr (f, a, b ∙ ap some (placeholder_injective g f (ground arith)))
    ]
  ]

  words-AreAlike :
      (vs ws : List Str)
      → All IsOrdinary vs
      → All IsOrdinary ws
      → (redact_tokens cfg vs).0 ≡ (redact_tokens cfg ws).0
      → AreAlike vs ws
  unfolding redact_tokens
  words-AreAlike [] [] hv hw e = tt
  words-AreAlike [] (w ∷ ws) hv hw e = cc
  words-AreAlike (v ∷ vs) [] hv hw e = cc
  words-AreAlike (v ∷ vs) (w ∷ ws) hv hw e =
      (word-IsAlike v w hv.0 hw.0 (ground arith), words-AreAlike vs ws hv.1 hw.1 (ground arith))

  -- A redacted text and its findings tell the words in which nothing is detected, the kind of each
  -- other word, and nothing else: two texts in which no placeholder stands are redacted to the same
  -- exactly when, word for word, they are the same or the same kind is detected in both.
  pub redact_iff :
      (input other : Str)
      → All IsOrdinary (split_whitespace input)
      → All IsOrdinary (split_whitespace other)
      → (redact input cfg ≡ redact other cfg)
        ↔ AreAlike (split_whitespace input) (split_whitespace other)
  redact_iff input other hi ho = (
    λ e. words-AreAlike (split_whitespace input) (split_whitespace other) hi ho (
        sym (words-redact cfg input)
        ∙ ap (λ (r : Redacted). split_whitespace r.text) e
        ∙ words-redact cfg other),
    λ h.
        unfold redact in
        ap (λ done. record { text = join (chars " ") done.0; findings = done.1 })
          (same_tokens (split_whitespace input) (split_whitespace other) h),
  )
