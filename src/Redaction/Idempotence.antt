-- ===== src/Redaction/Idempotence.antt =====
-- A redacted text, redacted again.
use b_browser.Prelude.{All, List, Option, Str, [], ap, chars, none, refl, some, ◌∙◌, ◌∷◌, ◌≡◌}
use b_browser.Prelude.Text.{join}
use b_browser.Prelude.Words.{
  split_whitespace, IsWord, split_whitespace-join, split_whitespace-IsWord,
}
use b_browser.Redaction.{Finding, RedactionConfig, detect, replaced, redact_tokens, redact}
use b_browser.Redaction.Placeholders.{placeholder-IsWord, detect-placeholder}

module _ (cfg : RedactionConfig) where
  -- Nothing is detected in the token.
  abbrev pub IsClean : Str → Type 0
  IsClean tok = detect cfg tok ≡ none

  replaced-IsClean :
      (tok : Str) (o : Option Finding) → detect cfg tok ≡ o → IsClean (replaced o tok)
  replaced-IsClean tok none e = e
  replaced-IsClean tok (some f) e = detect-placeholder cfg f

  replaced-IsWord : (tok : Str) (o : Option Finding) → IsWord tok → IsWord (replaced o tok)
  replaced-IsWord tok none h = h
  replaced-IsWord tok (some f) h = placeholder-IsWord f

  redact_tokens-IsClean : (toks : List Str) → All IsClean (redact_tokens cfg toks).0
  unfolding redact_tokens
  redact_tokens-IsClean [] = tt
  redact_tokens-IsClean (tok ∷ toks) =
      (replaced-IsClean tok (detect cfg tok) refl, redact_tokens-IsClean toks)

  redact_tokens-IsWord : (toks : List Str) → All IsWord toks → All IsWord (redact_tokens cfg toks).0
  unfolding redact_tokens
  redact_tokens-IsWord [] h = tt
  redact_tokens-IsWord (tok ∷ toks) h =
      (replaced-IsWord tok (detect cfg tok) h.0, redact_tokens-IsWord toks h.1)

  redact_tokens-clean : (toks : List Str) → All IsClean toks → redact_tokens cfg toks ≡ (toks, [])
  unfolding redact_tokens
  redact_tokens-clean [] h = refl
  redact_tokens-clean (tok ∷ toks) h = rw (h.0, redact_tokens-clean toks h.1) refl

  -- The words of the redacted text.
  pub words-redact :
      (input : Str)
      → split_whitespace (redact input cfg).text ≡ (redact_tokens cfg (split_whitespace input)).0
  unfolding redact
  words-redact input =
      split_whitespace-join (redact_tokens cfg (split_whitespace input)).0
        (redact_tokens-IsWord (split_whitespace input) (split_whitespace-IsWord input))

  redact_clean :
      (text : Str)
      → All IsClean (split_whitespace text)
      → redact text cfg ≡ record { text = join (chars " ") (split_whitespace text); findings = [] }
  unfolding redact
  redact_clean text clean = rw (redact_tokens-clean (split_whitespace text) clean) refl

  rejoined :
      (input : Str)
      → join (chars " ") (split_whitespace (redact input cfg).text) ≡ (redact input cfg).text
  rejoined input = ap (join (chars " ")) (words-redact input) ∙ (unfold redact in refl)

  -- In no word of a redacted text is anything detected, and redacting it again returns the same
  -- text and no findings.
  pub redact_idem :
      (input : Str)
      → All IsClean (split_whitespace (redact input cfg).text)
        × (redact (redact input cfg).text cfg
            ≡ record { text = (redact input cfg).text; findings = [] })
  redact_idem input =
      let clean : All IsClean (split_whitespace (redact input cfg).text) =
        rw (words-redact input) (redact_tokens-IsClean (split_whitespace input)) in
      (
        clean,
        redact_clean (redact input cfg).text clean
            ∙ ap (λ t. record { text = t; findings = [] }) (rejoined input),
      )
