-- ===== src/Redaction/Placeholders.antt =====
-- The placeholders as words of a text.
use b_browser.Prelude.{All, Bool, Str, [], all, arith, false, none, not, refl, true, ℕ, ◌∷◌, ◌≡◌}
use b_browser.Prelude.Words.{IsWord, is_whitespace}
use b_browser.Redaction.{
  Finding, email, credit_card, api_key_like, RedactionConfig, looks_like_email, looks_like_card,
  looks_like_api_key, detect, placeholder,
}

All-all : (p : ℕ → Bool) (s : Str) → all (λ c. not (p c)) s ≡ true → All (λ c. p c ≡ false) s
All-all p [] h = tt
All-all p (c ∷ s) h = (ground arith, All-all p s (ground arith))

pub placeholder-IsWord : (f : Finding) → IsWord (placeholder f)
placeholder-IsWord email = (λ p. cc, All-all is_whitespace (placeholder email) refl)
placeholder-IsWord credit_card = (λ p. cc, All-all is_whitespace (placeholder credit_card) refl)
placeholder-IsWord api_key_like = (λ p. cc, All-all is_whitespace (placeholder api_key_like) refl)

no_email : (f : Finding) → looks_like_email (placeholder f) ≡ false
unfolding looks_like_email
no_email email = refl
no_email credit_card = refl
no_email api_key_like = refl

no_card : (f : Finding) → looks_like_card (placeholder f) ≡ false
unfolding looks_like_card
no_card email = refl
no_card credit_card = refl
no_card api_key_like = refl

no_key : (f : Finding) → looks_like_api_key (placeholder f) ≡ false
unfolding looks_like_api_key
no_key email = refl
no_key credit_card = refl
no_key api_key_like = refl

pub detect-placeholder : (cfg : RedactionConfig) (f : Finding) → detect cfg (placeholder f) ≡ none
unfolding detect
detect-placeholder cfg f = ground (arith, no_email f, no_card f, no_key f)
