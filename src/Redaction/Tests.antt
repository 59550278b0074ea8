-- ===== src/Redaction/Tests.antt =====
-- The unit tests of redaction, and the theorems at concrete inputs.
use b_browser.Prelude.{
  ap, ◌≢◌, ℕ, ◌↔◌, Str, ◌⊎◌, ◌&&◌, All, [], arith, chars, false, refl, true, ◌∷◌, ◌≡◌,
}
use b_browser.Prelude.Words.{split_whitespace}
use b_browser.Redaction.Leaks.{IsOrdinary, AreAlike, redact_iff}
use b_browser.Redaction.{
  email, credit_card, api_key_like, default_config, luhn, looks_like_card, redact,
}
use b_browser.Redaction.Swaps.{Extremes, luhn-slip}
use b_browser.Redaction.Luhn.{luhn-one_digit}
use b_browser.Redaction.Idempotence.{IsClean, redact_idem}

redacts_email :
    redact (chars "contact me at alice@example.com please") default_config
    ≡ record { text = chars "contact me at [REDACTED_EMAIL] please"; findings = email ∷ [] }
unfolding redact default_config
redacts_email = refl

redacts_card :
    redact (chars "card 4111111111111111 end") default_config
    ≡ record { text = chars "card [REDACTED_CARD] end"; findings = credit_card ∷ [] }
unfolding redact default_config
redacts_card = refl

-- The test of the digits compares a count with itself, so letters between them do not matter.
card_with_letters : looks_like_card (chars "invoice-4111111111111111-copy") ≡ true
unfolding looks_like_card
card_with_letters = refl

redacts_key :
    redact (chars "token sk-abcdefghijklmnopqrstuvwx") default_config
    ≡ record { text = chars "token [REDACTED_SECRET]"; findings = api_key_like ∷ [] }
unfolding redact default_config
redacts_key = refl

leaves_ordinary_text :
    redact (chars "the  quick brown fox") default_config
    ≡ record { text = chars "the quick brown fox"; findings = [] }
unfolding redact default_config
leaves_ordinary_text = refl

luhn-one_digit_run : luhn (chars "4111111111111121") ≡ false
luhn-one_digit_run =
    luhn-one_digit (chars "41111111111111") (chars "1") 49 50 refl refl (λ p. omega arith)
      (unfold luhn in refl)

redact_idem_example :
    All
      (IsClean default_config)
      (split_whitespace (redact (chars "to a@b.c now") default_config).text)
    × (redact (redact (chars "to a@b.c now") default_config).text default_config
        ≡ record { text = (redact (chars "to a@b.c now") default_config).text; findings = [] })
redact_idem_example = redact_idem default_config (chars "to a@b.c now")

luhn-slip_example :
    ((luhn (chars "4111111111111111") && luhn (chars "4211111111111111")) ≡ false)
    × (Extremes 49 50
        ⊎ ((luhn (chars "41211111111111111") && luhn (chars "42111111111111111")) ≡ false))
luhn-slip_example =
    luhn-slip (chars "4") (chars "11111111111111") 49 50 refl refl (λ p. omega arith)

first_or_zero : Str → ℕ
first_or_zero [] = 0
first_or_zero (c ∷ s) = c

starts_otherwise : (w : Str) → first_or_zero w ≢ b'[' → IsOrdinary w
unfolding first_or_zero
starts_otherwise w h email e = h (ap first_or_zero e)
starts_otherwise w h credit_card e = h (ap first_or_zero e)
starts_otherwise w h api_key_like e = h (ap first_or_zero e)

abbrev to_ann : Str
to_ann = chars "mail ann@site.test"

abbrev to_bob : Str
to_bob = chars "mail bob@other.example"

to_ann-IsOrdinary : All IsOrdinary (split_whitespace to_ann)
unfolding split_whitespace first_or_zero
to_ann-IsOrdinary = (
  starts_otherwise (chars "mail") (omega arith),
  (starts_otherwise (chars "ann@site.test") (omega arith), tt),
)

to_bob-IsOrdinary : All IsOrdinary (split_whitespace to_bob)
unfolding split_whitespace first_or_zero
to_bob-IsOrdinary = (
  starts_otherwise (chars "mail") (omega arith),
  (starts_otherwise (chars "bob@other.example") (omega arith), tt),
)

-- Two texts that differ in an address are redacted to the same.
redact_iff_example :
    (redact to_ann default_config ≡ redact to_bob default_config)
    ↔ AreAlike default_config (split_whitespace to_ann) (split_whitespace to_bob)
redact_iff_example = redact_iff default_config to_ann to_bob to_ann-IsOrdinary to_bob-IsOrdinary
