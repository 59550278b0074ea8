-- ===== src/Redaction.antt =====
-- ai/redaction/src/lib.rs: the tokens that are replaced before data leaves the device.
pub mod Luhn
pub mod Swaps
pub mod Placeholders
pub mod Idempotence
pub mod Leaks
mod Tests
use b_browser.Prelude.Eq.{contains, nat_eq}
use b_browser.Prelude.{
  Bool, List, Option, Str, [], all, any, chars, false, filter, if◌then◌else◌, is_empty, leb, length,
  ltb, nat_same, none, not, some, true, ℕ, ◌%◌, ◌&&◌, ◌*◌, ◌++◌, ◌+◌, ◌-◌, ◌||◌, ◌∷◌,
}
use b_browser.Prelude.Text.{split_once, join, starts_with, utf8}
use b_browser.Prelude.Words.{split_whitespace}

pub data Finding : Type 0 where
  email credit_card api_key_like : Finding

pub record RedactionConfig : Type 0 where
  pub redact_pii : Bool
  pub redact_secrets : Bool

-- `RedactionConfig::default()`; `default` is also a layer of the policy.
unfoldable pub default_config : RedactionConfig
default_config = record { redact_pii = true; redact_secrets = true }

pub record Redacted : Type 0 where
  pub text : Str
  pub findings : List Finding

-- `find('@')` is at the first `@`; `i > 0` and `i < len - 1` say that something is on both sides.
abbrev pub email_sides : Option (Str × Str) → Bool
email_sides none = false
email_sides (some (before, after)) =
    not (is_empty before) && not (is_empty after) && contains after 46

unfoldable pub looks_like_email : Str → Bool
looks_like_email tok = email_sides (split_once 64 tok)

abbrev pub is_ascii_digit : ℕ → Bool
is_ascii_digit c = leb 48 c && leb c 57

unfoldable pub digits : Str → ℕ
digits tok = length (filter is_ascii_digit tok)

-- `to_digit(10).unwrap_or(0)`
abbrev pub to_digit : ℕ → ℕ
to_digit c = if is_ascii_digit c then c - 48 else 0

abbrev pub double : ℕ → ℕ
double d = if ltb 9 (d * 2) then d * 2 - 9 else d * 2

-- The loop over the reversed characters: `sum` and `alt` are its variables. The sum of at most
-- nineteen digits is far from the bound of u32.
unfoldable pub luhn_loop : ℕ → Bool → Str → ℕ
luhn_loop sum alt [] = sum
luhn_loop sum alt (c ∷ cs) =
    luhn_loop (sum + (if alt then double (to_digit c) else to_digit c)) (not alt) cs

abbrev pub rev : Str → Str
rev [] = []
rev (c ∷ cs) = rev cs ++ c ∷ []

unfoldable pub luhn : Str → Bool
unfolding luhn_loop
luhn num = nat_same (luhn_loop 0 false (rev num) % 10) 0

unfoldable pub looks_like_card : Str → Bool
unfolding digits luhn
looks_like_card tok =
    let stripped = filter is_ascii_digit tok in
    leb 13 (length stripped)
    && leb (length stripped) 19
    && nat_same (digits tok) (length stripped)
    && luhn stripped

abbrev is_ascii_alphanumeric : ℕ → Bool
is_ascii_alphanumeric c = is_ascii_digit c || (leb 65 c && leb c 90) || (leb 97 c && leb c 122)

abbrev pub is_key_char : ℕ → Bool
is_key_char c = is_ascii_alphanumeric c || nat_same c 95 || nat_same c 45

abbrev pub prefixes : List Str
prefixes = chars "sk-" ∷ chars "ghp_" ∷ chars "AKIA" ∷ chars "AIza" ∷ chars "xoxb-" ∷ []

-- `len` counts bytes.
unfoldable pub looks_like_api_key : Str → Bool
unfolding utf8
looks_like_api_key tok =
    if any (starts_with tok) prefixes
    then true
    else leb 32 (length (utf8 tok)) && all is_key_char tok

-- The closure on one token: what is found, if anything.
unfoldable pub detect : RedactionConfig → Str → Option Finding
unfolding looks_like_email looks_like_card looks_like_api_key
detect cfg tok =
    if cfg.redact_pii && looks_like_email tok
    then some email
    else if cfg.redact_pii && looks_like_card tok
    then some credit_card
    else if cfg.redact_secrets && looks_like_api_key tok
    then some api_key_like
    else none

abbrev pub placeholder : Finding → Str
placeholder email = chars "[REDACTED_EMAIL]"
placeholder credit_card = chars "[REDACTED_CARD]"
placeholder api_key_like = chars "[REDACTED_SECRET]"

-- The token that the closure returns.
abbrev pub replaced : Option Finding → Str → Str
replaced none tok = tok
replaced (some found) tok = placeholder found

abbrev pub push_finding : Option Finding → List Finding → List Finding
push_finding none later = later
push_finding (some found) later = found ∷ later

unfoldable pub redact_tokens : RedactionConfig → List Str → List Str × List Finding
unfolding detect
redact_tokens cfg [] = ([], [])
redact_tokens cfg (tok ∷ toks) =
    let later = redact_tokens cfg toks in
    (replaced (detect cfg tok) tok ∷ later.0, push_finding (detect cfg tok) later.1)

unfoldable pub redact : Str → RedactionConfig → Redacted
unfolding redact_tokens split_whitespace
redact input cfg =
    let done = redact_tokens cfg (split_whitespace input) in
    record { text = join (chars " ") done.0; findings = done.1 }
