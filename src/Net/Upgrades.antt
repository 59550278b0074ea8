-- ===== src/Net/Upgrades.antt =====
-- Which URL a navigation ends up with.
use b_browser.Prelude.{
  Bool, Option, Str, arith, chars, false, inl, inr, none, refl, some, true, ◌∷◌, ◌≡◌, ◌≢◌, ◌⊎◌,
}
use b_browser.Prelude.Text.{starts_with}
use b_browser.Net.HttpsOnly.{
  HttpsMode, https_only, https_first, off, UpgradeDecision, proceed, upgraded, blocked,
  plaintext_with_warning, upgrade, decide,
}

-- The URL that the decision loads.
abbrev pub loaded : UpgradeDecision → Option Str
loaded (proceed url) = some url
loaded (upgraded url) = some url
loaded blocked = none
loaded (plaintext_with_warning url) = some url

abbrev pub IsPlaintext : Str → Type 0
IsPlaintext url = starts_with url (chars "http://") ≡ true

upgraded-not_plaintext : (url : Str) → starts_with (upgrade url) (chars "http://") ≡ false
upgraded-not_plaintext url = refl

https-not_http :
    (url : Str)
    → starts_with url (chars "https://") ≡ true
    → starts_with url (chars "http://") ≡ false
https-not_http (a ∷ b ∷ c ∷ d ∷ e ∷ url) h = ground arith
https-not_http _ h = ground arith

abbrev Decides : Str → HttpsMode → Bool → Type 0
Decides url mode failing = (u : Str) × (loaded (decide url mode failing) ≡ some u)

-- A URL is loaded in plaintext only when it was asked for in plaintext and either the mode is off,
-- or it is https-first and the host is known to fail. In particular https-only never loads a URL
-- that starts with `http://`.
pub decide-plaintext :
    (url target : Str) (mode : HttpsMode) (failing : Bool)
    → loaded (decide url mode failing) ≡ some target
    → IsPlaintext target
    → (target ≡ url) × ((mode ≡ off) ⊎ ((mode ≡ https_first) × (failing ≡ true)))
unfolding decide
decide-plaintext url target https_only failing h p =
    absurd (ground (arith, https-not_http url, upgraded-not_plaintext url))
decide-plaintext url target https_first true h p =
    (ground (arith, https-not_http url, upgraded-not_plaintext url), inr (refl, refl))
decide-plaintext url target https_first false h p =
    absurd (ground (arith, https-not_http url, upgraded-not_plaintext url))
decide-plaintext url target off failing h p =
    (ground (arith, https-not_http url, upgraded-not_plaintext url), inl refl)

-- No URL, mode or probe makes `decide` block: every decision loads some URL.
pub decide-never_blocked :
    (url : Str) (mode : HttpsMode) (failing : Bool) → decide url mode failing ≢ blocked
unfolding decide
decide-never_blocked url https_only failing = λ e. ground arith
decide-never_blocked url https_first failing = λ e. ground arith
decide-never_blocked url off failing = λ e. ground arith
