-- ===== src/Net/HttpsOnly.antt =====
-- engine/net/src/https_only.rs: the upgrade of a navigation to https.
use b_browser.Prelude.{Bool, Str, [], chars, if◌then◌else◌, not, suc, zero, ℕ, ◌++◌, ◌∷◌}
use b_browser.Prelude.Text.{starts_with}

pub data HttpsMode : Type 0 where
  https_only https_first off : HttpsMode

pub data UpgradeDecision : Type 0 where
  proceed : Str → UpgradeDecision
  upgraded : Str → UpgradeDecision
  blocked : UpgradeDecision
  plaintext_with_warning : Str → UpgradeDecision

-- `&s[n..]`, with `n` characters of one byte.
abbrev pub drop : ℕ → Str → Str
drop zero s = s
drop (suc n) [] = []
drop (suc n) (c ∷ s) = drop n s

abbrev pub upgrade : Str → Str
upgrade url = chars "https://" ++ drop 7 url

unfoldable pub decide : Str → HttpsMode → Bool → UpgradeDecision
decide url mode https_known_failing =
    if starts_with url (chars "https://")
    then proceed url
    else if not (starts_with url (chars "http://"))
    then proceed url
    else elim mode [
      | https_only ↦ upgraded (upgrade url)
      | https_first ↦
          if https_known_failing then plaintext_with_warning url else upgraded (upgrade url)
      | off ↦ proceed url
    ]
