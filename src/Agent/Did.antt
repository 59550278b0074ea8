-- ===== src/Agent/Did.antt =====
-- ai/agent-runtime/src/did.rs: decentralized identifiers and the presentation check.
use b_browser.Prelude.Eq.{contains, ◌==◌}
use b_browser.Prelude.{
  text_eq, Bool, List, Option, Str, [], chars, if◌then◌else◌, is_empty, none, not, some, ℕ, ◌&&◌,
  ◌||◌, ◌∷◌,
}
use b_browser.Prelude.Text.{split_once}
use b_browser.Prelude.{zero, suc}

pub record Did : Type 0 where
  pub method : Str
  pub identifier : Str

-- `splitn(n, c)`: at most `n` pieces, the last with what is left.
abbrev pub splitn : ℕ → ℕ → Str → List Str
splitn zero c s = []
splitn (suc zero) c s = s ∷ []
splitn (suc (suc n)) c s = elim (split_once c s) [
  | none ↦ s ∷ []
  | some (before, after) ↦ before ∷ splitn (suc n) c after
]

-- The three `next()?` and the tests between them.
abbrev pub did_of : List Str → Option Did
did_of (scheme ∷ method ∷ identifier ∷ _) =
    if not (scheme == chars "did")
    then none
    else if is_empty method || is_empty identifier
    then none
    else some (record { method = method; identifier = identifier })
did_of _ = none

unfoldable pub parse_did : Str → Option Did
parse_did s = did_of (splitn 3 58 s)

unfoldable pub verify_presentation : Str → Str → Str → List Str → Bool
verify_presentation subject holder issuer trusted_issuers =
    subject == holder && contains trusted_issuers issuer
