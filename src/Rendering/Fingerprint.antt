-- ===== src/Rendering/Fingerprint.antt =====
-- engine/blink-integration/src/fingerprint.rs: the privacy budget of an origin and its canvas noise.
use b_browser.Prelude.Eq.{of_discrete, ◌==◌, PartialEq}
use b_browser.Prelude.{Bool, Str, false, if◌then◌else◌, true, ℕ}
use b_browser.Prelude.Floats.{Float}
use b_browser.Prelude.Text.{utf8}
use b_browser.Prelude.Fnv.{fnv_offset, fnv_from}

pub data RandomizationLevel : Type 0 where
  off standard strict maximum : RandomizationLevel

unfoldable pub RandomizationLevel-discrete : Discrete RandomizationLevel
RandomizationLevel-discrete = hlevel

instance abbrev pub level_eq : PartialEq RandomizationLevel
level_eq = of_discrete RandomizationLevel-discrete

pub record PrivacyBudget {ℓ} (F : Type ℓ) : Type ℓ where
  pub origin : Str
  pub remaining : F
  pub level : RandomizationLevel

module _ {ℓ} {F : Type ℓ} ⦃f : Float F⦄ where
  unfoldable pub initial : RandomizationLevel → F
  initial off = f.infinity
  initial standard = f.literal 10 0
  initial strict = f.literal 4 0
  initial maximum = f.literal 1 0

  unfoldable pub new : Str → RandomizationLevel → PrivacyBudget F
  unfolding initial
  new origin level = record { origin = origin; remaining = initial level; level = level }

  unfoldable pub try_spend : PrivacyBudget F → F → Bool × PrivacyBudget F
  try_spend b cost =
      if b.level == off
      then (true, b)
      else if f.le cost b.remaining
      then (true, record b { remaining = f.sub b.remaining cost })
      else (false, b)

unfoldable pub canvas_noise_seed : Str → RandomizationLevel → ℕ
unfolding fnv_from utf8
canvas_noise_seed origin level = if level == off then 0 else fnv_from fnv_offset (utf8 origin)
