-- ===== src/Rendering/Tests.antt =====
-- The unit tests of the five files, and the theorems at concrete inputs.
use b_browser.Prelude.{
  ℕ, ltb, all, Str, some, [], arith, chars, false, refl, true, ◌↔◌, ◌∷◌, ◌≡◌, ◌≤◌,
}
use b_browser.Prelude.Floats.{whole_float, Whole, Whole-IsIeee}
use b_browser.Rendering.Engines
use b_browser.Rendering.Engines.{spider_monkey, v8, select_engine, default_js_policy, jit_enabled}
use b_browser.Rendering.Fingerprint
use b_browser.Rendering.Fingerprint.{
  RandomizationLevel-discrete, off, standard, strict, maximum, PrivacyBudget, initial, try_spend,
  canvas_noise_seed,
}
use b_browser.Rendering.Budgets.{
  spend_all, IsWithin, spend_all-IsWithin-initial, try_spend-for_good,
}
use b_browser.Rendering.Seeds.{AreChars, canvas_noise_seed_differ}
use b_browser.Rendering.Selector.{blink, gecko, select}
use b_browser.Rendering.Tee.{Attestation, intel_tdx, is_trusted}
use b_browser.Rendering.Throttling.{min_timer_interval_ms, intensive, tier}
use b_browser.Rendering.Policies.{IsIn, is_trusted_iff, tier-intervals}

policy_pins :
    select (chars "https://legacy.example") (record {
      gecko_policy_origins = chars "https://legacy.example" ∷ [];
      heuristic_prefers_gecko = false;
    })
    ≡ gecko
unfolding select
policy_pins = refl

defaults_to_blink :
    select
      (chars "https://example.com")
      (record { gecko_policy_origins = []; heuristic_prefers_gecko = false })
    ≡ blink
unfolding select
defaults_to_blink = refl

intensive_after_five_minutes : tier false 301 ≡ intensive
unfolding tier
intensive_after_five_minutes = refl

abbrev report : Attestation
report = record { kind = intel_tdx; measurement = 1 ∷ 2 ∷ []; signature_valid = true }

is_trusted_iff_run :
    (is_trusted report ((9 ∷ []) ∷ (1 ∷ 2 ∷ []) ∷ []) ≡ true)
    ↔ ((true ≡ true) × IsIn (1 ∷ 2 ∷ []) ((9 ∷ []) ∷ (1 ∷ 2 ∷ []) ∷ []))
is_trusted_iff_run = is_trusted_iff report ((9 ∷ []) ∷ (1 ∷ 2 ∷ []) ∷ [])

tier-intervals_run :
    (min_timer_interval_ms (tier false 20) ≤ min_timer_interval_ms (tier false 400))
    × (min_timer_interval_ms (tier true 400) ≤ min_timer_interval_ms (tier false 20))
tier-intervals_run = tier-intervals false 20 400 (omega arith)

routes_to_spidermonkey :
    (select_engine (chars "https://bank.example") (chars "https://bank.example" ∷ [])
      ≡ spider_monkey)
    × (select_engine (chars "https://other.example") (chars "https://bank.example" ∷ []) ≡ v8)
unfolding select_engine
routes_to_spidermonkey = (refl, refl)

jit_by_default : jit_enabled (Engines.new (chars "https://x.example") default_js_policy) ≡ true
unfolding jit_enabled Engines.new default_js_policy
jit_by_default = refl

budget : PrivacyBudget Whole
unfolding Fingerprint.new
budget = Fingerprint.new (chars "https://x.example") maximum

budget_exhausts :
    ((try_spend budget (some 1)).0 ≡ true)
    × ((try_spend (try_spend budget (some 1)).1 (some 1)).0 ≡ false)
unfolding budget try_spend Fingerprint.new initial RandomizationLevel-discrete
budget_exhausts = (refl, refl)

spend_all-IsWithin-initial_example :
    IsWithin Whole-IsIeee
      (initial strict)
      (spend_all Whole-IsIeee (Fingerprint.new (chars "o") strict) (some 3 ∷ some 5 ∷ []))
spend_all-IsWithin-initial_example =
    spend_all-IsWithin-initial Whole-IsIeee (chars "o") strict (some 3 ∷ some 5 ∷ [])
      (λ e. ground arith) (refl, (refl, tt))

refused_once :
    (try_spend
      (spend_all {F = Whole} Whole-IsIeee (Fingerprint.new (chars "o") strict) (some 3 ∷ []))
      (some 2)).0
    ≡ false
unfolding try_spend spend_all Fingerprint.new initial RandomizationLevel-discrete
refused_once = refl

try_spend-for_good_run :
    (try_spend
      (spend_all Whole-IsIeee
        (spend_all {F = Whole} Whole-IsIeee (Fingerprint.new (chars "o") strict) (some 3 ∷ []))
        (some 1 ∷ []))
      (some 2)).0
    ≡ false
try_spend-for_good_run =
    try_spend-for_good Whole-IsIeee (chars "o") strict (some 3 ∷ []) (some 1 ∷ []) (some 2) (some 2)
      (λ e. ground arith) (refl, tt) (refl, tt) refused_once refl

All-ltb : (s : Str) → all (λ c. ltb c 0x110000) s ≡ true → AreChars s
All-ltb [] h = tt
All-ltb (c ∷ s) h = (ground arith, All-ltb s (ground arith))

canvas_noise_seed_differ_example :
    (canvas_noise_seed (chars "https://a.example") off ≡ 0)
    × ((canvas_noise_seed (chars "https://a.example") standard
          ≡ canvas_noise_seed (chars "https://b.example") strict)
        ↔ (◌≡◌ {A = ℕ} b'a' b'b'))
canvas_noise_seed_differ_example =
    canvas_noise_seed_differ (chars "https://") (chars ".example") b'a' b'b' standard strict
      (omega arith) (omega arith) (All-ltb (chars ".example") refl) (λ e. ground arith)
      (λ e. ground arith)
