-- ===== src/Gpu/Tests.antt =====
-- The unit tests of compositor.rs, capture.rs and energy.rs, and the theorems at concrete inputs.
use b_browser.Prelude.{false, true, some, err, List, [], chars, map, refl, ◌∷◌, ◌≡◌}
use b_browser.Gpu.Compositor.{DisplayItem, rect, text, batch}
use b_browser.Gpu.Capture.{region, no_focus_change, validate}
use b_browser.Prelude.Floats.{whole_float, Whole, Whole-IsIeee, nought, ◌≼◌}
use b_browser.Gpu.Energy.{ActivitySample, default_model, share, estimate}
use b_browser.Gpu.Monotone.{estimate-mono}
use b_browser.Gpu.Estimates.{IsSound, full, estimate-bounds}
use b_browser.Gpu.Batches.{key, drawn, IsCoalesced, batch-drawn}

abbrev items : List DisplayItem
items = rect 0 ∷ rect 0 ∷ text 0 ∷ []

coalesces :
    batch items
    ≡ record { layer = 0; kind = chars "rect"; count = 2 }
      ∷ record { layer = 0; kind = chars "text"; count = 1 }
      ∷ []
unfolding batch
coalesces = refl

batch-drawn_example : (drawn (batch items) ≡ map key items) × IsCoalesced (batch items)
batch-drawn_example = batch-drawn items

zero_region_rejected :
    validate (record {
      origin = chars "https://x.example";
      target = region 0 0 0 100;
      focus = no_focus_change;
    })
    ≡ err (chars "region capture requires non-zero dimensions")
unfolding validate
zero_region_rejected = refl

-- A busy processor in a window of ten seconds.
abbrev sample : ActivitySample Whole
sample = record { cpu_ms = some 10000; gpu_ms = some 4000; hw_video = false; window_secs = some 10 }

model-IsSound : IsSound Whole-IsIeee default_model
unfolding default_model
model-IsSound = record { cpu = (refl, refl); gpu = (refl, refl); sum = refl }

estimate-bounds_example :
    (nought ≼ (estimate sample default_model).average_watts)
    × ((estimate sample default_model).average_watts ≼ full Whole-IsIeee default_model)
    × ((estimate (record sample { hw_video = true }) default_model).average_watts
        ≼ (estimate (record sample { hw_video = false }) default_model).average_watts)
estimate-bounds_example =
    estimate-bounds Whole-IsIeee sample default_model (unfold share in refl) (unfold share in refl)
      model-IsSound

estimate-mono_example :
    ((estimate sample default_model).average_watts
      ≼ (estimate
          (record sample { cpu_ms = some 20000; gpu_ms = some 4000 })
          default_model).average_watts)
    × ((estimate sample default_model).energy_wh
        ≼ (estimate
            (record sample { cpu_ms = some 20000; gpu_ms = some 4000 })
            default_model).energy_wh)
estimate-mono_example =
    estimate-mono Whole-IsIeee sample (some 20000) (some 4000) default_model model-IsSound refl
      (unfold share in record { cpu = refl; gpu = refl })
      (unfold share in record { cpu = refl; gpu = refl }) refl refl (refl, refl)
