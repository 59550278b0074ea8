-- ===== src/Gpu/Energy.antt =====
-- engine/gpu/src/energy.rs: what a tab draws, by its share of the processors.
use b_browser.Prelude.{Bool, if◌then◌else◌}
use b_browser.Prelude.Floats.{Float, clamp_unit}

pub record ActivitySample {ℓ} (F : Type ℓ) : Type ℓ where
  pub cpu_ms : F
  pub gpu_ms : F
  pub hw_video : Bool
  pub window_secs : F

pub record PowerModel {ℓ} (F : Type ℓ) : Type ℓ where
  pub watts_per_cpu_ratio : F
  pub watts_per_gpu_ratio : F
  pub grid_g_co2_per_wh : F

pub record EnergyEstimate {ℓ} (F : Type ℓ) : Type ℓ where
  pub average_watts : F
  pub energy_wh : F
  pub co2_grams : F

module _ {ℓ} {F : Type ℓ} ⦃f : Float F⦄ where
  -- `PowerModel::default()`
  unfoldable pub default_model : PowerModel F
  default_model = record {
    watts_per_cpu_ratio = f.literal 15 0;
    watts_per_gpu_ratio = f.literal 8 0;
    grid_g_co2_per_wh = f.literal 30 2;
  }

  -- The time used as a share of the window, before it is clamped.
  unfoldable pub share : F → F → F
  share ms window_secs = f.div ms (f.mul window_secs (f.literal 1000 0))

  unfoldable pub estimate : ActivitySample F → PowerModel F → EnergyEstimate F
  unfolding share
  estimate sample model =
      let cpu_ratio = clamp_unit (share sample.cpu_ms sample.window_secs) in
      let gpu_ratio = clamp_unit (share sample.gpu_ms sample.window_secs) in
      let both =
        f.add (f.mul cpu_ratio model.watts_per_cpu_ratio)
          (f.mul gpu_ratio model.watts_per_gpu_ratio) in
      let watts = if sample.hw_video then f.mul both (f.literal 85 2) else both in
      let energy_wh = f.mul watts (f.div sample.window_secs (f.literal 3600 0)) in
      record {
        average_watts = watts;
        energy_wh = energy_wh;
        co2_grams = f.mul energy_wh model.grid_g_co2_per_wh;
      }
