-- ===== src/Gpu/Monotone.antt =====
-- The estimates of two samples compared.
use b_browser.Prelude.{Bool-cases, arith, inl, inr, true, ◌≡◌}
use b_browser.Prelude.Floats.{Float, IsIeee, IsNumber, ◌≼◌, nought, unity, clamp_unit}
use b_browser.Gpu.Energy.{ActivitySample, PowerModel, share, estimate}
use b_browser.Gpu.Estimates.{
  IsAmount, IsSound, IsNumber-nought, IsNumber-unity, clamp_unit-bounds, part, both, both-bounds,
  full, estimate-bounds,
}

module _ {ℓ} {F : Type ℓ} ⦃f : Float F⦄ (laws : IsIeee F) where
  clamp_unit-mono : (x y : F) → x ≼ y → clamp_unit x ≼ clamp_unit y
  clamp_unit-mono x y h =
      let (nx, ny) = laws.number_of_le x y h in
      elim (Bool-cases (f.lt x nought)) [
        | inl e ↦ rw e (clamp_unit-bounds laws y ny).0
        | inr e ↦
            let low =
              laws.le_trans nought x y (laws.not-lt x nought nx (IsNumber-nought laws) e) h in
            elim (Bool-cases (f.lt y nought)) [
              | inl e' ↦ absurd (cc (laws.lt-eq y nought e', low))
              | inr e' ↦ elim (Bool-cases (f.gt x unity)) [
                | inl g ↦ elim (Bool-cases (f.gt y unity)) [
                  | inl g' ↦ rw (e, e', g, g') (IsNumber-unity laws)
                  | inr g' ↦ absurd (
                      cc (
                        laws.gt-eq x unity nx (IsNumber-unity laws) g,
                        laws.le_trans x y unity h (laws.not-gt y unity ny (IsNumber-unity laws) g'),
                      ))
                ]
                | inr g ↦ elim (Bool-cases (f.gt y unity)) [
                  | inl g' ↦ rw (e, e', g, g') (laws.not-gt x unity nx (IsNumber-unity laws) g)
                  | inr g' ↦ rw (e, e', g, g') h
                ]
              ]
            ]
      ]

  -- Neither share of the sample is NaN.
  pub record IsMeasured (sample : ActivitySample F) : Type ℓ where
    pub cpu : IsNumber (share sample.cpu_ms sample.window_secs)
    pub gpu : IsNumber (share sample.gpu_ms sample.window_secs)

  part-mono :
      (x y w : F) → x ≼ y → IsAmount laws w → f.mul (clamp_unit x) w ≼ f.mul (clamp_unit y) w
  part-mono x y w h a =
      let (nx, ny) = laws.number_of_le x y h in
      let b = clamp_unit-bounds laws y ny in
      laws.mul_mono (clamp_unit x) (clamp_unit y) w
        (laws.finite_below (clamp_unit y) unity b.0 b.1 (laws.literal_finite 1 0 (omega arith))) a.1
        (clamp_unit-bounds laws x nx).0 (clamp_unit-mono x y h) a.0

  module _ (sample : ActivitySample F) (cpu_ms gpu_ms : F) (model : PowerModel F)
      (sound : IsSound laws model)
      (window : f.gt (f.mul sample.window_secs (f.literal 1000 0)) nought ≡ true)
      (idle : IsMeasured sample)
      (busy : IsMeasured (record sample { cpu_ms = cpu_ms; gpu_ms = gpu_ms }))
      (more_cpu : sample.cpu_ms ≼ cpu_ms) (more_gpu : sample.gpu_ms ≼ gpu_ms) where
    abbrev pub busier : ActivitySample F
    busier = record sample { cpu_ms = cpu_ms; gpu_ms = gpu_ms }

    share-mono :
        (ms more : F)
        → ms ≼ more
        → IsNumber (share ms sample.window_secs)
        → IsNumber (share more sample.window_secs)
        → share ms sample.window_secs ≼ share more sample.window_secs
    unfolding share
    share-mono ms more h n m =
        laws.div_mono ms more (f.mul sample.window_secs (f.literal 1000 0)) h window n m

    both-mono : both laws sample model ≼ both laws busier model
    both-mono =
        let seconds = sample.window_secs in
        let cpu = share-mono sample.cpu_ms cpu_ms more_cpu idle.cpu busy.cpu in
        let gpu = share-mono sample.gpu_ms gpu_ms more_gpu idle.gpu busy.gpu in
        laws.add_mono (f.mul (clamp_unit (share sample.cpu_ms seconds)) model.watts_per_cpu_ratio)
          (f.mul (clamp_unit (share sample.gpu_ms seconds)) model.watts_per_gpu_ratio)
          (f.mul (clamp_unit (share cpu_ms seconds)) model.watts_per_cpu_ratio)
          (f.mul (clamp_unit (share gpu_ms seconds)) model.watts_per_gpu_ratio)
          (part laws (share sample.cpu_ms seconds) model.watts_per_cpu_ratio idle.cpu sound.cpu).0
          (part laws (share sample.gpu_ms seconds) model.watts_per_gpu_ratio idle.gpu sound.gpu).0
          (part-mono (share sample.cpu_ms seconds) (share cpu_ms seconds) model.watts_per_cpu_ratio
            cpu sound.cpu)
          (part-mono (share sample.gpu_ms seconds) (share gpu_ms seconds) model.watts_per_gpu_ratio
            gpu sound.gpu)

    watts-mono : (estimate sample model).average_watts ≼ (estimate busier model).average_watts
    unfolding estimate
    watts-mono = elim (Bool-cases sample.hw_video) [
      | inl e ↦ rw e (
          laws.mul_mono (both laws sample model) (both laws busier model) (f.literal 85 2)
            (both-bounds laws busier model busy.cpu busy.gpu sound).0.1
            (laws.literal_finite 85 2 (omega arith))
            (both-bounds laws sample model idle.cpu idle.gpu sound).0.0 both-mono
            (laws.nought_le_literal 85 2))
      | inr e ↦ rw e both-mono
    ]

    -- Of two samples of one window, both with hardware video or both without, the one with at least
    -- as much time of both processors is estimated to draw no less power and to use no less energy,
    -- where no share is NaN, the powers of the model and their sum are finite and not negative, the
    -- window is positive, and its length in hours is finite and not negative.
    pub estimate-mono :
        IsAmount laws (f.div sample.window_secs (f.literal 3600 0))
        → ((estimate sample model).average_watts ≼ (estimate busier model).average_watts)
          × ((estimate sample model).energy_wh ≼ (estimate busier model).energy_wh)
    estimate-mono hours =
        let least = (estimate-bounds laws sample model idle.cpu idle.gpu sound).0 in
        let most = estimate-bounds laws busier model busy.cpu busy.gpu sound in
        (
          watts-mono,
          (unfold estimate in
              laws.mul_mono (estimate sample model).average_watts
                (estimate busier model).average_watts (f.div sample.window_secs (f.literal 3600 0))
                (laws.finite_below (estimate busier model).average_watts (full laws model) most.0
                  most.1 sound.sum)
                hours.1 least watts-mono hours.0),
        )
