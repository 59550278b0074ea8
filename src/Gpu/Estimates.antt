-- ===== src/Gpu/Estimates.antt =====
-- The range of the estimated power.
use b_browser.Prelude.{false, Bool-cases, arith, inl, inr, true, ◌≡◌}
use b_browser.Prelude.Floats.{Float, IsIeee, IsNumber, ◌≼◌, nought, unity, clamp_unit}
use b_browser.Gpu.Energy.{ActivitySample, PowerModel, share, estimate}

module _ {ℓ} {F : Type ℓ} ⦃f : Float F⦄ (laws : IsIeee F) where
  -- The amount is finite and not negative.
  abbrev pub IsAmount : F → Type 0
  IsAmount w = (nought ≼ w) × (f.is_finite w ≡ true)

  pub IsNumber-nought : IsNumber {F = F} nought
  IsNumber-nought = (laws.number_of_le nought nought (laws.nought_le_literal 0 0)).0

  pub IsNumber-unity : IsNumber {F = F} unity
  IsNumber-unity = (laws.number_of_le nought unity (laws.nought_le_literal 1 0)).1

  pub clamp_unit-bounds : (x : F) → IsNumber x → (nought ≼ clamp_unit x) × (clamp_unit x ≼ unity)
  clamp_unit-bounds x n = elim (Bool-cases (f.lt x nought)) [
    | inl e ↦ rw e (IsNumber-nought, laws.nought_le_literal 1 0)
    | inr e ↦ elim (Bool-cases (f.gt x unity)) [
      | inl e' ↦ rw (e, e') (laws.nought_le_literal 1 0, IsNumber-unity)
      | inr e' ↦
          rw (e, e')
            (laws.not-lt x nought n IsNumber-nought e, laws.not-gt x unity n IsNumber-unity e')
    ]
  ]

  -- The power of one processor.
  pub part :
      (x w : F)
      → IsNumber x
      → IsAmount w
      → (nought ≼ f.mul (clamp_unit x) w) × (f.mul (clamp_unit x) w ≼ w)
  part x w n a = let b = clamp_unit-bounds x n in laws.mul_unit (clamp_unit x) w b.0 b.1 a.0 a.1

  credited :
      (w most : F)
      → IsAmount w
      → w ≼ most
      → (nought ≼ f.mul w (f.literal 85 2)) × (f.mul w (f.literal 85 2) ≼ most)
  credited w most a le =
      let r =
        laws.mul_unit (f.literal 85 2) w (laws.nought_le_literal 85 2)
          (laws.literal_le_unity 85 2 (omega arith)) a.0 a.1 in
      rw (laws.mul_comm w (f.literal 85 2) a.1 (laws.literal_finite 85 2 (omega arith)))
        (r.0, laws.le_trans (f.mul (f.literal 85 2) w) w most r.1 le)

  -- What the sample draws without the credit for hardware video.
  abbrev pub both : ActivitySample F → PowerModel F → F
  both sample model =
      f.add (f.mul (clamp_unit (share sample.cpu_ms sample.window_secs)) model.watts_per_cpu_ratio)
        (f.mul (clamp_unit (share sample.gpu_ms sample.window_secs)) model.watts_per_gpu_ratio)

  -- The full power of both processors.
  abbrev pub full : PowerModel F → F
  full model = f.add model.watts_per_cpu_ratio model.watts_per_gpu_ratio

  -- The powers of the model are finite amounts, and so is their sum.
  pub record IsSound (model : PowerModel F) : Type ℓ where
    pub cpu : IsAmount model.watts_per_cpu_ratio
    pub gpu : IsAmount model.watts_per_gpu_ratio
    pub sum : f.is_finite (full model) ≡ true

  module _ (sample : ActivitySample F) (model : PowerModel F)
      (cpu : IsNumber (share sample.cpu_ms sample.window_secs))
      (gpu : IsNumber (share sample.gpu_ms sample.window_secs)) (sound : IsSound model) where
    pub both-bounds : IsAmount (both sample model) × (both sample model ≼ full model)
    both-bounds =
        let c =
          part (share sample.cpu_ms sample.window_secs) model.watts_per_cpu_ratio cpu sound.cpu in
        let g =
          part (share sample.gpu_ms sample.window_secs) model.watts_per_gpu_ratio gpu sound.gpu in
        let most =
          laws.add_mono
            (f.mul (clamp_unit (share sample.cpu_ms sample.window_secs)) model.watts_per_cpu_ratio)
            (f.mul (clamp_unit (share sample.gpu_ms sample.window_secs)) model.watts_per_gpu_ratio)
            model.watts_per_cpu_ratio model.watts_per_gpu_ratio c.0 g.0 c.1 g.1 in
        let least =
          laws.le_trans nought
            (f.mul (clamp_unit (share sample.cpu_ms sample.window_secs)) model.watts_per_cpu_ratio)
            (both sample model) c.0
            (laws.le-add
              (f.mul (clamp_unit (share sample.cpu_ms sample.window_secs))
                model.watts_per_cpu_ratio)
              (f.mul (clamp_unit (share sample.gpu_ms sample.window_secs))
                model.watts_per_gpu_ratio)
              c.0 g.0) in
        ((least, laws.finite_below (both sample model) (full model) least most sound.sum), most)

    -- Where neither share is NaN and the model's powers and their sum are finite and not negative,
    -- the average power lies between nothing and the sum of the two powers, and with hardware video
    -- it is no more than without.
    pub estimate-bounds :
        (nought ≼ (estimate sample model).average_watts)
        × ((estimate sample model).average_watts ≼ full model)
        × ((estimate (record sample { hw_video = true }) model).average_watts
            ≼ (estimate (record sample { hw_video = false }) model).average_watts)
    unfolding estimate
    estimate-bounds =
        let b = both-bounds in
        let with_video = credited (both sample model) (full model) b.0 b.1 in
        let same = (laws.number_of_le (both sample model) (full model) b.1).0 in
        let less = (credited (both sample model) (both sample model) b.0 same).1 in
        elim (Bool-cases sample.hw_video) [
          | inl e ↦ rw e (with_video.0, with_video.1, less)
          | inr e ↦ rw e (b.0.0, b.1, less)
        ]
