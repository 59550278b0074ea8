-- ===== src/Rendering/Budgets.antt =====
-- A privacy budget over a series of costs.
use b_browser.Prelude.Eq.{◌==◌}
use b_browser.Prelude.{
  inr, inl, sym, Bool-cases, All, List, Str, [], arith, false, refl, true, ◌↔◌, ◌∙◌, ◌∷◌, ◌≡◌, ◌≢◌,
}
use b_browser.Prelude.Floats.{Float, IsIeee, ◌≼◌, nought}
use b_browser.Rendering.Fingerprint.{
  RandomizationLevel, off, standard, strict, maximum, level_eq, PrivacyBudget, initial, new,
  try_spend,
}

module _ {ℓ} {F : Type ℓ} ⦃f : Float F⦄ (laws : IsIeee F) where
  -- The budget after a series of calls of `try_spend`.
  unfoldable pub spend_all : PrivacyBudget F → List F → PrivacyBudget F
  spend_all b [] = b
  spend_all b (cost ∷ costs) = spend_all (try_spend b cost).1 costs

  -- What is left is a finite amount between nothing and `most`.
  pub record IsWithin (most : F) (b : PrivacyBudget F) : Type ℓ where
    pub finite : f.is_finite b.remaining ≡ true
    pub lower : nought ≼ b.remaining
    pub upper : b.remaining ≼ most

  try_spend-IsWithin :
      (most : F) (b : PrivacyBudget F) (cost : F)
      → nought ≼ cost
      → IsWithin most b
      → IsWithin most (try_spend b cost).1 × ((try_spend b cost).1.remaining ≼ b.remaining)
  unfolding try_spend
  try_spend-IsWithin most b cost nonneg w =
      let same = (laws.number_of_le b.remaining most w.upper).0 in
      elim (Bool-cases (b.level == off)) [
        | inl e ↦ rw e (w, same)
        | inr e ↦ elim (Bool-cases (f.le cost b.remaining)) [
          | inr e' ↦ rw (e, e') (w, same)
          | inl e' ↦
              let left = laws.sub_bounds b.remaining cost w.finite nonneg e' in
              rw (e, e')
                (
                  record {
                    finite = left.2;
                    lower = left.0;
                    upper = laws.le_trans (f.sub b.remaining cost) b.remaining most left.1 w.upper;
                  },
                  left.1,
                )
        ]
      ]

  try_spend-level : (b : PrivacyBudget F) (cost : F) → (try_spend b cost).1.level ≡ b.level
  unfolding try_spend
  try_spend-level b cost = ground arith

  spend_all-IsWithin :
      (most : F) (b : PrivacyBudget F) (costs : List F)
      → All (λ c. nought ≼ c) costs
      → IsWithin most b
      → IsWithin most (spend_all b costs)
        × ((spend_all b costs).remaining ≼ b.remaining)
        × ((spend_all b costs).level ≡ b.level)
  unfolding spend_all
  spend_all-IsWithin most b [] h w = (w, (laws.number_of_le b.remaining most w.upper).0, refl)
  spend_all-IsWithin most b (cost ∷ costs) h w =
      let first = try_spend-IsWithin most b cost h.0 w in
      let rest = spend_all-IsWithin most (try_spend b cost).1 costs h.1 first.0 in
      (
        rest.0,
        laws.le_trans (spend_all (try_spend b cost).1 costs).remaining
            (try_spend b cost).1.remaining b.remaining rest.1 first.1,
        rest.2 ∙ try_spend-level b cost,
      )

  new-IsWithin :
      (origin : Str) (level : RandomizationLevel)
      → level ≢ off
      → IsWithin (initial level) (new origin level)
  unfolding new initial
  new-IsWithin origin off h = absurd (h refl)
  new-IsWithin origin standard h = record {
    finite = laws.literal_finite 10 0 (omega arith);
    lower = laws.nought_le_literal 10 0;
    upper = (laws.number_of_le nought (f.literal 10 0) (laws.nought_le_literal 10 0)).1;
  }
  new-IsWithin origin strict h = record {
    finite = laws.literal_finite 4 0 (omega arith);
    lower = laws.nought_le_literal 4 0;
    upper = (laws.number_of_le nought (f.literal 4 0) (laws.nought_le_literal 4 0)).1;
  }
  new-IsWithin origin maximum h = record {
    finite = laws.literal_finite 1 0 (omega arith);
    lower = laws.nought_le_literal 1 0;
    upper = (laws.number_of_le nought (f.literal 1 0) (laws.nought_le_literal 1 0)).1;
  }

  refused :
      (b : PrivacyBudget F) (cost : F)
      → b.level ≢ off
      → ((try_spend b cost).0 ≡ false) ↔ (f.le cost b.remaining ≡ false)
  unfolding try_spend
  refused b cost h = ground (arith, level_eq.same_iff b.level off)

  -- Where the level is not `off` and no cost is negative or NaN, the budget of an origin stays a
  -- finite amount between nothing and its initial amount over any series of calls.
  pub spend_all-IsWithin-initial :
      (origin : Str) (level : RandomizationLevel) (costs : List F)
      → level ≢ off
      → All (λ c. nought ≼ c) costs
      → IsWithin (initial level) (spend_all (new origin level) costs)
  spend_all-IsWithin-initial origin level costs limited h =
      (spend_all-IsWithin (initial level) (new origin level) costs h
        (new-IsWithin origin level limited)).0

  refused_later :
      (most : F) (b : PrivacyBudget F) (after : List F) (cost more : F)
      → b.level ≢ off
      → IsWithin most b
      → All (λ c. nought ≼ c) after
      → (try_spend b cost).0 ≡ false
      → cost ≼ more
      → (try_spend (spend_all b after) more).0 ≡ false
  refused_later most b after cost more limited w h refusal le =
      let then = spend_all-IsWithin most b after h w in
      let now = (refused b cost limited).0 refusal in
      (refused (spend_all b after) more (λ e. limited (sym then.2 ∙ e))).1
        (elim (Bool-cases (f.le more (spend_all b after).remaining)) [
          | inr e ↦ e
          | inl e ↦ absurd (
              ground (
                arith,
                now,
                laws.le_trans cost more b.remaining le
                    (laws.le_trans more (spend_all b after).remaining b.remaining e then.1),
              ))
        ])

  spend_all-level : (b : PrivacyBudget F) (costs : List F) → (spend_all b costs).level ≡ b.level
  unfolding spend_all
  spend_all-level b [] = refl
  spend_all-level b (cost ∷ costs) =
      spend_all-level (try_spend b cost).1 costs ∙ try_spend-level b cost

  level-new : (origin : Str) (level : RandomizationLevel) → (new {F = F} origin level).level ≡ level
  unfolding new
  level-new origin level = refl

  -- Where the level is not `off` and no cost is negative or NaN, a cost that is refused once is
  -- refused after any further calls, and so is every cost that is no less.
  pub try_spend-for_good :
      (origin : Str) (level : RandomizationLevel) (before after : List F) (cost more : F)
      → level ≢ off
      → All (λ c. nought ≼ c) before
      → All (λ c. nought ≼ c) after
      → (try_spend (spend_all (new origin level) before) cost).0 ≡ false
      → cost ≼ more
      → (try_spend (spend_all (spend_all (new origin level) before) after) more).0 ≡ false
  try_spend-for_good origin level before after cost more limited h k refusal le =
      refused_later (initial level) (spend_all (new origin level) before) after cost more
        (λ e.
          limited
            (sym (level-new origin level) ∙ sym (spend_all-level (new origin level) before) ∙ e))
        (spend_all-IsWithin-initial origin level before limited h) k refusal le
