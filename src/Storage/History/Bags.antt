-- ===== src/Storage/History/Bags.antt =====
-- Texts as bags of words, and what the index makes of them.
use b_browser.Prelude.{map, Bool, List, Str, [], ap, refl, suc, sym, zero, ℕ, ◌∙◌, ◌∷◌, ◌≡◌}
use mathlib.Core.List.{Perm, foldr, is_set}
use mathlib.Core.List.Perm
use mathlib.Core.Quot
use mathlib.Core.Quot.{Quot}
use b_browser.Prelude.Floats.{Float, nought}
use b_browser.Storage.History.{
  cosine, Entry, before, sort_by, take, SemanticIndex, tokens, bucket, dim, replicate, bump,
  count_tokens, normalized, embed, scored, search,
}

-- Lists of words up to their order.
abbrev pub Bag : Type 0
Bag = Quot {α = List Str} Perm

-- The bag of the words of a text.
abbrev pub bag_of : (Str → Str) → (ℕ → Bool) → Str → Bag
bag_of to_lowercase is_alphanumeric text = Quot.mk (tokens to_lowercase is_alphanumeric text)

module _ {ℓ} {F : Type ℓ} ⦃f : Float F⦄ (F_set : IsSet F) where
  bump_comm : (i j : ℕ) (v : List F) → bump i (bump j v) ≡ bump j (bump i v)
  bump_comm i j [] = refl
  bump_comm zero zero (x ∷ v) = refl
  bump_comm zero (suc j) (x ∷ v) = refl
  bump_comm (suc i) zero (x ∷ v) = refl
  bump_comm (suc i) (suc j) (x ∷ v) = ap (λ l. x ∷ l) (bump_comm i j v)

  abbrev bump_token : Str → List F → List F
  bump_token tok v = bump (bucket tok) v

  bump-foldr :
      (i : ℕ) (v : List F) (toks : List Str)
      → foldr bump_token (bump i v) toks ≡ bump i (foldr bump_token v toks)
  bump-foldr i v [] = refl
  bump-foldr i v (tok ∷ toks) =
      ap (bump (bucket tok)) (bump-foldr i v toks)
      ∙ bump_comm (bucket tok) i (foldr bump_token v toks)

  -- The loop from the left is the fold from the right.
  count_tokens-foldr :
      (v : List F) (toks : List Str) → count_tokens v toks ≡ foldr bump_token v toks
  unfolding count_tokens
  count_tokens-foldr v [] = refl
  count_tokens-foldr v (tok ∷ toks) =
      count_tokens-foldr (bump (bucket tok) v) toks ∙ bump-foldr (bucket tok) v toks

  pub count_tokens-Perm :
      (v : List F) (s t : List Str) → Perm s t → count_tokens v s ≡ count_tokens v t
  count_tokens-Perm v s t p =
      count_tokens-foldr v s
      ∙ Perm.foldr-eq (is_set F_set) bump_token (λ a b w. bump_comm (bucket a) (bucket b) w) p v
      ∙ sym (count_tokens-foldr v t)

  -- The embedding of a bag of words.
  unfoldable pub embed_bag : Bag → List F
  embed_bag =
      Quot.lift (is_set F_set) (λ toks. normalized (count_tokens (replicate dim nought) toks))
        (λ s t p. ap normalized (count_tokens-Perm (replicate dim nought) s t p))

  module _ (to_lowercase : Str → Str) (is_alphanumeric : ℕ → Bool) where
    embed-embed_bag :
        (text : Str)
        → embed to_lowercase is_alphanumeric text
          ≡ embed_bag (bag_of to_lowercase is_alphanumeric text)
    unfolding embed embed_bag
    embed-embed_bag text = refl

    -- Queries with the same bag of words find the same entries with the same scores, in the same
    -- order, whatever the order and the separators of their words.
    pub search-Bag :
        (index : SemanticIndex F) (query other : Str) (k : ℕ)
        → bag_of to_lowercase is_alphanumeric query ≡ bag_of to_lowercase is_alphanumeric other
        → search to_lowercase is_alphanumeric index query k
          ≡ search to_lowercase is_alphanumeric index other k
    unfolding search scored
    search-Bag index query other k e =
        ap
          (λ q.
            take k
              (sort_by before (map (λ (x : Entry F). (x, cosine q x.embedding)) index.entries)))
          (embed-embed_bag query ∙ ap embed_bag e ∙ sym (embed-embed_bag other))
