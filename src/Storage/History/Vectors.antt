-- ===== src/Storage/History/Vectors.antt =====
-- The lengths of the vectors of the index.
use b_browser.Prelude.{
  List, Str, [], ◌∷◌, ◌++◌, ℕ, ◌<◌, ◌≡◌, arith, refl, suc, zero, length, Bool, length-map, All,
  All-append, chars, ◌∙◌,
}
use b_browser.Prelude.Floats.{Float, nought}
use b_browser.Storage.History
use b_browser.Storage.History.{
  Entry, SemanticIndex, dim, replicate, bump, bucket, count_tokens, norm_of, normalized, tokens,
  embed, add,
}

bucket_range : (tok : Str) → bucket tok < dim
unfolding bucket
bucket_range tok = omega arith

module _ {ℓ} {F : Type ℓ} where
  length-replicate : (n : ℕ) (x : F) → length (replicate n x) ≡ n
  length-replicate zero x = refl
  length-replicate (suc n) x = omega (arith, length-replicate n x)

  -- The vector of the entry has `dim` components.
  abbrev pub IsSized : Entry F → Type 0
  IsSized e = length e.embedding ≡ dim

module _ {ℓ} {F : Type ℓ} ⦃f : Float F⦄ where
  length-bump : (i : ℕ) (v : List F) → length (bump i v) ≡ length v
  length-bump i [] = refl
  length-bump zero (x ∷ v) = refl
  length-bump (suc i) (x ∷ v) = omega (arith, length-bump i v)

  length-count_tokens : (v : List F) (toks : List Str) → length (count_tokens v toks) ≡ length v
  unfolding count_tokens
  length-count_tokens v [] = refl
  length-count_tokens v (tok ∷ toks) =
      omega (arith, length-count_tokens (bump (bucket tok) v) toks, length-bump (bucket tok) v)

  length-normalized : (v : List F) → length (normalized v) ≡ length v
  unfolding normalized
  length-normalized v = ground (arith, length-map (λ x. f.div x (norm_of v)) v)

  -- The pages are added one after the other, the latest first.
  unfoldable pub index_after : (Str → Str) → (ℕ → Bool) → List (Str × Str) → SemanticIndex F
  index_after lower alnum [] = History.new
  index_after lower alnum ((url, title) ∷ pages) =
      add lower alnum (index_after lower alnum pages) url title

module _ {ℓ} (F : Type ℓ) ⦃f : Float F⦄ (to_lowercase : Str → Str)
    (is_alphanumeric : ℕ → Bool) where
  length-embed : (text : Str) → length {A = F} (embed to_lowercase is_alphanumeric text) ≡ dim
  unfolding embed
  length-embed text =
      let toks = tokens to_lowercase is_alphanumeric text in
      let v = replicate {A = F} dim nought in
      length-normalized (count_tokens v toks)
      ∙ length-count_tokens v toks
      ∙ length-replicate {F = F} dim nought

  index_after-IsSized :
      (pages : List (Str × Str))
      → All (IsSized {F = F}) (index_after to_lowercase is_alphanumeric pages).entries
  unfolding index_after add History.new
  index_after-IsSized [] = tt
  index_after-IsSized ((url, title) ∷ pages) =
      All-append (IsSized {F = F}) (index_after to_lowercase is_alphanumeric pages).entries (_ ∷ [])
        (index_after-IsSized pages) (length-embed (title ++ (chars " " ++ url)), tt)

  -- Whatever pages were added, the vectors of the index and that of any query all have `dim`
  -- components, so that a score leaves none out, and the bucket of any token lies within the
  -- vector that the tokens are counted in, so that the access does not panic.
  pub embed-IsSized :
      (pages : List (Str × Str)) (query : Str) (before : List Str) (tok : Str)
      → All (IsSized {F = F}) (index_after to_lowercase is_alphanumeric pages).entries
        × (length {A = F} (embed to_lowercase is_alphanumeric query) ≡ dim)
        × (bucket tok < length {A = F} (count_tokens (replicate dim nought) before))
  embed-IsSized pages query before tok = (
    index_after-IsSized pages,
    length-embed query,
    omega (
      arith,
      bucket_range tok,
      length-count_tokens (replicate {A = F} dim nought) before,
      length-replicate dim (nought {F = F}),
    ),
  )
