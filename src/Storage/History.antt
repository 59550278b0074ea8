-- ===== src/Storage/History.antt =====
-- engine/storage/src/semantic_history.rs: the index of visited pages. Floats are a parameter, and so
-- are `str::to_lowercase` and `char::is_alphanumeric`, which go by the Unicode tables.
pub mod Bags
pub mod Ranking
pub mod Vectors
mod Tests
use b_browser.Prelude.{
  Bool, List, Str, [], chars, filter, if◌then◌else◌, is_empty, map, not, suc, zero, ℕ, ◌%◌, ◌++◌,
  ◌∷◌,
}
use b_browser.Prelude.Floats.{Float, nought, unity}
use b_browser.Prelude.Sort.{sort_by}
use b_browser.Prelude.Text.{split, utf8}
use b_browser.Prelude.Fnv.{fnv_offset, fnv_from}

pub record Entry {ℓ} (F : Type ℓ) : Type ℓ where
  pub url : Str
  pub title : Str
  pub embedding : List F

abbrev pub dim : ℕ
dim = 64

abbrev pub replicate {ℓ} : {A : Type ℓ} → ℕ → A → List A
replicate zero a = []
replicate (suc n) a = a ∷ replicate n a

-- `truncate(k)`
abbrev pub take {ℓ} : {A : Type ℓ} → ℕ → List A → List A
take zero xs = []
take (suc k) [] = []
take (suc k) (x ∷ xs) = x ∷ take k xs

-- `(h as usize) % DIM`
unfoldable pub bucket : Str → ℕ
unfolding fnv_from utf8
bucket tok = fnv_from fnv_offset (utf8 tok) % dim

module _ (to_lowercase : Str → Str) (is_alphanumeric : ℕ → Bool) where
  unfoldable pub tokens : Str → List Str
  tokens text =
      filter (λ t. not (is_empty t)) (split (λ c. not (is_alphanumeric c)) (to_lowercase text))

pub record SemanticIndex {ℓ} (F : Type ℓ) : Type ℓ where
  pub entries : List (Entry F)

module _ {ℓ} {F : Type ℓ} ⦃f : Float F⦄ where
  -- `v[i] += 1.0`
  abbrev pub bump : ℕ → List F → List F
  bump i [] = []
  bump zero (x ∷ v) = f.add x unity ∷ v
  bump (suc i) (x ∷ v) = x ∷ bump i v

  -- The loop over the tokens.
  unfoldable pub count_tokens : List F → List Str → List F
  count_tokens v [] = v
  count_tokens v (tok ∷ toks) = count_tokens (bump (bucket tok) v) toks

  -- `sum()`, from the left; the sign of the zero that it starts from is of no consequence here.
  abbrev pub sum_from : F → List F → F
  sum_from s [] = s
  sum_from s (x ∷ xs) = sum_from (f.add s x) xs

  abbrev pub norm_of : List F → F
  norm_of v = f.sqrt (sum_from nought (map (λ x. f.mul x x) v))

  unfoldable pub normalized : List F → List F
  normalized v = let norm = norm_of v in if f.gt norm nought then map (λ x. f.div x norm) v else v

  abbrev pub products : List F → List F → List F
  products (x ∷ a) (y ∷ b) = f.mul x y ∷ products a b
  products _ _ = []

  unfoldable pub cosine : List F → List F → F
  cosine a b = sum_from nought (products a b)

  unfoldable pub new : SemanticIndex F
  new = record { entries = [] }

  -- `b.1.partial_cmp(&a.1)` is `Greater`, so that `a` goes after `b`, only when `b.1 > a.1`.
  abbrev pub before : Entry F × F → Entry F × F → Bool
  before a b = not (f.gt b.1 a.1)

  module _ (to_lowercase : Str → Str) (is_alphanumeric : ℕ → Bool) where
    unfoldable pub embed : Str → List F
    unfolding count_tokens normalized tokens
    embed text =
        normalized (count_tokens (replicate dim nought) (tokens to_lowercase is_alphanumeric text))

    unfoldable pub add : SemanticIndex F → Str → Str → SemanticIndex F
    unfolding embed
    add index url title = record {
      entries =
          index.entries
          ++ record { url = url; title = title; embedding = embed (title ++ (chars " " ++ url)) }
            ∷ [];
    }

    unfoldable pub scored : SemanticIndex F → Str → List (Entry F × F)
    unfolding embed cosine
    scored index query =
        let q = embed query in map (λ (e : Entry F). (e, cosine q e.embedding)) index.entries

    unfoldable pub search : SemanticIndex F → Str → ℕ → List (Entry F × F)
    unfolding scored
    search index query k = take k (sort_by before (scored index query))
