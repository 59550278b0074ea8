-- ===== src/Storage/History/Tests.antt =====
-- The unit test of semantic_history.rs with whole floats, and the theorems at concrete inputs. The
-- letters are those of ASCII here.
use b_browser.Prelude.{
  some, ◌<◌, length, All, List, Bool, Str, [], chars, if◌then◌else◌, leb, map, refl, ℕ, ◌&&◌, ◌+◌,
  ◌||◌, ◌∷◌, ◌≡◌,
}
use mathlib.Core.List.Perm
use mathlib.Core.Quot
use b_browser.Prelude.Floats.{whole_float, Whole, Whole-IsIeee}
use b_browser.Storage.History
use b_browser.Storage.History.{
  replicate, count_tokens, SemanticIndex, tokens, embed, cosine, bucket, add, scored, search,
}
use b_browser.Storage.History.Bags.{bag_of, search-Bag}
use b_browser.Storage.History.Vectors.{embed-IsSized, index_after, IsSized}
use b_browser.Storage.History.Ranking.{IsTop, rated, search-IsTop}

abbrev to_lower : ℕ → ℕ
to_lower c = if leb 65 c && leb c 90 then c + 32 else c

abbrev lowercase : Str → Str
lowercase = map to_lower

abbrev alphanumeric : ℕ → Bool
alphanumeric c = (leb 48 c && leb c 57) || (leb 65 c && leb c 90) || (leb 97 c && leb c 122)

index : SemanticIndex Whole
unfolding add History.new embed
index =
    add lowercase alphanumeric
      (add lowercase alphanumeric History.new (chars "https://rust-lang.org")
        (chars "Rust programming language"))
      (chars "https://recipes.example") (chars "Chocolate cake recipe")

splits_into_words :
    tokens lowercase alphanumeric (chars "Cake, rust-lang!")
    ≡ chars "cake" ∷ chars "rust" ∷ chars "lang" ∷ []
unfolding tokens
splits_into_words = refl

finds_relevant_entry :
    map (λ r. r.0.url) (search lowercase alphanumeric index (chars "rust") 1)
    ≡ chars "https://rust-lang.org" ∷ []
unfolding index search embed add bucket
finds_relevant_entry = refl

abbrev visits : List (Str × Str)
visits =
    (chars "https://recipes.example", chars "Chocolate cake recipe")
    ∷ (chars "https://rust-lang.org", chars "Rust programming language")
    ∷ []

search-IsTop_example :
    IsTop Whole-IsIeee 1
      (map (rated Whole-IsIeee lowercase alphanumeric (chars "Rust")) visits)
      (search lowercase alphanumeric (index_after lowercase alphanumeric visits) (chars "Rust") 1)
search-IsTop_example =
    search-IsTop Whole-IsIeee lowercase alphanumeric visits (chars "Rust") 1
      (unfold embed bucket cosine in (refl, (refl, tt)))

same_bag :
    bag_of lowercase alphanumeric (chars "cake rust")
    ≡ bag_of lowercase alphanumeric (chars "Rust: cake")
unfolding tokens
same_bag = Quot.sound (Perm.swap (chars "rust") (chars "cake") [])

search-Bag_example :
    search lowercase alphanumeric index (chars "cake rust") 1
    ≡ search lowercase alphanumeric index (chars "Rust: cake") 1
search-Bag_example =
    search-Bag (hlevel) lowercase alphanumeric index (chars "cake rust") (chars "Rust: cake") 1
      same_bag

abbrev pages : List (Str × Str)
pages = (chars "https://rust-lang.org", chars "Rust programming language") ∷ []

embed-IsSized_example :
    All (IsSized {F = Whole}) (index_after lowercase alphanumeric pages).entries
    × (length {A = Whole} (embed lowercase alphanumeric (chars "rust")) ≡ 64)
    × (bucket (chars "rust")
        < length {A = Whole} (count_tokens (replicate 64 (some 0)) (chars "cake" ∷ [])))
embed-IsSized_example =
    embed-IsSized Whole lowercase alphanumeric pages (chars "rust") (chars "cake" ∷ [])
      (chars "rust")
