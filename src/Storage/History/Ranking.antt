-- ===== src/Storage/History/Ranking.antt =====
-- What a search returns.
use b_browser.Prelude.{
  map, chars, All-append, Str, arith, All-imp, length, false, ◌⊎◌, All, true, Bool, Bool-cases,
  List, [], ap, inl, inr, refl, suc, zero, ℕ, ◌++◌, ◌∷◌, ◌≡◌,
}
use mathlib.Core.List.{Perm}
use mathlib.Core.List.Perm
use b_browser.Prelude.Floats.{Float, IsIeee, IsNumber, ◌≼◌}
use b_browser.Prelude.Sort.{All-sort_by, All-insert_by, sort_by, insert_by}
use mathlib.Core.List.{map-append}
use b_browser.Storage.History
use b_browser.Storage.History.Vectors.{index_after}
use b_browser.Storage.History.{
  SemanticIndex, embed, cosine, add, Entry, before, take, scored, search,
}

module _ {ℓ} {A : Type ℓ} (le : A → A → Bool) where
  insert_by-Perm : (x : A) (xs : List A) → Perm (insert_by le x xs) (x ∷ xs)
  insert_by-Perm x [] = Perm.refl (x ∷ [])
  insert_by-Perm x (y ∷ ys) = elim (Bool-cases (le x y)) [
    | inl e ↦ rw e (Perm.refl (x ∷ y ∷ ys))
    | inr e ↦ rw e (Perm.trans (Perm.cons y (insert_by-Perm x ys)) (Perm.swap x y ys))
  ]

  pub sort_by-Perm : (xs : List A) → Perm (sort_by le xs) xs
  sort_by-Perm [] = Perm.refl []
  sort_by-Perm (x ∷ xs) =
      Perm.trans (insert_by-Perm x (sort_by le xs)) (Perm.cons x (sort_by-Perm xs))

snoc-Perm {ℓ} : {A : Type ℓ} (x : A) (xs : List A) → Perm (xs ++ x ∷ []) (x ∷ xs)
snoc-Perm x [] = Perm.refl (x ∷ [])
snoc-Perm x (y ∷ xs) = Perm.trans (Perm.cons y (snoc-Perm x xs)) (Perm.swap x y xs)

-- What `truncate(k)` leaves out.
abbrev pub drop {ℓ} : {A : Type ℓ} → ℕ → List A → List A
drop zero xs = xs
drop (suc k) [] = []
drop (suc k) (x ∷ xs) = drop k xs

take-drop {ℓ} : {A : Type ℓ} (k : ℕ) (xs : List A) → take k xs ++ drop k xs ≡ xs
take-drop zero xs = refl
take-drop (suc k) [] = refl
take-drop (suc k) (x ∷ xs) = ap (λ l. x ∷ l) (take-drop k xs)

module _ {ℓ κ μ} {A : Type ℓ} (le : A → A → Bool) (P : A → Type κ) (R : A → A → Type μ)
    (kept : (a b : A) → P a → P b → le a b ≡ true → R a b)
    (swapped : (a b : A) → P a → P b → le a b ≡ false → R b a)
    (chain : (a b c : A) → R a b → R b c → R a c) where
  -- Every item is related to all that follow it.
  abbrev pub Ordered : List A → Type μ
  Ordered [] = Unit
  Ordered (x ∷ xs) = All (R x) xs × Ordered xs

  insert_by-Ordered :
      (x : A) (xs : List A) → P x → All P xs → Ordered xs → Ordered (insert_by le x xs)
  insert_by-Ordered x [] p h s = (tt, tt)
  insert_by-Ordered x (y ∷ ys) p h s = elim (Bool-cases (le x y)) [
    | inl e ↦ rw e ((kept x y p h.0 e, All-imp (λ z. chain x y z (kept x y p h.0 e)) ys s.0), s)
    | inr e ↦
        rw e
          (All-insert_by le (R y) x ys (swapped x y p h.0 e) s.0, insert_by-Ordered x ys p h.1 s.1)
  ]

  pub sort_by-Ordered : (xs : List A) → All P xs → Ordered (sort_by le xs)
  sort_by-Ordered [] h = tt
  sort_by-Ordered (x ∷ xs) h =
      insert_by-Ordered x (sort_by le xs) h.0 (All-sort_by le P xs h.1) (sort_by-Ordered xs h.1)

All-take {ℓ κ} : {A : Type ℓ} (P : A → Type κ) (k : ℕ) (xs : List A) → All P xs → All P (take k xs)
All-take P zero xs h = tt
All-take P (suc k) [] h = tt
All-take P (suc k) (x ∷ xs) h = (h.0, All-take P k xs h.1)

All-drop {ℓ κ} : {A : Type ℓ} (P : A → Type κ) (k : ℕ) (xs : List A) → All P xs → All P (drop k xs)
All-drop P zero xs h = h
All-drop P (suc k) [] h = tt
All-drop P (suc k) (x ∷ xs) h = All-drop P k xs h.1

-- Nothing is left out, or as much is returned as was asked for.
length-take {ℓ} : {A : Type ℓ} (k : ℕ) (xs : List A) → (drop k xs ≡ []) ⊎ (length (take k xs) ≡ k)
length-take zero xs = inr refl
length-take (suc k) [] = inl refl
length-take (suc k) (x ∷ xs) = elim (length-take k xs) [ inl e ↦ inl e | inr e ↦ inr (ap suc e) ]

module _ {ℓ} {F : Type ℓ} ⦃f : Float F⦄ (laws : IsIeee F) where
  -- The second has no higher score than the first.
  abbrev pub NotAbove : Entry F × F → Entry F × F → Type 0
  NotAbove a b = b.1 ≼ a.1

  -- By descending score.
  abbrev pub Descends : List (Entry F × F) → Type 0
  Descends [] = Unit
  Descends (a ∷ rest) = All (NotAbove a) rest × Descends rest

  -- The results are `k` of the rated entries, or all of them, by descending score, and none that
  -- is left out scores higher than one of them.
  pub record IsTop (k : ℕ) (all results : List (Entry F × F)) : Type ℓ where
    pub rest : List (Entry F × F)
    pub same : Perm (results ++ rest) all
    pub enough : (rest ≡ []) ⊎ (length results ≡ k)
    pub descends : Descends results
    pub best : All (λ r. All (NotAbove r) rest) results

  kept_lem : (a b : Entry F × F) → IsNumber a.1 → IsNumber b.1 → before a b ≡ true → NotAbove a b
  kept_lem a b p q e = laws.not-gt b.1 a.1 q p (ground arith)

  swapped_lem :
      (a b : Entry F × F) → IsNumber a.1 → IsNumber b.1 → before a b ≡ false → NotAbove b a
  swapped_lem a b p q e = laws.le_total b.1 a.1 q p (laws.gt-eq b.1 a.1 q p (ground arith))

  Descends-take :
      (k : ℕ) (xs : List (Entry F × F))
      → Descends xs
      → Descends (take k xs) × All (λ r. All (NotAbove r) (drop k xs)) (take k xs)
  Descends-take zero xs d = (tt, tt)
  Descends-take (suc k) [] d = (tt, tt)
  Descends-take (suc k) (x ∷ xs) d =
      let more = Descends-take k xs d.1 in
      ((All-take (NotAbove x) k xs d.0, more.0), (All-drop (NotAbove x) k xs d.0, more.1))

  Descends-Ordered :
      (xs : List (Entry F × F))
      → Ordered before
          (λ a. IsNumber a.1)
          NotAbove
          kept_lem
          swapped_lem
          (λ a b c h k. laws.le_trans c.1 b.1 a.1 k h)
          xs
      → Descends xs
  Descends-Ordered [] o = tt
  Descends-Ordered (x ∷ xs) o = (o.0, Descends-Ordered xs o.1)

  module _ (to_lowercase : Str → Str) (is_alphanumeric : ℕ → Bool) where
    -- A page as it is kept, with the likeness of its title and URL to the query.
    abbrev pub rated : Str → Str × Str → Entry F × F
    rated query (url, title) =
        let v = embed to_lowercase is_alphanumeric (title ++ (chars " " ++ url)) in
        (
          record { url = url; title = title; embedding = v },
          cosine (embed to_lowercase is_alphanumeric query) v,
        )

    -- The score is a number.
    abbrev pub HasNumber : Entry F × F → Type 0
    HasNumber r = IsNumber r.1

    scored-add :
        (index : SemanticIndex F) (page : Str × Str) (query : Str)
        → scored to_lowercase is_alphanumeric
            (add to_lowercase is_alphanumeric index page.0 page.1)
            query
          ≡ scored to_lowercase is_alphanumeric index query ++ rated query page ∷ []
    unfolding scored add
    scored-add index (url, title) query =
        let q : List F = embed to_lowercase is_alphanumeric query in
        let with_score : Entry F → Entry F × F = λ e. (e, cosine q e.embedding) in
        map-append with_score index.entries ((rated query (url, title)).0 ∷ [])

    scored_visited :
        (pages : List (Str × Str)) (query : Str)
        → Perm
            (scored to_lowercase is_alphanumeric
              (index_after to_lowercase is_alphanumeric pages)
              query)
            (map (rated query) pages)
    unfolding index_after
    scored_visited [] query = unfold scored History.new in Perm.refl []
    scored_visited (page ∷ pages) query =
        let earlier : SemanticIndex F = index_after to_lowercase is_alphanumeric pages in
        rw (scored-add earlier page query) (
          Perm.trans
            (snoc-Perm (rated query page) (scored to_lowercase is_alphanumeric earlier query))
            (Perm.cons (rated query page) (scored_visited pages query)))

    visited-HasNumber :
        (pages : List (Str × Str)) (query : Str)
        → All (λ page. HasNumber (rated query page)) pages
        → All HasNumber (
            scored to_lowercase is_alphanumeric
              (index_after to_lowercase is_alphanumeric pages)
              query)
    unfolding index_after
    visited-HasNumber [] query n = unfold scored History.new in tt
    visited-HasNumber (page ∷ pages) query n =
        let earlier : SemanticIndex F = index_after to_lowercase is_alphanumeric pages in
        rw (scored-add earlier page query) (
          All-append HasNumber (scored to_lowercase is_alphanumeric earlier query)
            (rated query page ∷ []) (visited-HasNumber pages query n.1) (n.0, tt))

    -- After any visits, where the likeness of no visited page to the query is NaN, a search returns
    -- `k` of the visits, or all of them if there are fewer, none of them twice, by descending
    -- likeness of title and URL to the query, and none that is left out is more like it than one
    -- that is returned.
    pub search-IsTop :
        (pages : List (Str × Str)) (query : Str) (k : ℕ)
        → All (λ page. HasNumber (rated query page)) pages
        → IsTop k (map (rated query) pages) (
            search to_lowercase is_alphanumeric
              (index_after to_lowercase is_alphanumeric pages)
              query
              k)
    unfolding search
    search-IsTop pages query k numbers =
        let all =
          scored to_lowercase is_alphanumeric (index_after to_lowercase is_alphanumeric pages)
            query in
        let ranked = sort_by before all in
        let split = Descends-take k ranked (
          Descends-Ordered ranked (
            sort_by-Ordered before (λ a. IsNumber a.1) NotAbove kept_lem swapped_lem
              (λ a b c h k. laws.le_trans c.1 b.1 a.1 k h) all
              (visited-HasNumber pages query numbers))) in
        record {
          rest = drop k ranked;
          same =
              rw (take-drop k ranked)
                (Perm.trans (sort_by-Perm before all) (scored_visited pages query));
          enough = length-take k ranked;
          descends = split.0;
          best = split.1;
        }
