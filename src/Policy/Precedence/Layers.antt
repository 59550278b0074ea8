-- ===== src/Policy/Precedence/Layers.antt =====
-- One entry of the resolver: a list of layer values, strictly ascending by layer.
use b_browser.Prelude.{
  ℕ, ◌≤◌, ◌<◌, ◌≡◌, ◌≢◌, refl, Bool, not, Option, none, some, List, [], ◌∷◌, ◌++◌, leb, arith,
  filter, sym, ◌∙◌, All-append, All-imp, All-filter, find, last, All, if◌then◌else◌, Bool-cases,
  inl, inr,
}
use b_browser.Prelude.Eq.{◌==◌}
use b_browser.Prelude.Sort.{insert_by, All-sort_by, All-insert_by}
use b_browser.Policy.Precedence.{
  Layer, Layer-discrete, default, user, local_admin, enterprise, layer_eq, rank, LayerValue,
  sort_by_layer, replace,
}

-- The value that an entry holds for a layer.
abbrev pub at_layer : Layer → List LayerValue → Option LayerValue
at_layer l = find (λ x. x.layer == l)

abbrev pub Above : ℕ → List LayerValue → Type 0
Above k = All (λ x. k < rank x.layer)

abbrev pub IsAscending : List LayerValue → Type 0
IsAscending [] = Unit
IsAscending (x ∷ xs) = Above (rank x.layer) xs × IsAscending xs

pub rank_injective : (a b : Layer) → rank a ≡ rank b → a ≡ b
rank_injective a b h = ground arith

at_layer-filter :
    (l k : Layer) (xs : List LayerValue)
    → at_layer k (filter (λ x. not (x.layer == l)) xs) ≡ (if l == k then none else at_layer k xs)
at_layer-filter l k [] = ground arith
at_layer-filter l k (x ∷ xs) = ground (
  arith,
  at_layer-filter l k xs,
  layer_eq.same_iff x.layer l,
  layer_eq.same_iff x.layer k,
  layer_eq.same_iff l k,
)

at_layer-push :
    (k : Layer) (lv : LayerValue) (xs : List LayerValue)
    → at_layer lv.layer xs ≡ none
    → at_layer k (xs ++ lv ∷ []) ≡ (if lv.layer == k then some lv else at_layer k xs)
at_layer-push k lv [] h = refl
at_layer-push k lv (x ∷ xs) h = ground (
  arith,
  at_layer-push k lv xs,
  layer_eq.same_iff x.layer lv.layer,
  layer_eq.same_iff x.layer k,
  layer_eq.same_iff lv.layer k,
)

at_layer-insert_by :
    (k : Layer) (x : LayerValue) (xs : List LayerValue)
    → at_layer k (insert_by (λ a b. leb (rank a.layer) (rank b.layer)) x xs)
      ≡ (if x.layer == k then some x else at_layer k xs)
at_layer-insert_by k x [] = refl
at_layer-insert_by k x (y ∷ ys) =
    ground
      (arith, at_layer-insert_by k x ys, layer_eq.same_iff x.layer k, layer_eq.same_iff y.layer k)

at_layer-sort : (k : Layer) (xs : List LayerValue) → at_layer k (sort_by_layer xs) ≡ at_layer k xs
at_layer-sort k [] = refl
at_layer-sort k (x ∷ xs) =
    ground (arith, at_layer-sort k xs, at_layer-insert_by k x (sort_by_layer xs))

-- `replace` writes one layer and leaves the others.
pub at_layer-replace :
    (k : Layer) (lv : LayerValue) (xs : List LayerValue)
    → at_layer k (replace xs lv) ≡ (if lv.layer == k then some lv else at_layer k xs)
unfolding replace
at_layer-replace k lv xs = ground (
  arith,
  at_layer-sort k (filter (λ x. not (x.layer == lv.layer)) xs ++ lv ∷ []),
  at_layer-push k lv (filter (λ x. not (x.layer == lv.layer)) xs),
  at_layer-filter lv.layer k xs,
  at_layer-filter lv.layer lv.layer xs,
  layer_eq.same_iff lv.layer lv.layer,
)

abbrev Without : Layer → List LayerValue → Type 0
Without l = All (λ x. rank x.layer ≢ rank l)

insert_by-IsAscending :
    (x : LayerValue) (xs : List LayerValue)
    → Without x.layer xs
    → IsAscending xs
    → IsAscending (insert_by (λ a b. leb (rank a.layer) (rank b.layer)) x xs)
insert_by-IsAscending x [] w s = (tt, tt)
insert_by-IsAscending x (y ∷ ys) w s = elim (Bool-cases (leb (rank x.layer) (rank y.layer))) [
  | inl e ↦
      let low : rank x.layer < rank y.layer = ground (arith, w.0) in
      rw e ((low, All-imp (λ z h. omega arith) ys s.0), s)
  | inr e ↦
      let high : rank y.layer < rank x.layer = ground arith in
      rw e (
        All-insert_by (λ a b. leb (rank a.layer) (rank b.layer)) (λ z. rank y.layer < rank z.layer)
            x ys high s.0,
        insert_by-IsAscending x ys w.1 s.1,
      )
]

sort-IsAscending :
    (lv : LayerValue) (xs : List LayerValue)
    → Without lv.layer xs
    → IsAscending xs
    → IsAscending (sort_by_layer (xs ++ lv ∷ []))
sort-IsAscending lv [] w s = (tt, tt)
sort-IsAscending lv (x ∷ xs) w s =
    insert_by-IsAscending x (sort_by_layer (xs ++ lv ∷ []))
      (All-sort_by (λ a b. leb (rank a.layer) (rank b.layer)) (λ z. rank z.layer ≢ rank x.layer)
        (xs ++ lv ∷ [])
        (All-append (λ z. rank z.layer ≢ rank x.layer) xs (lv ∷ [])
          (All-imp (λ z h. omega arith) xs s.0) (λ e. w.0 (sym e), tt)))
      (sort-IsAscending lv xs w.1 s.1)

filter-Without :
    (l : Layer) (xs : List LayerValue) → Without l (filter (λ x. not (x.layer == l)) xs)
filter-Without l [] = tt
filter-Without l (x ∷ xs) = elim (Bool-cases (x.layer == l)) [
  | inl e ↦ rw e (filter-Without l xs)
  | inr e ↦ rw e (
    λ same. ground (arith, rank_injective x.layer l, layer_eq.same_iff x.layer l),
    filter-Without l xs,
  )
]

filter-IsAscending :
    (p : LayerValue → Bool) (xs : List LayerValue) → IsAscending xs → IsAscending (filter p xs)
filter-IsAscending p [] s = tt
filter-IsAscending p (x ∷ xs) s = elim (Bool-cases (p x)) [
  | inl e ↦
      rw e (All-filter (λ z. rank x.layer < rank z.layer) p xs s.0, filter-IsAscending p xs s.1)
  | inr e ↦ rw e (filter-IsAscending p xs s.1)
]

-- `replace` keeps the entry ascending, so that it holds at most one value for each layer.
pub replace-IsAscending :
    (lv : LayerValue) (xs : List LayerValue) → IsAscending xs → IsAscending (replace xs lv)
unfolding replace
replace-IsAscending lv xs s =
    sort-IsAscending lv (filter (λ x. not (x.layer == lv.layer)) xs) (filter-Without lv.layer xs)
      (filter-IsAscending (λ x. not (x.layer == lv.layer)) xs s)

-- Nothing of a layer stands among values of higher ones.
pub at_layer-Above :
    (k : ℕ) (l : Layer) (xs : List LayerValue) → rank l ≤ k → Above k xs → at_layer l xs ≡ none
at_layer-Above k l [] h a = refl
at_layer-Above k l (x ∷ xs) h a =
    ground (arith, at_layer-Above k l xs h a.1, layer_eq.same_iff x.layer l)

infixr 30 ◌or_else◌
abbrev pub ◌or_else◌ {ℓ} : {A : Type ℓ} → Option A → Option A → Option A
none or_else o = o
some a or_else o = some a

-- The value of the highest layer that is set.
abbrev pub highest : (Layer → Option LayerValue) → Option LayerValue
highest at = at enterprise or_else at local_admin or_else at user or_else at default

-- A value at a layer below all the others does not change the highest.
highest_above :
    (l : Layer) (v z : LayerValue) (g : Layer → Option LayerValue)
    → ((k : Layer) → rank k ≤ rank l → g k ≡ none)
    → highest g ≡ some z
    → highest (λ k. if l == k then some v else g k) ≡ some z
unfolding Layer-discrete
highest_above default v z g h e = ground (arith, h default)
highest_above user v z g h e = ground (arith, h default, h user)
highest_above local_admin v z g h e = ground (arith, h default, h user, h local_admin)
highest_above enterprise v z g h e = ground (arith, h default, h user, h local_admin, h enterprise)

last-some : (x : LayerValue) (xs : List LayerValue) → (y : LayerValue) × (last (x ∷ xs) ≡ some y)
last-some x [] = (x, refl)
last-some x (y ∷ ys) = last-some y ys

-- The last value of an ascending entry is that of the highest layer.
pub last-highest : (xs : List LayerValue) → IsAscending xs → last xs ≡ highest (λ l. at_layer l xs)
last-highest [] s = refl
last-highest (x ∷ []) s = ground arith
last-highest (x ∷ y ∷ ys) s =
    let ih = last-highest (y ∷ ys) s.1 in
    let (z, e) = last-some y ys in
    let h : (l : Layer) → rank l ≤ rank x.layer → at_layer l (y ∷ ys) ≡ none =
      λ l low. at_layer-Above (rank x.layer) l (y ∷ ys) low s.0 in
    e ∙ sym (highest_above x.layer x z (λ l. at_layer l (y ∷ ys)) h (sym ih ∙ e))
