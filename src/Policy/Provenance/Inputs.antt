-- ===== src/Policy/Provenance/Inputs.antt =====
-- The inputs of a span, attached in different orders.
use b_browser.Prelude.{List, Str, [], ap, arith, false, refl, text_eq, true, ◌++◌, ◌∷◌, ◌≡◌}
use b_browser.Prelude.Sort.{IsSorted, IsTotalOrder, sort_by-IsSorted, sort_by-push_comm}
use b_browser.Policy.Provenance.{DecisionSpan, text_le, pair_le, with_input}

text_le_total : (s t : Str) → text_le s t ≡ false → text_le t s ≡ true
text_le_total [] t h = absurd (cc)
text_le_total (x ∷ s) [] h = refl
text_le_total (x ∷ s) (y ∷ t) h = ground (arith, text_le_total s t)

text_le_antisym : (s t : Str) → text_le s t ≡ true → text_le t s ≡ true → s ≡ t
text_le_antisym [] [] h k = refl
text_le_antisym [] (y ∷ t) h k = absurd (cc)
text_le_antisym (x ∷ s) [] h k = absurd (cc)
text_le_antisym (x ∷ s) (y ∷ t) h k = ground (arith, text_le_antisym s t)

text_le_trans : (s t u : Str) → text_le s t ≡ true → text_le t u ≡ true → text_le s u ≡ true
text_le_trans [] t u h k = refl
text_le_trans (x ∷ s) [] u h k = absurd (cc)
text_le_trans (x ∷ s) (y ∷ t) [] h k = absurd (cc)
text_le_trans (x ∷ s) (y ∷ t) (z ∷ u) h k = ground (arith, text_le_trans s t u)

-- The order of pairs is total.
pub pair_le-IsTotalOrder : IsTotalOrder pair_le
pair_le-IsTotalOrder = record {
  total = λ (k, v) (j, w).
      ground
        (arith, text_eq.same_iff k j, text_eq.same_iff j k, text_le_total k j, text_le_total v w);
  antisym = λ (k, v) (j, w).
      ground (
        arith,
        text_eq.same_iff k j,
        text_eq.same_iff j k,
        text_le_antisym k j,
        text_le_antisym v w,
      );
  trans = λ (k, v) (j, w) (i, u). ground (
    arith,
    text_eq.same_iff k j,
    text_eq.same_iff j i,
    text_eq.same_iff k i,
    text_le_trans k j i,
    text_le_trans v w u,
    text_le_antisym k j,
    text_le_antisym j i,
  );
}

-- After `with_input` the inputs are sorted.
pub with_input-IsSorted :
    (s : DecisionSpan) (k v : Str) → IsSorted pair_le (with_input s k v).inputs
unfolding with_input
with_input-IsSorted s k v = sort_by-IsSorted pair_le pair_le-IsTotalOrder (s.inputs ++ (k, v) ∷ [])

-- Two inputs give one span, and so one log line, in whichever order they are attached.
pub with_input_comm :
    (s : DecisionSpan) (k v j w : Str)
    → with_input (with_input s k v) j w ≡ with_input (with_input s j w) k v
unfolding with_input
with_input_comm s k v j w =
    ap (λ (l : List (Str × Str)). record s { inputs = l })
      (sort_by-push_comm pair_le pair_le-IsTotalOrder (k, v) (j, w) s.inputs)
