-- ===== src/Gpu/Batches.antt =====
-- The batches of a display list against the list itself.
use mathlib.Core.List.{append_assoc, append-nil}
use b_browser.Prelude.Eq.{nat_eq, nat_eq, ◌==◌}
use b_browser.Prelude.{
  Bool-cases, List, Str, [], ap, arith, inl, inr, map, refl, suc, sym, text_eq, zero, ℕ, ◌&&◌, ◌++◌,
  ◌+◌, ◌<◌, ◌∙◌, ◌∷◌, ◌≡◌,
}
use b_browser.Gpu.Compositor.{DisplayItem, layer_of, kind_of, Batch, add_item, batch_from, batch}

abbrev pub Key : Type 0
Key = ℕ × Str

abbrev pub key : DisplayItem → Key
key item = (layer_of item, kind_of item)

abbrev pub repeat : ℕ → Key → List Key
repeat zero k = []
repeat (suc n) k = k ∷ repeat n k

-- The items that the batches draw, by their layer and kind.
abbrev pub drawn : List Batch → List Key
drawn [] = []
drawn (b ∷ bs) = repeat b.count (b.layer, b.kind) ++ drawn bs

-- Every batch draws something, and neighbours differ in layer or kind.
abbrev pub IsCoalesced : List Batch → Type 0
IsCoalesced [] = Unit
IsCoalesced (b ∷ []) = 0 < b.count
IsCoalesced (b ∷ c ∷ bs) =
    (0 < b.count) × ¬ ((b.layer ≡ c.layer) × (b.kind ≡ c.kind)) × IsCoalesced (c ∷ bs)

repeat-suc : (n : ℕ) (k : Key) → repeat (suc n) k ≡ repeat n k ++ k ∷ []
repeat-suc zero k = refl
repeat-suc (suc n) k = ap (λ l. k ∷ l) (repeat-suc n k)

repeat-more : (n : ℕ) (k : Key) → repeat (n + 1) k ≡ repeat n k ++ k ∷ []
repeat-more n k =
    let same : n + 1 ≡ suc n = omega arith in ap (λ m. repeat m k) same ∙ repeat-suc n k

drawn-add_item :
    (out : List Batch) (layer : ℕ) (kind : Str)
    → drawn (add_item out layer kind) ≡ drawn out ++ (layer, kind) ∷ []
unfolding add_item
drawn-add_item [] layer kind = refl
drawn-add_item (b ∷ []) layer kind = elim (Bool-cases (b.layer == layer && b.kind == kind)) [
  | inl e ↦
      let l : b.layer ≡ layer = ground arith in
      let k : b.kind ≡ kind = ground (arith, text_eq.same_iff b.kind kind) in
      rw e (
        append-nil (repeat (b.count + 1) (b.layer, b.kind))
        ∙ repeat-more b.count (b.layer, b.kind)
        ∙ rw (l, k)
            (ap (λ x. x ++ (layer, kind) ∷ []) (sym (append-nil (repeat b.count (layer, kind))))))
  | inr e ↦
      rw e (ap (λ x. x ++ (layer, kind) ∷ []) (sym (append-nil (repeat b.count (b.layer, b.kind)))))
]
drawn-add_item (b ∷ c ∷ out) layer kind =
    ap (λ x. repeat b.count (b.layer, b.kind) ++ x) (drawn-add_item (c ∷ out) layer kind)
    ∙ sym (append_assoc (repeat b.count (b.layer, b.kind)) (drawn (c ∷ out)) ((layer, kind) ∷ []))

-- What `add_item` keeps of the first batch.
add_item-IsCoalesced :
    (out : List Batch) (layer : ℕ) (kind : Str)
    → IsCoalesced out
    → IsCoalesced (add_item out layer kind)
unfolding add_item
add_item-IsCoalesced [] layer kind h = omega arith
add_item-IsCoalesced (b ∷ []) layer kind h =
    elim (Bool-cases (b.layer == layer && b.kind == kind)) [
      | inl e ↦ rw e (omega arith)
      | inr e ↦ rw e (h, λ (l, k). ground (arith, text_eq.same_iff b.kind kind), omega arith)
    ]
add_item-IsCoalesced (b ∷ c ∷ []) layer kind h =
    elim (Bool-cases (c.layer == layer && c.kind == kind)) [
      | inl e ↦ rw e (h.0, h.1, omega arith)
      | inr e ↦
          rw e
            (h.0, h.1, (h.2, λ (l, k). ground (arith, text_eq.same_iff c.kind kind), omega arith))
    ]
add_item-IsCoalesced (b ∷ c ∷ d ∷ out) layer kind h =
    (h.0, h.1, add_item-IsCoalesced (c ∷ d ∷ out) layer kind h.2)

batch_from-drawn :
    (out : List Batch) (items : List DisplayItem)
    → IsCoalesced out
    → (drawn (batch_from out items) ≡ drawn out ++ map key items)
      × IsCoalesced (batch_from out items)
unfolding batch_from
batch_from-drawn out [] h = (sym (append-nil (drawn out)), h)
batch_from-drawn out (item ∷ items) h =
    let ih =
      batch_from-drawn (add_item out (layer_of item) (kind_of item)) items
        (add_item-IsCoalesced out (layer_of item) (kind_of item) h) in
    (
      ih.0
          ∙ ap (λ x. x ++ map key items) (drawn-add_item out (layer_of item) (kind_of item))
          ∙ append_assoc (drawn out) (key item ∷ []) (map key items),
      ih.1,
    )

-- The batches draw the items of the display list, each once and in order, no batch is empty, and
-- neighbouring batches differ in layer or kind.
pub batch-drawn :
    (items : List DisplayItem) → (drawn (batch items) ≡ map key items) × IsCoalesced (batch items)
unfolding batch
batch-drawn items = batch_from-drawn [] items tt
