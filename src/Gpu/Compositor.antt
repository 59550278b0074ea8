-- ===== src/Gpu/Compositor.antt =====
-- engine/gpu/src/compositor.rs: a display list reduced to draw calls.
use b_browser.Prelude.Eq.{nat_eq, ◌==◌}
use b_browser.Prelude.{text_eq, List, Str, [], chars, if◌then◌else◌, ℕ, ◌&&◌, ◌+◌, ◌∷◌}

pub data DisplayItem : Type 0 where
  rect text image : (layer : ℕ) → DisplayItem

unfoldable pub layer_of : DisplayItem → ℕ
layer_of (rect layer) = layer
layer_of (text layer) = layer
layer_of (image layer) = layer

unfoldable pub kind_of : DisplayItem → Str
kind_of (rect layer) = chars "rect"
kind_of (text layer) = chars "text"
kind_of (image layer) = chars "image"

pub record Batch : Type 0 where
  pub layer : ℕ
  pub kind : Str
  pub count : ℕ

-- The body of the loop: `out.last_mut()` is counted up, or a new batch is pushed.
unfoldable pub add_item : List Batch → ℕ → Str → List Batch
add_item [] layer kind = record { layer = layer; kind = kind; count = 1 } ∷ []
add_item (b ∷ []) layer kind =
    if b.layer == layer && b.kind == kind
    then record b { count = b.count + 1 } ∷ []
    else b ∷ record { layer = layer; kind = kind; count = 1 } ∷ []
add_item (b ∷ c ∷ out) layer kind = b ∷ add_item (c ∷ out) layer kind

unfoldable pub batch_from : List Batch → List DisplayItem → List Batch
unfolding add_item layer_of kind_of
batch_from out [] = out
batch_from out (item ∷ items) = batch_from (add_item out (layer_of item) (kind_of item)) items

unfoldable pub batch : List DisplayItem → List Batch
unfolding batch_from
batch items = batch_from [] items
