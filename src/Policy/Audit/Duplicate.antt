-- ===== src/Policy/Audit/Duplicate.antt =====
-- A log whose last entry is appended a second time.
use mathlib.Core.List.{map-append}
use b_browser.Prelude.{
  length-map, ℕ, ◌%◌, ◌≡◌, refl, List, [], ◌∷◌, ◌++◌, length, arith, Str, ap, map, sym, ◌∙◌,
}
use b_browser.Policy.Audit.{next_level, root, new, hash_pair}
use b_browser.Policy.Audit.Root.{root_round}
use b_browser.Policy.Audit.Tamper.{append_all, leaf, leaves_of}

-- An odd level whose last node is repeated has the next level that it had without.
next_level-repeat :
    (l : List ℕ) (x : ℕ)
    → length l % 2 ≡ 0
    → next_level (l ++ x ∷ x ∷ []) ≡ next_level (l ++ x ∷ [])
unfolding next_level
next_level-repeat [] x odd = refl
next_level-repeat (a ∷ []) x odd = absurd (omega arith)
next_level-repeat (a ∷ b ∷ rest) x odd =
    ap (λ t. hash_pair a b ∷ t) (next_level-repeat rest x (omega arith))

root-repeat :
    (a b : ℕ) (l : List ℕ) (x : ℕ)
    → length l % 2 ≡ 0
    → root (record { leaves = a ∷ b ∷ l ++ x ∷ x ∷ [] })
      ≡ root (record { leaves = a ∷ b ∷ l ++ x ∷ [] })
root-repeat a b l x even =
    root_round a b (l ++ x ∷ x ∷ [])
    ∙ ap (λ t. root (record { leaves = t })) (next_level-repeat (a ∷ b ∷ l) x (omega arith))
    ∙ sym (root_round a b (l ++ x ∷ []))

-- A log of an odd number of entries, three or more, keeps its root when its last entry is appended
-- a second time: the root does not tell the two histories apart.
pub root-append_again :
    (d e : Str) (es : List Str) (last : Str)
    → length es % 2 ≡ 0
    → root (append_all new (d ∷ e ∷ es ++ last ∷ last ∷ []))
      ≡ root (append_all new (d ∷ e ∷ es ++ last ∷ []))
root-append_again d e es last even =
    ap root (leaves_of (d ∷ e ∷ es ++ last ∷ last ∷ []))
    ∙ ap (λ t. root (record { leaves = leaf d ∷ leaf e ∷ t }))
        (map-append leaf es (last ∷ last ∷ []))
    ∙ root-repeat (leaf d) (leaf e) (map leaf es) (leaf last) (omega (arith, length-map leaf es))
    ∙ ap (λ t. root (record { leaves = leaf d ∷ leaf e ∷ t }))
        (sym (map-append leaf es (last ∷ [])))
    ∙ sym (ap root (leaves_of (d ∷ e ∷ es ++ last ∷ [])))
