-- ===== src/Policy/Audit/Root.antt =====
-- The loop of `root` and its fuel.
use b_browser.Prelude.{
  ℕ, zero, suc, ◌+◌, ◌/◌, ◌≤◌, ◌<◌, ◌≡◌, refl, sym, ◌∙◌, some, List, [], ◌∷◌, length, arith,
}
use b_browser.Policy.Audit.{AuditLog, next_level, root_loop, root}

pub length-next_level : (l : List ℕ) → length (next_level l) ≡ (length l + 1) / 2
unfolding next_level
length-next_level [] = omega arith
length-next_level (a ∷ []) = omega arith
length-next_level (a ∷ b ∷ rest) = omega (arith, length-next_level rest)

pub root_loop_total :
    (fuel : ℕ) (l : List ℕ) → 0 < length l → length l ≤ fuel → (r : ℕ) × (root_loop fuel l ≡ some r)
unfolding root_loop
root_loop_total zero l p q = absurd (omega arith)
root_loop_total (suc fuel) [] p q = absurd (omega arith)
root_loop_total (suc fuel) (a ∷ []) p q = (a, refl)
root_loop_total (suc fuel) (a ∷ b ∷ rest) p q =
    let n = length-next_level (a ∷ b ∷ rest) in
    let (r, e) = root_loop_total fuel (next_level (a ∷ b ∷ rest)) (omega arith) (omega arith) in
    (r, ground arith)

-- `root` returns for every log: its loop never runs out of fuel and never reads an empty level.
pub root_total : (log : AuditLog) → (r : ℕ) × (root log ≡ some r)
unfolding root
root_total log = go log.leaves
  where
    go : (l : List ℕ) → (r : ℕ) × (root (record { leaves = l }) ≡ some r)
    go [] = (0, refl)
    go (a ∷ rest) = root_loop_total (length (a ∷ rest)) (a ∷ rest) (omega arith) (omega arith)

-- Any fuel that is enough gives the same root.
pub root_loop_enough :
    (f g : ℕ) (l : List ℕ)
    → 0 < length l
    → length l ≤ f
    → length l ≤ g
    → root_loop f l ≡ root_loop g l
unfolding root_loop
root_loop_enough zero g l p q q' = absurd (omega arith)
root_loop_enough (suc f) zero l p q q' = absurd (omega arith)
root_loop_enough (suc f) (suc g) [] p q q' = refl
root_loop_enough (suc f) (suc g) (a ∷ []) p q q' = refl
root_loop_enough (suc f) (suc g) (a ∷ b ∷ rest) p q q' =
    let n = length-next_level (a ∷ b ∷ rest) in
    ground (
      arith,
      root_loop_enough f g (next_level (a ∷ b ∷ rest)) (omega arith) (omega arith) (omega arith),
    )

root_pos : (l : List ℕ) → 0 < length l → root (record { leaves = l }) ≡ root_loop (length l) l
unfolding root
root_pos [] p = absurd (omega arith)
root_pos (a ∷ rest) p = refl

first_round :
    (a b : ℕ) (rest : List ℕ) (f : ℕ)
    → root_loop (suc f) (a ∷ b ∷ rest) ≡ root_loop f (next_level (a ∷ b ∷ rest))
unfolding root_loop
first_round a b rest f = ground arith

-- One round of the loop: the root of a level of two or more nodes is that of the next level.
pub root_round :
    (a b : ℕ) (rest : List ℕ)
    → root (record { leaves = a ∷ b ∷ rest }) ≡ root (record { leaves = next_level (a ∷ b ∷ rest) })
root_round a b rest =
    let l = a ∷ b ∷ rest in
    let n = length-next_level l in
    root_pos l (omega arith)
    ∙ first_round a b rest (suc (length rest))
    ∙ root_loop_enough (suc (length rest)) (length (next_level l)) (next_level l) (omega arith)
        (omega arith) (omega arith)
    ∙ sym (root_pos (next_level l) (omega arith))
