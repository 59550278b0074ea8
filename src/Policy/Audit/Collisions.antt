-- ===== src/Policy/Audit/Collisions.antt =====
-- Levels of nodes with one root, and the pairs of nodes that are hashed on the way to it.
use b_browser.Prelude.{
  All, ◌^◌, ap, ◌++◌, ◌≢◌, ℕ, zero, suc, ◌≤◌, ◌<◌, ◌≡◌, refl, List, [], ◌∷◌, length, arith, ◌⊎◌,
  inl, inr, text_eq,
}
use mathlib.Core.Path.{ap₂}
use b_browser.Prelude.Fnv.{fnv_offset, fnv_from-lt}
use mathlib.Core.List.Memᴰ
use mathlib.Core.List.{Memᴰ}
use native.Mathlib.Decide.{ℕ_discrete}
use b_browser.Policy.Audit.{to_be_bytes, hash_bytes, hash_pair, next_level, root_loop, root}
use b_browser.Policy.Audit.Root.{length-next_level}

-- The pairs of nodes that one round hashes.
abbrev pub pairs : List ℕ → List (ℕ × ℕ)
pairs [] = []
pairs (a ∷ []) = (a, a) ∷ []
pairs (a ∷ b ∷ rest) = (a, b) ∷ pairs rest

-- Some round of the computation of the root of a level hashes the pair.
pub data Hashes (p : ℕ × ℕ) : List ℕ → Type 0 where
  now : {level : List ℕ} → 1 < length level → Memᴰ p (pairs level) → Hashes p level
  later : {level : List ℕ} → 1 < length level → Hashes p (next_level level) → Hashes p level

-- Two different pairs with one hash, one hashed for the root of each of the two levels.
pub record PairCollision (xs ys : List ℕ) : Type 0 where
  pub one : ℕ × ℕ
  pub other : ℕ × ℕ
  pub in_one : Hashes one xs
  pub in_other : Hashes other ys
  pub differ : one ≢ other
  pub same : hash_pair one.0 one.1 ≡ hash_pair other.0 other.1

-- The same for two lists of pairs.
record ListCollision (ps qs : List (ℕ × ℕ)) : Type 0 where
  one : ℕ × ℕ
  other : ℕ × ℕ
  in_one : Memᴰ one ps
  in_other : Memᴰ other qs
  differ : one ≢ other
  same : hash_pair one.0 one.1 ≡ hash_pair other.0 other.1

pair_discrete : (p q : ℕ × ℕ) → (p ≡ q) ⊎ (p ≢ q)
pair_discrete (a, b) (c, d) = elim (ℕ_discrete a c) [
  | yes p ↦ elim (ℕ_discrete b d) [
    | yes q ↦ inl (cc (p, q))
    | no n ↦ inr (λ e. n (ap (λ (x : ℕ × ℕ). x.1) e))
  ]
  | no n ↦ inr (λ e. n (ap (λ (x : ℕ × ℕ). x.0) e))
]

pair_collision :
    (p q : ℕ × ℕ) (ps qs : List (ℕ × ℕ))
    → hash_pair p.0 p.1 ≡ hash_pair q.0 q.1
    → (p ≡ q) ⊎ ListCollision (p ∷ ps) (q ∷ qs)
pair_collision p q ps qs e = elim (pair_discrete p q) [
  | inl same ↦ inl same
  | inr n ↦ inr (record {
    one = p;
    other = q;
    in_one = Memᴰ.head refl;
    in_other = Memᴰ.head refl;
    differ = n;
    same = e;
  })
]

collision_after :
    (p q : ℕ × ℕ) (ps qs : List (ℕ × ℕ)) → ListCollision ps qs → ListCollision (p ∷ ps) (q ∷ qs)
collision_after p q ps qs c = record {
  one = c.one;
  other = c.other;
  in_one = Memᴰ.tail c.in_one;
  in_other = Memᴰ.tail c.in_other;
  differ = c.differ;
  same = c.same;
}

level_or_collision :
    (xs ys : List ℕ)
    → length xs ≡ length ys
    → next_level xs ≡ next_level ys
    → (xs ≡ ys) ⊎ ListCollision (pairs xs) (pairs ys)
unfolding next_level
level_or_collision [] [] n e = inl refl
level_or_collision [] (y ∷ ys) n e = absurd (omega arith)
level_or_collision (x ∷ xs) [] n e = absurd (omega arith)
level_or_collision (x ∷ []) (y ∷ []) n e = elim (pair_collision (x, x) (y, y) [] [] (cc)) [
  | inl p ↦ inl (ap (λ (q : ℕ × ℕ). q.0 ∷ []) p)
  | inr c ↦ inr c
]
level_or_collision (x ∷ []) (y ∷ z ∷ ys) n e = absurd (omega arith)
level_or_collision (x ∷ w ∷ xs) (y ∷ []) n e = absurd (omega arith)
level_or_collision (x ∷ w ∷ xs) (y ∷ z ∷ ys) n e =
    elim (pair_collision (x, w) (y, z) (pairs xs) (pairs ys) (cc)) [
      | inl p ↦ elim (level_or_collision xs ys (omega arith) (cc)) [
        | inl q ↦ inl (ap₂ (λ (r : ℕ × ℕ) l. r.0 ∷ r.1 ∷ l) p q)
        | inr c ↦ inr (collision_after (x, w) (y, z) (pairs xs) (pairs ys) c)
      ]
      | inr c ↦ inr c
    ]

collision_now :
    (xs ys : List ℕ)
    → 1 < length xs
    → 1 < length ys
    → ListCollision (pairs xs) (pairs ys)
    → PairCollision xs ys
collision_now xs ys p q c = record {
  one = c.one;
  other = c.other;
  in_one = now p c.in_one;
  in_other = now q c.in_other;
  differ = c.differ;
  same = c.same;
}

collision_later :
    (xs ys : List ℕ)
    → 1 < length xs
    → 1 < length ys
    → PairCollision (next_level xs) (next_level ys)
    → PairCollision xs ys
collision_later xs ys p q c = record {
  one = c.one;
  other = c.other;
  in_one = later p c.in_one;
  in_other = later q c.in_other;
  differ = c.differ;
  same = c.same;
}

loop_or_collision :
    (fuel : ℕ) (xs ys : List ℕ)
    → length xs ≡ length ys
    → 0 < length xs
    → length xs ≤ fuel
    → root_loop fuel xs ≡ root_loop fuel ys
    → (xs ≡ ys) ⊎ PairCollision xs ys
unfolding root_loop
loop_or_collision zero xs ys n p q e = absurd (omega arith)
loop_or_collision (suc f) [] ys n p q e = absurd (omega arith)
loop_or_collision (suc f) (x ∷ xs) [] n p q e = absurd (omega arith)
loop_or_collision (suc f) (x ∷ []) (y ∷ []) n p q e = inl (ground arith)
loop_or_collision (suc f) (x ∷ []) (y ∷ z ∷ ys) n p q e = absurd (omega arith)
loop_or_collision (suc f) (x ∷ w ∷ xs) (y ∷ []) n p q e = absurd (omega arith)
loop_or_collision (suc f) (x ∷ w ∷ xs) (y ∷ z ∷ ys) n p q e =
    let one = x ∷ w ∷ xs in
    let other = y ∷ z ∷ ys in
    let u = length-next_level one in
    let v = length-next_level other in
    let up : root_loop f (next_level one) ≡ root_loop f (next_level other) = ground arith in
    elim (loop_or_collision f (next_level one) (next_level other) (omega arith) (omega arith)
      (omega arith) up) [
        | inl same ↦ elim (level_or_collision one other n same) [
          | inl equal ↦ inl equal
          | inr c ↦ inr (collision_now one other (omega arith) (omega arith) c)
        ]
        | inr c ↦ inr (collision_later one other (omega arith) (omega arith) c)
      ]

-- Two logs with as many leaves and one root have the same leaves, unless two different pairs that
-- are hashed for the two roots have one hash.
pub root_or_collision :
    (xs ys : List ℕ)
    → length xs ≡ length ys
    → root (record { leaves = xs }) ≡ root (record { leaves = ys })
    → (xs ≡ ys) ⊎ PairCollision xs ys
unfolding root
root_or_collision [] [] n e = inl refl
root_or_collision [] (y ∷ ys) n e = absurd (omega arith)
root_or_collision (x ∷ xs) [] n e = absurd (omega arith)
root_or_collision (x ∷ xs) (y ∷ ys) n e =
    loop_or_collision (length (x ∷ xs)) (x ∷ xs) (y ∷ ys) n (omega arith) (omega arith)
      (ground arith)

pub hash_bytes-lt : (bytes : List ℕ) → hash_bytes bytes < 2 ^ 64
unfolding hash_bytes
hash_bytes-lt bytes = fnv_from-lt fnv_offset bytes (omega arith)

-- Both nodes are words of 64 bits, so that different pairs are hashed from different bytes.
abbrev pub AreWords : ℕ × ℕ → Type 0
AreWords p = (p.0 < 2 ^ 64) × (p.1 < 2 ^ 64)

abbrev pub Words : List ℕ → Type 0
Words = All (λ x. x < 2 ^ 64)

next_level-Words : (level : List ℕ) → Words (next_level level)
unfolding next_level hash_pair
next_level-Words [] = tt
next_level-Words (a ∷ []) = (hash_bytes-lt (to_be_bytes a ++ to_be_bytes a), tt)
next_level-Words (a ∷ b ∷ rest) =
    (hash_bytes-lt (to_be_bytes a ++ to_be_bytes b), next_level-Words rest)

pairs-AreWords : (p : ℕ × ℕ) (level : List ℕ) → Words level → Memᴰ p (pairs level) → AreWords p
pairs-AreWords p [] w m = absurd (Memᴰ.not-nil m)
pairs-AreWords p (a ∷ []) w (Memᴰ.head e) = rw e (w.0, w.0)
pairs-AreWords p (a ∷ []) w (Memᴰ.tail m) = absurd (Memᴰ.not-nil m)
pairs-AreWords p (a ∷ b ∷ rest) w (Memᴰ.head e) = rw e (w.0, w.1.0)
pairs-AreWords p (a ∷ b ∷ rest) w (Memᴰ.tail m) = pairs-AreWords p rest w.1.1 m

pub Hashes-AreWords : (p : ℕ × ℕ) {level : List ℕ} → Words level → Hashes p level → AreWords p
Hashes-AreWords p {level} w (now _ m) = pairs-AreWords p level w m
Hashes-AreWords p {level} w (later _ h) = Hashes-AreWords p (next_level-Words level) h
