-- ===== src/Policy/Audit/Tamper.antt =====
-- Two logs of one length with one root, and the collisions that can be found in them.
use b_browser.Prelude.Eq.{◌==◌}
use b_browser.Prelude.{
  ap, ◌∙◌, sym, ◌++◌, Bool-cases, length-map, ◌≢◌, map, Str, ℕ, ◌≡◌, refl, List, [], ◌∷◌, length,
  ◌⊎◌, inl, inr, text_eq,
}
use mathlib.Core.Bool.{false≢true}
use mathlib.Core.List.{append-nil, append_assoc, Memᴰ}
use b_browser.Policy.Audit.{utf8, new, hash_bytes, append, AuditLog, root}
use b_browser.Policy.Audit.Collisions.{
  PairCollision, root_or_collision, Words, AreWords, Hashes-AreWords, hash_bytes-lt,
}

-- The log of a list of entries.
unfoldable pub append_all : AuditLog → List Str → AuditLog
append_all log [] = log
append_all log (e ∷ es) = append_all (append log e) es

abbrev pub leaf : Str → ℕ
leaf e = hash_bytes (utf8 e)

leaves-append_all :
    (log : AuditLog) (es : List Str) → (append_all log es).leaves ≡ log.leaves ++ map leaf es
unfolding append_all append
leaves-append_all log [] = sym (append-nil log.leaves)
leaves-append_all log (e ∷ es) =
    leaves-append_all (append log e) es ∙ append_assoc log.leaves (leaf e ∷ []) (map leaf es)

pub leaves_of : (es : List Str) → append_all new es ≡ record { leaves = map leaf es }
unfolding new
leaves_of es = λ i. record { leaves = leaves-append_all new es i }

leaves-Words : (es : List Str) → Words (map leaf es)
leaves-Words [] = tt
leaves-Words (e ∷ es) = (hash_bytes-lt (utf8 e), leaves-Words es)

-- Two different pairs of 64-bit words with one hash, one hashed for the root of each history.
pub record RootCollision (es fs : List Str) : Type 0 where
  pub pair : PairCollision (map leaf es) (map leaf fs)
  pub one_words : AreWords pair.one
  pub other_words : AreWords pair.other

root_collision :
    (es fs : List Str) → PairCollision (map leaf es) (map leaf fs) → RootCollision es fs
root_collision es fs c = record {
  pair = c;
  one_words = Hashes-AreWords c.one (leaves-Words es) c.in_one;
  other_words = Hashes-AreWords c.other (leaves-Words fs) c.in_other;
}

-- An entry of each of the two histories, different ones with one hash.
pub record EntryCollision (es fs : List Str) : Type 0 where
  pub one : Str
  pub other : Str
  pub in_one : Memᴰ one es
  pub in_other : Memᴰ other fs
  pub differ : one ≢ other
  pub same : leaf one ≡ leaf other

entries_or_collision :
    (es fs : List Str) → map leaf es ≡ map leaf fs → (es ≡ fs) ⊎ EntryCollision es fs
entries_or_collision [] [] h = inl refl
entries_or_collision [] (f ∷ fs) h = absurd (cc)
entries_or_collision (e ∷ es) [] h = absurd (cc)
entries_or_collision (e ∷ es) (f ∷ fs) h = elim (Bool-cases (e == f)) [
  | inl p ↦ elim (entries_or_collision es fs (cc)) [
    | inl q ↦ inl (cc ((text_eq.same_iff e f).0 p, q))
    | inr c ↦ inr (record {
      one = c.one;
      other = c.other;
      in_one = Memᴰ.tail c.in_one;
      in_other = Memᴰ.tail c.in_other;
      differ = c.differ;
      same = c.same;
    })
  ]
  | inr n ↦ inr (record {
    one = e;
    other = f;
    in_one = Memᴰ.head refl;
    in_other = Memᴰ.head refl;
    differ = λ p. false≢true (sym n ∙ (text_eq.same_iff e f).1 p);
    same = cc;
  })
]

-- Tamper evidence: two histories of as many entries whose logs have one root are the same history,
-- unless a collision is at hand in them: two different entries, one of each history, with one
-- hash, or two different pairs of 64-bit nodes, one hashed for the root of each log, with one hash.
pub tamper_evident :
    (es fs : List Str)
    → length es ≡ length fs
    → root (append_all new es) ≡ root (append_all new fs)
    → (es ≡ fs) ⊎ (RootCollision es fs ⊎ EntryCollision es fs)
tamper_evident es fs n e =
    let m : length (map leaf es) ≡ length (map leaf fs) =
      length-map leaf es ∙ n ∙ sym (length-map leaf fs) in
    elim (root_or_collision (map leaf es) (map leaf fs) m
      (ap root (sym (leaves_of es)) ∙ e ∙ ap root (leaves_of fs))) [
        | inl same ↦ elim (entries_or_collision es fs same) [ inl q ↦ inl q | inr c ↦ inr (inr c) ]
        | inr c ↦ inr (inl (root_collision es fs c))
      ]
