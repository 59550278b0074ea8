-- ===== src/Sync/Server/Convergence.antt =====
-- Stores that got the same writes in different orders.
use b_browser.Prelude.{
  List, Option, [], ap, arith, inl, inr, none, refl, some, ℕ, ◌↔◌, ◌∷◌, ◌≡◌, ◌≤◌, ◌⊎◌,
}
use b_browser.Sync.Server.{Blob, RecordKey, get}
use b_browser.Sync.Server.Versions.{Op, put_op, after, AtMost, Wins, Unwritten, Reads, after-Reads}

-- The history writes the blob at the key.
abbrev pub Written : Blob → RecordKey → List Op → Type 0
Written b key [] = ⊥
Written b key (put_op j blob ∷ h) = ((j ≡ key) × (b ≡ blob)) ⊎ Written b key h

-- Two writes of the history at the key that have one version are of one blob.
abbrev pub ConflictFree : RecordKey → List Op → Type 0
ConflictFree key h =
    (b c : Blob) → Written b key h → Written c key h → b.version ≡ c.version → b ≡ c

-- The two histories write the same blobs at the key.
abbrev pub SameWrites : RecordKey → List Op → List Op → Type 0
SameWrites key h other = (b : Blob) → Written b key h ↔ Written b key other

Written-Wins : (b : Blob) (key : RecordKey) (h : List Op) → Wins b key h → Written b key h
Written-Wins b key [] w = w
Written-Wins b key (put_op j blob ∷ h) (inl (e, same, low)) = inl (e, same)
Written-Wins b key (put_op j blob ∷ h) (inr (lt, w)) = inr (Written-Wins b key h w)

AtMost-Written :
    (v : ℕ) (b : Blob) (key : RecordKey) (h : List Op)
    → AtMost v key h
    → Written b key h
    → b.version ≤ v
AtMost-Written v b key [] a w = absurd w
AtMost-Written v b key (put_op j blob ∷ h) a (inl (e, same)) = rw same (a.0 e)
AtMost-Written v b key (put_op j blob ∷ h) a (inr w) = AtMost-Written v b key h a.1 w

Unwritten-Written : (b : Blob) (key : RecordKey) (h : List Op) → Unwritten key h → ¬ Written b key h
Unwritten-Written b key [] u w = w
Unwritten-Written b key (put_op j blob ∷ h) u (inl (e, same)) = u.0 e
Unwritten-Written b key (put_op j blob ∷ h) u (inr w) = Unwritten-Written b key h u.1 w

agree :
    (o p : Option Blob) (key : RecordKey) (h other : List Op)
    → ConflictFree key h
    → SameWrites key h other
    → Reads o key h
    → Reads p key other
    → o ≡ p
agree none none key h other free same r s = refl
agree none (some c) key h other free same r s =
    absurd (Unwritten-Written c key h r ((same c).1 (Written-Wins c key other s.0)))
agree (some b) none key h other free same r s =
    absurd (Unwritten-Written b key other s ((same b).0 (Written-Wins b key h r.0)))
agree (some b) (some c) key h other free same r s =
    let wb = Written-Wins b key h r.0 in
    let wc = Written-Wins c key other s.0 in
    let up = AtMost-Written c.version b key other s.1 ((same b).0 wb) in
    let down = AtMost-Written b.version c key h r.1 ((same c).1 wc) in
    ap some (free b c wb ((same c).1 wc) (omega (arith, up, down)))

-- Two stores that got the same writes at a key read the same there, whatever the order in which the
-- writes came, how often each was repeated and what was written elsewhere, provided that no two
-- different blobs were written there under one version.
pub after-SameWrites :
    (h other : List Op) (key : RecordKey)
    → ConflictFree key h
    → SameWrites key h other
    → get (after h) key ≡ get (after other) key
after-SameWrites h other key free same =
    agree (get (after h) key) (get (after other) key) key h other free same (after-Reads h key)
      (after-Reads other key)
