-- ===== src/Sync/Server/Versions.antt =====
-- What a history of writes leaves at a key.
use mathlib.Core.Path.{subst}
use b_browser.Prelude.{
  refl, sym, ltb, Bool-cases, List, Option, Option-cases, [], arith, err, false, if◌then◌else◌, inl,
  inr, none, ok, some, ℕ, ◌<◌, ◌∷◌, ◌≡◌, ◌≢◌, ◌≤◌, ◌⊎◌,
}
use b_browser.Prelude.Eq.{◌==◌}
use b_browser.Prelude.Assoc.{lookup, lookup-insert}
use b_browser.Sync.Server.{Blob, RecordKey, key_eq, SyncStore, new, put, get, stale, is_stale}

module _ (s : SyncStore) (key : RecordKey) (blob : Blob) where
  -- A write older than the stored version is refused and changes nothing; any other write is
  -- stored at its key, and no other key changes.
  pub put_lem :
      ((old : Blob)
        → get s key ≡ some old
        → blob.version < old.version
        → put s key blob ≡ (err stale, s))
      × (((old : Blob) → get s key ≡ some old → old.version ≤ blob.version)
          → ((put s key blob).0 ≡ ok tt)
            × ((j : RecordKey)
                → get (put s key blob).1 j ≡ (if key == j then some blob else get s j)))
  unfolding put get
  put_lem = (
    λ old e lt. ground arith,
    λ h. elim (Option-cases (lookup key s.records)) [
      | inl e ↦ (rw e, λ j. rw e (lookup-insert key j blob s.records))
      | inr (old, e) ↦
          let fresh : is_stale (lookup key s.records) blob ≡ false =
            rw e (ground (arith, h old e)) in
          (rw fresh, λ j. rw fresh (lookup-insert key j blob s.records))
    ],
  )

pub data Op : Type 0 where
  put_op : RecordKey → Blob → Op

-- The store after a history of writes, the latest first; a refused write is dropped.
unfoldable pub after : List Op → SyncStore
after [] = new
after (put_op key blob ∷ h) = (put (after h) key blob).1

-- No write of the history at the key has a version above `v`.
abbrev pub AtMost : ℕ → RecordKey → List Op → Type 0
AtMost v key [] = Unit
AtMost v key (put_op j blob ∷ h) = (j ≡ key → blob.version ≤ v) × AtMost v key h

-- `b` is the latest write at the key among those of the greatest version.
abbrev pub Wins : Blob → RecordKey → List Op → Type 0
Wins b key [] = ⊥
Wins b key (put_op j blob ∷ h) =
    ((j ≡ key) × (b ≡ blob) × AtMost b.version key h)
    ⊎ ((j ≡ key → blob.version < b.version) × Wins b key h)

-- The key was never written.
abbrev pub Unwritten : RecordKey → List Op → Type 0
Unwritten key [] = Unit
Unwritten key (put_op j blob ∷ h) = (j ≢ key) × Unwritten key h

-- What the history says of the stored value.
abbrev pub Reads : Option Blob → RecordKey → List Op → Type 0
Reads none key h = Unwritten key h
Reads (some b) key h = Wins b key h × AtMost b.version key h

AtMost-weaken : (v w : ℕ) (key : RecordKey) (h : List Op) → v ≤ w → AtMost v key h → AtMost w key h
AtMost-weaken v w key [] le a = tt
AtMost-weaken v w key (put_op j blob ∷ h) le a =
    (λ e. omega (arith, a.0 e), AtMost-weaken v w key h le a.1)

AtMost-Unwritten : (v : ℕ) (key : RecordKey) (h : List Op) → Unwritten key h → AtMost v key h
AtMost-Unwritten v key [] u = tt
AtMost-Unwritten v key (put_op j blob ∷ h) u = (λ e. absurd (u.0 e), AtMost-Unwritten v key h u.1)

Reads-other :
    (o : Option Blob) (key j : RecordKey) (blob : Blob) (h : List Op)
    → j ≢ key
    → Reads o key h
    → Reads o key (put_op j blob ∷ h)
Reads-other none key j blob h ne r = (ne, r)
Reads-other (some b) key j blob h ne r = (inr (λ e. absurd (ne e), r.0), (λ e. absurd (ne e), r.1))

Reads-write :
    (o : Option Blob) (key : RecordKey) (blob : Blob) (h : List Op)
    → Reads o key h
    → Reads (if is_stale o blob then o else some blob) key (put_op key blob ∷ h)
Reads-write none key blob h u =
    let low = AtMost-Unwritten blob.version key h u in
    (inl (refl, refl, low), (λ _. omega arith, low))
Reads-write (some b) key blob h (w, a) = elim (Bool-cases (ltb blob.version b.version)) [
  | inl e ↦ rw e (inr (λ _. ground arith, w), (λ _. ground arith, a))
  | inr e ↦
      let le : b.version ≤ blob.version = ground arith in
      let low = AtMost-weaken b.version blob.version key h le a in
      rw e (inl (refl, refl, low), (λ _. omega arith, low))
]

pub get-put :
    (s : SyncStore) (key j : RecordKey) (blob : Blob)
    → get (put s j blob).1 key ≡ (
        if j == key
        then (if is_stale (get s key) blob then get s key else some blob)
        else get s key)
unfolding get put
get-put s key j blob = ground (arith, lookup-insert j key blob s.records, key_eq.same_iff j key)

-- Last writer wins: after any history of writes, a key that was never written reads as nothing,
-- and any other reads as the latest of the writes of the greatest version that the history has
-- for it.
pub after-Reads : (h : List Op) (key : RecordKey) → Reads (get (after h) key) key h
unfolding after
after-Reads [] key = unfold get new lookup in tt
after-Reads (put_op j blob ∷ h) key = elim (Bool-cases (j == key)) [
  | inl e ↦
      rw (get-put, e)
        (subst
          (λ k.
            Reads (if is_stale (get (after h) key) blob then get (after h) key else some blob) key
              (put_op k blob ∷ h))
          (sym ((key_eq.same_iff j key).0 e))
          (Reads-write (get (after h) key) key blob h (after-Reads h key)))
  | inr e ↦
      rw (get-put, e)
        (Reads-other (get (after h) key) key j blob h (λ p. ground (arith, key_eq.same_iff j key))
          (after-Reads h key))
]
