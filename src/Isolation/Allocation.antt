-- ===== src/Isolation/Allocation.antt =====
-- A map from keys to process ids, and the next id: what both isolation maps do with a key.
use b_browser.Prelude.Eq.{same_refl, ◌==◌}
use b_browser.Prelude.{
  refl, ap, ◌∙◌, ◌↔◌, length, ◌++◌, ◌∷◌, [], List, Option, Option-cases, Str, arith, if◌then◌else◌,
  inl, inr, none, some, text_eq, ℕ, ◌%◌, ◌+◌, ◌<◌, ◌^◌, ◌≡◌, ◌≤◌, ◌⊎◌,
}
use b_browser.Prelude.Assoc.{Assoc, lookup, insert, lookup-insert}

abbrev pub u32_mod : ℕ
u32_mod = 2 ^ 32

pub record Pids : Type 0 where
  pub by_key : Assoc Str ℕ
  pub next_pid : ℕ

-- A new id: `next_pid += 1` wraps in the release profile.
unfoldable pub allocate : Pids → Str → ℕ × Pids
allocate m key =
    let pid = (m.next_pid + 1) % u32_mod in
    (pid, record { by_key = insert key pid m.by_key; next_pid = pid })

abbrev pub known_or_new : Pids → Str → Option ℕ → ℕ × Pids
known_or_new m key none = allocate m key
known_or_new m key (some pid) = (pid, m)

unfoldable pub process_of : Pids → Str → ℕ × Pids
unfolding allocate
process_of m key = known_or_new m key (lookup key m.by_key)

-- Ids are at most the last one given, and different keys have different ids.
pub record IsIsolated (m : Pids) : Type 0 where
  pub bounded : (k : Str) (pid : ℕ) → lookup k m.by_key ≡ some pid → pid ≤ m.next_pid
  pub distinct :
      (j k : Str) (pid : ℕ) → lookup j m.by_key ≡ some pid → lookup k m.by_key ≡ some pid → j ≡ k

pub allocate-next :
    (m : Pids) (key : Str) → m.next_pid + 1 < u32_mod → (allocate m key).0 ≡ m.next_pid + 1
unfolding allocate
allocate-next m key h = omega arith

-- An id is given to the key, and no other key's id changes.
pub lookup-process_of :
    (m : Pids) (key j : Str)
    → lookup j (process_of m key).1.by_key
      ≡ (if key == j then some (process_of m key).0 else lookup j m.by_key)
unfolding process_of
lookup-process_of m key j = elim (Option-cases (lookup key m.by_key)) [
  | inl e ↦ rw e (unfold allocate in lookup-insert key j ((m.next_pid + 1) % u32_mod) m.by_key)
  | inr (pid, e) ↦ ground (arith, text_eq.same_iff key j)
]

pub next-process_of :
    (m : Pids) (key : Str)
    → m.next_pid + 1 < u32_mod
    → (m.next_pid ≤ (process_of m key).1.next_pid)
      × ((process_of m key).1.next_pid ≤ m.next_pid + 1)
unfolding process_of allocate
next-process_of m key h = elim (Option-cases (lookup key m.by_key)) [
  | inl e ↦ ground arith
  | inr (pid, e) ↦ ground arith
]

-- Either the id is the one the key had, or it is new.
pub process_of-cases :
    (m : Pids) (key : Str)
    → m.next_pid + 1 < u32_mod
    → (lookup key m.by_key ≡ some (process_of m key).0)
      ⊎ (((process_of m key).0 ≡ m.next_pid + 1) × ((process_of m key).1.next_pid ≡ m.next_pid + 1))
unfolding process_of allocate
process_of-cases m key h = elim (Option-cases (lookup key m.by_key)) [
  | inl e ↦ inr (ground arith, ground arith)
  | inr (pid, e) ↦ inl (ground arith)
]

pub process_of-IsIsolated :
    (m : Pids) (key : Str)
    → m.next_pid + 1 < u32_mod
    → IsIsolated m
    → IsIsolated (process_of m key).1
process_of-IsIsolated m key h iso = record {
  bounded = λ k pid e. ground (
    arith,
    lookup-process_of m key k,
    process_of-cases m key h,
    next-process_of m key h,
    iso.bounded key pid,
    iso.bounded k pid,
    text_eq.same_iff key k,
  );
  distinct = λ j k pid e e'. ground (
    arith,
    lookup-process_of m key j,
    lookup-process_of m key k,
    process_of-cases m key h,
    iso.bounded j pid,
    iso.bounded k pid,
    iso.distinct j k pid,
    iso.distinct key j pid,
    iso.distinct key k pid,
    text_eq.same_iff key j,
    text_eq.same_iff key k,
  );
}

-- The map after some requests, the latest first.
unfoldable pub pids_after : Pids → List Str → Pids
pids_after start [] = start
pids_after start (key ∷ earlier) = (process_of (pids_after start earlier) key).1

process_of-known :
    (m : Pids) (key : Str) (pid : ℕ) → lookup key m.by_key ≡ some pid → (process_of m key).0 ≡ pid
unfolding process_of
process_of-known m key pid e = rw e refl

pub lookup-own :
    (m : Pids) (key : Str) → lookup key (process_of m key).1.by_key ≡ some (process_of m key).0
lookup-own m key = ground (arith, lookup-process_of m key key, same_refl key)

lookup-keeps :
    (m : Pids) (key j : Str) (pid : ℕ)
    → lookup j m.by_key ≡ some pid
    → lookup j (process_of m key).1.by_key ≡ some pid
lookup-keeps m key j pid e =
    ground (arith, lookup-process_of m key j, text_eq.same_iff key j, process_of-known m key pid)

lookup-pids_after :
    (start : Pids) (later us : List Str) (key : Str) (pid : ℕ)
    → lookup key (pids_after start us).by_key ≡ some pid
    → lookup key (pids_after start (later ++ us)).by_key ≡ some pid
unfolding pids_after
lookup-pids_after start [] us key pid e = e
lookup-pids_after start (k ∷ later) us key pid e =
    lookup-keeps (pids_after start (later ++ us)) k key pid
      (lookup-pids_after start later us key pid e)

module _ (start : Pids) (fresh : start.by_key ≡ []) where
  pub empty_map : (k : Str) → lookup k start.by_key ≡ none
  unfolding lookup
  empty_map k = rw fresh refl

  pub pids_after-IsIsolated :
      (keys : List Str)
      → length keys + start.next_pid < u32_mod
      → IsIsolated (pids_after start keys)
        × ((pids_after start keys).next_pid ≤ length keys + start.next_pid)
  unfolding pids_after
  pids_after-IsIsolated [] h = (
    record {
      bounded = λ k pid e. absurd (ground (arith, empty_map k));
      distinct = λ j k pid e e'. absurd (ground (arith, empty_map k));
    },
    omega arith,
  )
  pids_after-IsIsolated (key ∷ earlier) h =
      let ih = pids_after-IsIsolated earlier (omega arith) in
      let room : (pids_after start earlier).next_pid + 1 < u32_mod = omega (arith, ih.1) in
      (
        process_of-IsIsolated (pids_after start earlier) key room ih.0,
        omega (arith, ih.1, (next-process_of (pids_after start earlier) key room).1),
      )

  -- While there are ids left, two requests get one id exactly when their keys are the same,
  -- whatever was requested before and between them.
  pub process_of-same :
      (later us : List Str) (key j : Str)
      → length (later ++ key ∷ us) + 1 + start.next_pid < u32_mod
      → ((process_of (pids_after start (later ++ key ∷ us)) j).0
          ≡ (process_of (pids_after start us) key).0)
        ↔ (j ≡ key)
  process_of-same later us key j h =
      let pid = (process_of (pids_after start us) key).0 in
      let now = pids_after start (later ++ key ∷ us) in
      let before = pids_after-IsIsolated (later ++ key ∷ us) (omega arith) in
      let room : now.next_pid + 1 < u32_mod = omega (arith, before.1) in
      let after = process_of-IsIsolated now j room before.0 in
      let known : lookup key now.by_key ≡ some pid =
        lookup-pids_after start later (key ∷ us) key pid
          (unfold pids_after in lookup-own (pids_after start us) key) in
      (
        λ e.
            after.distinct j key pid (lookup-own now j ∙ ap some e)
              (lookup-keeps now j key pid known),
        λ e. rw e (process_of-known now key pid known),
      )
