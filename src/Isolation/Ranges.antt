-- ===== src/Isolation/Ranges.antt =====
-- Which ids a map gives out.
use b_browser.Prelude.{
  All, List, Str, [], arith, length, none, some, text_eq, ℕ, ◌+◌, ◌<◌, ◌∷◌, ◌≡◌, ◌≢◌, ◌≤◌,
}
use b_browser.Prelude.Assoc.{lookup}
use b_browser.Isolation.Allocation.{
  Pids, u32_mod, allocate, process_of, process_of-cases, next-process_of, lookup-process_of,
  lookup-own, pids_after, pids_after-IsIsolated, empty_map,
}

-- No key stands twice in the list.
abbrev pub Distinct : List Str → Type 0
Distinct [] = Unit
Distinct (k ∷ ks) = All (λ j. j ≢ k) ks × Distinct ks

module _ (start : Pids) (fresh : start.by_key ≡ []) where
  pids_after-next :
      (keys : List Str)
      → length keys + start.next_pid < u32_mod
      → start.next_pid ≤ (pids_after start keys).next_pid
  unfolding pids_after
  pids_after-next [] h = omega arith
  pids_after-next (key ∷ earlier) h =
      let ih = pids_after-next earlier (omega arith) in
      let most = (pids_after-IsIsolated start fresh earlier (omega arith)).1 in
      omega (arith, ih, (next-process_of (pids_after start earlier) key (omega (arith, most))).0)

  pids_after-above :
      (keys : List Str) (k : Str) (pid : ℕ)
      → length keys + start.next_pid < u32_mod
      → lookup k (pids_after start keys).by_key ≡ some pid
      → start.next_pid < pid
  unfolding pids_after
  pids_after-above [] k pid h e = absurd (ground (arith, empty_map start fresh k))
  pids_after-above (key ∷ earlier) k pid h e =
      let most = (pids_after-IsIsolated start fresh earlier (omega arith)).1 in
      ground (
        arith,
        lookup-process_of (pids_after start earlier) key k,
        process_of-cases (pids_after start earlier) key (omega (arith, most)),
        pids_after-next earlier (omega arith),
        pids_after-above earlier k pid (omega arith),
        pids_after-above earlier key pid (omega arith),
      )

  -- An id is greater than the first number, by no more than there were requests.
  pub process_of-range :
      (keys : List Str) (key : Str)
      → length keys + 1 + start.next_pid < u32_mod
      → (start.next_pid < (process_of (pids_after start keys) key).0)
        × ((process_of (pids_after start keys) key).0 ≤ length keys + 1 + start.next_pid)
  process_of-range keys key h =
      let m = pids_after start (key ∷ keys) in
      let pid = (process_of (pids_after start keys) key).0 in
      let own : lookup key m.by_key ≡ some pid =
        unfold pids_after in lookup-own (pids_after start keys) key in
      let iso = pids_after-IsIsolated start fresh (key ∷ keys) (omega arith) in
      (
        pids_after-above (key ∷ keys) key pid (omega arith) own,
        omega (arith, iso.0.bounded key pid own, iso.1),
      )

  lookup-absent :
      (keys : List Str) (key : Str)
      → All (λ j. j ≢ key) keys
      → lookup key (pids_after start keys).by_key ≡ none
  unfolding pids_after
  lookup-absent [] key h = empty_map start fresh key
  lookup-absent (k ∷ keys) key h = ground (
    arith,
    lookup-process_of (pids_after start keys) k key,
    text_eq.same_iff k key,
    h.0,
    lookup-absent keys key h.1,
  )

  new_key :
      (m : Pids) (key : Str)
      → lookup key m.by_key ≡ none
      → m.next_pid + 1 < u32_mod
      → ((process_of m key).0 ≡ m.next_pid + 1) × ((process_of m key).1.next_pid ≡ m.next_pid + 1)
  unfolding process_of allocate
  new_key m key e h = ground arith

  pids_after-count :
      (keys : List Str)
      → Distinct keys
      → length keys + start.next_pid < u32_mod
      → (pids_after start keys).next_pid ≡ length keys + start.next_pid
  unfolding pids_after
  pids_after-count [] d h = omega arith
  pids_after-count (key ∷ earlier) d h =
      let ih = pids_after-count earlier d.1 (omega arith) in
      omega (
        arith,
        ih,
        (new_key (pids_after start earlier) key (lookup-absent earlier key d.0)
            (omega (arith, ih))).1,
      )

  -- A key after `n` others, all different, gets the id `n + 1` above the first number.
  pub process_of-Distinct :
      (keys : List Str) (key : Str)
      → Distinct (key ∷ keys)
      → length keys + 1 + start.next_pid < u32_mod
      → (process_of (pids_after start keys) key).0 ≡ length keys + 1 + start.next_pid
  process_of-Distinct keys key d h =
      let count = pids_after-count keys d.1 (omega arith) in
      omega (
        arith,
        count,
        (new_key (pids_after start keys) key (lookup-absent keys key d.0) (omega (arith, count))).0,
      )
