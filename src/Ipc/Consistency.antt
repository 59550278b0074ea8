-- ===== src/Ipc/Consistency.antt =====
-- What holds of the registry between any two actions of the broker's threads.
use b_browser.Prelude.{
  All, [], refl, ◌≢◌, Bool-cases, ◌≤◌, ◌%◌, ℕ, ◌+◌, ◌<◌, ◌≡◌, some, none, true, false, Option, List,
  ◌∷◌, Str, arith, if◌then◌else◌, inl, inr,
}
use b_browser.Prelude.Eq.{◌==◌, contains, nat_eq}
use b_browser.Prelude.Assoc.{insert, remove, lookup, lookup-insert, lookup-remove}
use b_browser.Ipc.{Capability, new, revoke, u64_mod}
use b_browser.Ipc.Attenuation.{Attenuates-Narrows}
use b_browser.Ipc.Interleaving.{
  Request, World, start, fetch_id, register, begin_mint, end_mint, revoke_held, Returned,
  HaveDistinctIds, Held, Step, begins, ends, revokes, Reach, started, acted,
}

-- What the registry holds for a capability that a call returned.
abbrev pub entry_of : List ℕ → Capability → Option Str
entry_of revoked c = if contains revoked c.id then none else some c.origin

pub record IsConsistent (w : World) : Type 0 where
  counter : w.broker.next_id ≡ w.calls + 1
  pub registered :
      (c : Capability) → Returned c w.minted → lookup c.id w.broker.issued ≡ entry_of w.revoked c
  low : (c : Capability) → Returned c w.minted → c.id < w.broker.next_id
  done : (c : Capability) → Returned c w.minted → lookup c.id w.pending ≡ none
  waiting :
      (id : ℕ) (r : Request)
      → lookup id w.pending ≡ some r
      → (id < w.broker.next_id) × (contains w.revoked id ≡ false)
  revoked_low : (id : ℕ) → contains w.revoked id ≡ true → id < w.broker.next_id
  pub distinct : HaveDistinctIds w.minted

start-IsConsistent : IsConsistent start
unfolding start new lookup
start-IsConsistent = record {
  counter = refl;
  registered = λ c m. absurd m;
  low = λ c m. absurd m;
  done = λ c m. absurd m;
  waiting = λ id r e. cc;
  revoked_low = λ id e. cc;
  distinct = tt;
}

-- The id of a call that begins is new to the revoked ones.
begun_waiting :
    (w : World) (r : Request)
    → IsConsistent w
    → w.calls + 1 + 1 < u64_mod
    → (id : ℕ) (q : Request) → lookup id (insert w.broker.next_id r w.pending) ≡ some q
    → (id < (w.broker.next_id + 1) % u64_mod) × (contains w.revoked id ≡ false)
begun_waiting w r i fits id q e = elim (Bool-cases (w.broker.next_id == id)) [
  | inl same ↦
      let eq = (nat_eq.same_iff w.broker.next_id id).0 same in
      (omega (arith, eq, fits, i.counter), ground (arith, eq, i.revoked_low id))
  | inr other ↦
      let old = i.waiting id q (ground (arith, lookup-insert w.broker.next_id id r w.pending)) in
      (omega (arith, old.0, fits, i.counter), old.1)
]

begin_mint-IsConsistent :
    (w : World) (r : Request)
    → w.calls + 1 + 1 < u64_mod
    → IsConsistent w
    → IsConsistent (begin_mint w r)
unfolding begin_mint fetch_id
begin_mint-IsConsistent w r fits i = record {
  counter = omega (arith, i.counter);
  registered = λ c m. i.registered c m;
  low = λ c m. omega (arith, i.low c m, i.counter);
  done = λ c m. ground (
    arith,
    lookup-insert w.broker.next_id c.id r w.pending,
    nat_eq.same_iff w.broker.next_id c.id,
    i.done c m,
    i.low c m,
  );
  waiting = λ id q e. begun_waiting w r i fits id q e;
  revoked_low = λ id e. omega (arith, i.revoked_low id e, i.counter);
  distinct = i.distinct;
}

-- What holds of each returned capability holds of them all.
All-Returned {κ} :
    (P : Capability → Type κ) (cs : List Capability)
    → ((c : Capability) → Returned c cs → P c)
    → All P cs
All-Returned P [] h = tt
All-Returned P (c ∷ cs) h = (h c (inl refl), All-Returned P cs (λ d m. h d (inr m)))

module _ (w : World) (id now : ℕ) (r : Request) (e : lookup id w.pending ≡ some r)
    (i : IsConsistent w) where
  ended_registered :
      (c : Capability)
      → Returned c ((register w.broker id now r).0 ∷ w.minted)
      → lookup c.id (insert id r.origin w.broker.issued) ≡ entry_of w.revoked c
  unfolding register
  ended_registered c (inl eq) = ground (
    arith,
    eq,
    lookup-insert id c.id r.origin w.broker.issued,
    nat_eq.same_iff id c.id,
    i.waiting id r e,
  )
  ended_registered c (inr m) = ground (
    arith,
    lookup-insert id c.id r.origin w.broker.issued,
    nat_eq.same_iff id c.id,
    i.registered c m,
    i.done c m,
    e,
  )

  ended_low :
      (c : Capability)
      → Returned c ((register w.broker id now r).0 ∷ w.minted)
      → c.id < w.broker.next_id
  unfolding register
  ended_low c (inl eq) = ground (arith, eq, i.waiting id r e)
  ended_low c (inr m) = i.low c m

  ended_done :
      (c : Capability)
      → Returned c ((register w.broker id now r).0 ∷ w.minted)
      → lookup c.id (remove id w.pending) ≡ none
  unfolding register
  ended_done c (inl eq) =
      ground (arith, eq, lookup-remove id c.id w.pending, nat_eq.same_iff id c.id)
  ended_done c (inr m) = ground (arith, lookup-remove id c.id w.pending, i.done c m)

  -- An id that waits is not one that a call returned.
  not_pending : (c : Capability) → Returned c w.minted → c.id ≢ id
  not_pending c m = λ same. ground (arith, same, i.done c m, e)

  ended_distinct : HaveDistinctIds ((register w.broker id now r).0 ∷ w.minted)
  unfolding register
  ended_distinct = (All-Returned (λ (d : Capability). d.id ≢ id) w.minted not_pending, i.distinct)

end_mint-IsConsistent :
    (w : World) (id now : ℕ) (r : Request)
    → lookup id w.pending ≡ some r
    → IsConsistent w
    → IsConsistent (end_mint w id now r)
unfolding end_mint register
end_mint-IsConsistent w id now r e i = record {
  counter = i.counter;
  registered = λ c m. ended_registered w id now r e i c m;
  low = λ c m. ended_low w id now r e i c m;
  done = λ c m. ended_done w id now r e i c m;
  waiting = λ j q p. i.waiting j q (ground (arith, lookup-remove id j w.pending));
  revoked_low = λ j p. i.revoked_low j p;
  distinct = ended_distinct w id now r e i;
}

Held-low : (w : World) (d : Capability) → Held w d → IsConsistent w → d.id < w.broker.next_id
Held-low w d h i = ground (arith, i.low h.root h.returned, (Attenuates-Narrows h.derived).same_id)

still_waiting :
    (w : World) (d : Capability)
    → Held w d
    → IsConsistent w
    → (id : ℕ) (q : Request) → lookup id w.pending ≡ some q
    → (id < w.broker.next_id) × (contains (d.id ∷ w.revoked) id ≡ false)
still_waiting w d h i id q e = ground (
  arith,
  i.waiting id q e,
  nat_eq.same_iff id d.id,
  i.done h.root h.returned,
  (Attenuates-Narrows h.derived).same_id,
)

revoke_held-IsConsistent :
    (w : World) (d : Capability) → Held w d → IsConsistent w → IsConsistent (revoke_held w d)
unfolding revoke_held revoke
revoke_held-IsConsistent w d h i = record {
  counter = i.counter;
  registered = λ c m. ground (
    arith,
    i.registered c m,
    lookup-remove d.id c.id w.broker.issued,
    nat_eq.same_iff d.id c.id,
    nat_eq.same_iff c.id d.id,
  );
  distinct = i.distinct;
  low = λ c m. i.low c m;
  done = λ c m. i.done c m;
  waiting = λ j q p. still_waiting w d h i j q p;
  revoked_low = λ j p. ground (arith, nat_eq.same_iff j d.id, i.revoked_low j, Held-low w d h i);
}

calls-Step : {w v : World} → Step w v → w.calls ≤ v.calls
unfolding begin_mint end_mint revoke_held
calls-Step (begins r) = omega arith
calls-Step (ends id now r e) = omega arith
calls-Step (revokes d h) = omega arith

Step-IsConsistent :
    {w v : World} → Step w v → v.calls + 1 < u64_mod → IsConsistent w → IsConsistent v
Step-IsConsistent {w} (begins r) fits i = begin_mint-IsConsistent w r (unfold begin_mint in fits) i
Step-IsConsistent {w} (ends id now r e) fits i = end_mint-IsConsistent w id now r e i
Step-IsConsistent {w} (revokes d h) fits i = revoke_held-IsConsistent w d h i

pub Reach-IsConsistent : {w : World} → Reach w → w.calls + 1 < u64_mod → IsConsistent w
Reach-IsConsistent started fits = start-IsConsistent
Reach-IsConsistent (acted r st) fits =
    Step-IsConsistent st fits (Reach-IsConsistent r (omega (arith, fits, calls-Step st)))
