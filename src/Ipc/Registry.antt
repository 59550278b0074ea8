-- ===== src/Ipc/Registry.antt =====
-- The registry over any history of mints and revocations.
use b_browser.Prelude.{
  err, ok, ℕ, ◌+◌, ◌≤◌, ◌<◌, ◌≡◌, ◌≢◌, some, none, List, [], ◌∷◌, arith, ◌⊎◌, Str, length,
}
use b_browser.Prelude.Eq.{nat_eq}
use b_browser.Prelude.Assoc.{lookup, lookup-insert, lookup-remove}
use b_browser.Ipc.{Authority, Capability, Broker, forged, new, mint, verify, revoke, u64_mod}
use b_browser.Ipc.Verify.{verify_iff, verify_errors}

pub data Op : Type 0 where
  mint_op : ℕ → Str → List Authority → ℕ → Op
  revoke_op : Capability → Op

unfoldable pub apply : Op → Broker → Broker
apply (mint_op now origin asked ttl) b = (mint b now origin asked ttl).1
apply (revoke_op cap) b = revoke b cap

-- The broker after a history, the latest operation first.
unfoldable pub after : Broker → List Op → Broker
after b [] = b
after b (op ∷ h) = apply op (after b h)

-- Some mint of the history issued `id` for `origin`, and no later operation revoked `id`.
abbrev pub Live : ℕ → Str → List Op → Type 0
Live id origin [] = ⊥
Live id origin (mint_op now o asked ttl ∷ h) =
    ((id ≡ (after new h).next_id) × (origin ≡ o)) ⊎ Live id origin h
Live id origin (revoke_op cap ∷ h) = (cap.id ≢ id) × Live id origin h

lookup-Live :
    (h : List Op) (id : ℕ) (origin : Str)
    → lookup id (after new h).issued ≡ some origin
    → Live id origin h
unfolding after apply new mint revoke
lookup-Live [] id origin e = unfold lookup in cc
lookup-Live (mint_op now o asked ttl ∷ h) id origin e = ground (
  arith,
  lookup-insert (after new h).next_id id o (after new h).issued,
  nat_eq.same_iff (after new h).next_id id,
  lookup-Live h id origin,
)
lookup-Live (revoke_op cap ∷ h) id origin e = ground (
  arith,
  lookup-remove cap.id id (after new h).issued,
  nat_eq.same_iff cap.id id,
  lookup-Live h id origin,
)

-- Unforgeability: after any history of mints and revocations from a new broker, a capability that
-- verifies bears an id and an origin that one of the mints gave out together and that no later
-- operation revoked.
pub verify-Live :
    (h : List Op) (now : ℕ) (cap : Capability) (expected : Str) (a : Authority)
    → verify (after new h) now cap expected a ≡ ok tt
    → Live cap.id cap.origin h
verify-Live h now cap expected a e =
    lookup-Live h cap.id cap.origin ((verify_iff (after new h) now cap expected a).0 e).registered

-- Every registered id lies below the counter.
pub record IsFresh (b : Broker) : Type 0 where
  pub below : (id : ℕ) (o : Str) → lookup id b.issued ≡ some o → id < b.next_id

new-IsFresh : IsFresh new
unfolding new lookup
new-IsFresh = record { below = λ id o e. cc }

-- An operation does not lower the counter, unless it wraps, and raises it by one at most.
next_id-apply :
    (op : Op) (b : Broker)
    → b.next_id + 1 < u64_mod
    → (b.next_id ≤ (apply op b).next_id) × ((apply op b).next_id ≤ b.next_id + 1)
unfolding apply mint revoke
next_id-apply (mint_op now o asked ttl) b fits = omega arith
next_id-apply (revoke_op cap) b fits = omega arith

apply-IsFresh : (op : Op) (b : Broker) → b.next_id + 1 < u64_mod → IsFresh b → IsFresh (apply op b)
unfolding apply mint revoke
apply-IsFresh (mint_op now o asked ttl) b fits f = record {
  below = λ id origin e. ground (
    arith,
    lookup-insert b.next_id id o b.issued,
    nat_eq.same_iff b.next_id id,
    f.below id origin,
  );
}
apply-IsFresh (revoke_op cap) b fits f = record {
  below = λ id origin e.
      ground
        (arith, lookup-remove cap.id id b.issued, nat_eq.same_iff cap.id id, f.below id origin);
}

next_id-after :
    (b : Broker) (h : List Op)
    → b.next_id + length h < u64_mod
    → (b.next_id ≤ (after b h).next_id) × ((after b h).next_id ≤ b.next_id + length h)
unfolding after
next_id-after b [] fits = omega arith
next_id-after b (op ∷ h) fits =
    ground (arith, next_id-after b h (omega arith), next_id-apply op (after b h))

-- While the 64-bit counter has not run out, every registered id lies below it after any further
-- operations, so the id of the next mint is one that no registration holds.
pub after-IsFresh :
    (b : Broker) (h : List Op) → IsFresh b → b.next_id + length h < u64_mod → IsFresh (after b h)
unfolding after
after-IsFresh b [] f fits = f
after-IsFresh b (op ∷ h) f fits =
    apply-IsFresh op (after b h) (ground (arith, next_id-after b h (omega arith)))
      (after-IsFresh b h f (omega arith))

-- An id that is not registered and lies below the counter stays unregistered.
absent-after :
    (b : Broker) (h : List Op) (id : ℕ)
    → id < b.next_id
    → b.next_id + length h < u64_mod
    → lookup id b.issued ≡ none
    → lookup id (after b h).issued ≡ none
unfolding after apply mint revoke
absent-after b [] id low fits e = e
absent-after b (mint_op now o asked ttl ∷ h) id low fits e = ground (
  arith,
  next_id-after b h (omega arith),
  lookup-insert (after b h).next_id id o (after b h).issued,
  nat_eq.same_iff (after b h).next_id id,
  absent-after b h id low (omega arith) e,
)
absent-after b (revoke_op cap ∷ h) id low fits e =
    ground
      (arith, lookup-remove cap.id id (after b h).issued, absent-after b h id low (omega arith) e)

-- Revocation is for good: once a capability with an id below the counter is revoked, whatever is
-- minted and revoked afterwards, while the counter does not run out, no capability with that id
-- verifies again.
pub verify-after_revoke :
    (b : Broker) (cap d : Capability) (h : List Op) (now : ℕ) (expected : Str) (a : Authority)
    → cap.id < b.next_id
    → b.next_id + length h < u64_mod
    → d.id ≡ cap.id
    → verify (after (revoke b cap) h) now d expected a ≡ err forged
unfolding revoke
verify-after_revoke b cap d h now expected a low fits same =
    let gone =
      absent-after (revoke b cap) h cap.id low fits
        (ground (arith, lookup-remove cap.id cap.id b.issued, nat_eq.same_iff cap.id cap.id)) in
    (verify_errors (after (revoke b cap) h) now d expected a).0 (λ p. cc)
