-- ===== src/Ipc/Concurrent.antt =====
-- The broker under any interleaving of the actions of its threads.
mod Tests
use b_browser.Ipc.Consistency.{Reach-IsConsistent}
use b_browser.Prelude.{
  refl, sym, ap, ◌∙◌, ◌≢◌, Bool-cases, ◌≤◌, ◌%◌, ℕ, ◌+◌, ◌<◌, ◌≡◌, ◌↔◌, ok, some, none, true, false,
  Option, List, ◌∷◌, Str, arith, if◌then◌else◌, inl, inr,
}
use b_browser.Prelude.Eq.{◌==◌, contains, nat_eq}
use b_browser.Prelude.Assoc.{insert, remove, lookup, lookup-insert, lookup-remove}
use b_browser.Ipc.{Authority, Capability, new, revoke, verify, grants, u64_mod}
use b_browser.Ipc.Attenuation.{Attenuates-Narrows}
use b_browser.Ipc.Verify.{verify_iff}
use b_browser.Ipc.Interleaving.{
  Request, World, start, fetch_id, register, begin_mint, end_mint, revoke_held, Returned,
  HaveDistinctIds, Held, Step, begins, ends, revokes, Reach, started, acted,
}

-- However the threads alternate between getting an id, registering it and revoking capabilities,
-- while fewer than 2^64 - 1 calls of `mint` began: a capability that a process can hold verifies
-- exactly when its id was not revoked, its expiry lies ahead, its origin is the expected one and it
-- grants the authority, and no two calls have returned capabilities with one id.
pub verify-Reach :
    (w : World) (d : Capability) (now : ℕ) (expected : Str) (a : Authority)
    → Reach w
    → w.calls + 1 < u64_mod
    → Held w d
    → ((verify w.broker now d expected a ≡ ok tt) ↔ (
        (contains w.revoked d.id ≡ false)
        × (now < d.expires_at)
        × (d.origin ≡ expected)
        × (grants d a ≡ true)))
      × HaveDistinctIds w.minted
verify-Reach w d now expected a reach fits h =
    let n = Attenuates-Narrows h.derived in
    let i = Reach-IsConsistent reach fits in
    let known = i.registered h.root h.returned in
    let gate = verify_iff w.broker now d expected a in
    (
      (
        λ e.
            let p = gate.0 e in
            (ground (arith, p.registered, known, n.same_id), p.alive, p.bound, p.granted),
        λ (r, t, o, g). gate.1 (record {
          registered = ground (arith, known, n.same_id, n.same_origin, r);
          alive = t;
          bound = o;
          granted = g;
        }),
      ),
      i.distinct,
    )
