-- ===== src/Ipc/Verify.antt =====
-- `Broker::verify`: what it accepts, its errors, and how it meets `mint` and `attenuate`.
use b_browser.Prelude.{
  err, ok, ℕ, ◌+◌, ◌≤◌, ◌<◌, ◌≡◌, ◌≢◌, true, some, false, List, arith, ◌↔◌, Option, none, Str,
  text_eq,
}
use b_browser.Prelude.Eq.{contains, nat_eq, same_refl}
use b_browser.Prelude.Assoc.{lookup, lookup-insert, lookup-remove}
use b_browser.Ipc.{
  Authority, Capability, Broker, expired, unauthorized, origin_mismatch, forged, mint, verify,
  revoke, is_expired, grants, recognised, u64_mod, authority_eq,
}
use b_browser.Ipc.Attenuation.{Attenuates, Attenuates-Narrows}

recognised_iff : (o : Option Str) (s : Str) → (recognised o s ≡ true) ↔ (o ≡ some s)
recognised_iff none s = ground arith
recognised_iff (some o) s = ground (arith, text_eq.same_iff o s)

-- What a capability needs for `expected` and `a` at time `now`.
pub record Admits (b : Broker) (now : ℕ) (cap : Capability) (expected : Str) (a : Authority)
    : Type 0 where
  pub registered : lookup cap.id b.issued ≡ some cap.origin
  pub alive : now < cap.expires_at
  pub bound : cap.origin ≡ expected
  pub granted : grants cap a ≡ true

module _ (b : Broker) (now : ℕ) (cap : Capability) (expected : Str) (a : Authority) where
  -- `verify` succeeds exactly when the id is registered for the capability's origin, the expiry
  -- lies ahead, the origin is the expected one and the authority is among those granted.
  pub verify_iff : (verify b now cap expected a ≡ ok tt) ↔ Admits b now cap expected a
  unfolding verify
  verify_iff = (
    λ h. ground (
      arith,
      recognised_iff (lookup cap.id b.issued) cap.origin,
      text_eq.same_iff cap.origin expected,
    ),
    λ h. ground (
      arith,
      h.registered,
      h.alive,
      h.bound,
      h.granted,
      recognised_iff (lookup cap.id b.issued) cap.origin,
      text_eq.same_iff cap.origin expected,
    ),
  )

  -- The errors, in the order of the checks: an id that is unregistered or registered for another
  -- origin is `Forged` whatever else is wrong; of a registered capability an expired one is
  -- `Expired`; of a live one, a wrong origin is `OriginMismatch`; of one with the right origin, an
  -- authority that is not granted is `Unauthorized`.
  pub verify_errors :
      ((lookup cap.id b.issued ≢ some cap.origin) → verify b now cap expected a ≡ err forged)
      × ((lookup cap.id b.issued ≡ some cap.origin)
          → ((cap.expires_at ≤ now → verify b now cap expected a ≡ err expired)
              × (now < cap.expires_at
                  → ((cap.origin ≢ expected → verify b now cap expected a ≡ err origin_mismatch)
                      × (cap.origin ≡ expected
                          → grants cap a ≡ false
                          → verify b now cap expected a ≡ err unauthorized)))))
  unfolding verify
  verify_errors = (
    λ h. ground (arith, recognised_iff (lookup cap.id b.issued) cap.origin),
    λ h. (
      λ late. ground (arith, recognised_iff (lookup cap.id b.issued) cap.origin),
      λ live. (
        λ ne. ground (
          arith,
          recognised_iff (lookup cap.id b.issued) cap.origin,
          text_eq.same_iff cap.origin expected,
        ),
        λ same no_grant. ground (
          arith,
          recognised_iff (lookup cap.id b.issued) cap.origin,
          text_eq.same_iff cap.origin expected,
        ),
      ),
    ),
  )

-- No amplification at the gate: what a broker lets an attenuated capability do at some time, it
-- lets the original do at that time.
pub verify-Attenuates :
    {c d : Capability} (b : Broker) (now : ℕ) (expected : Str) (a : Authority)
    → Attenuates c d
    → verify b now d expected a ≡ ok tt
    → verify b now c expected a ≡ ok tt
verify-Attenuates {c} {d} b now expected a r h =
    let n = Attenuates-Narrows r in
    let p = (verify_iff b now d expected a).0 h in
    (verify_iff b now c expected a).1 (record {
      registered = cc (p.registered, n.same_id, n.same_origin);
      alive = omega (arith, p.alive, n.no_later);
      bound = cc (p.bound, n.same_origin);
      granted = n.subset a p.granted;
    })

module _ (b : Broker) (now ttl : ℕ) (origin : Str) (asked : List Authority) where
  -- A fresh capability, while `now + ttl` fits in 64 bits, is accepted for exactly its own origin
  -- and the authorities asked for, until its time has passed.
  pub verify-mint :
      (later : ℕ) (expected : Str) (a : Authority)
      → now + ttl < u64_mod
      → (verify (mint b now origin asked ttl).1 later (mint b now origin asked ttl).0 expected a
          ≡ ok tt)
        ↔ ((later < now + ttl) × (origin ≡ expected) × (contains asked a ≡ true))
  unfolding mint grants
  verify-mint later expected a fits =
      let (cap, b') = mint b now origin asked ttl in
      let e = verify_iff b' later cap expected a in
      (
        λ h. (ground (arith, (e.0 h).alive), (e.0 h).bound, (e.0 h).granted),
        λ h. e.1 (record {
          registered = simp (lookup-insert, same_refl);
          alive = ground arith;
          bound = h.1;
          granted = h.2;
        }),
      )

  -- Where `now + ttl` does not fit, the wrapped expiry lies in the past: with a clock and a
  -- lifetime of 64 bits each, the capability is born expired.
  pub mint_overflow :
      now < u64_mod
      → ttl < u64_mod
      → u64_mod ≤ now + ttl
      → is_expired now (mint b now origin asked ttl).0 ≡ true
  unfolding mint is_expired
  mint_overflow hn ht over = ground arith

-- A revoked id is forged at once, and so is every capability attenuated from the same grant;
-- every other registration is read as before.
pub verify-revoke :
    {c d : Capability} (b : Broker) (now : ℕ) (expected : Str) (a : Authority)
    → Attenuates c d
    → (verify (revoke b c) now d expected a ≡ err forged)
      × ((id : ℕ) → id ≢ c.id → lookup id (revoke b c).issued ≡ lookup id b.issued)
unfolding revoke
verify-revoke {c} {d} b now expected a r =
    let n = Attenuates-Narrows r in
    (
      (verify_errors (revoke b c) now d expected a).0 (λ p.
          ground
            (arith, p, n.same_id, lookup-remove c.id d.id b.issued, nat_eq.same_iff c.id d.id)),
      λ id ne. ground (arith, lookup-remove c.id id b.issued, nat_eq.same_iff c.id id),
    )
