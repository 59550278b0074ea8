-- ===== src/Ipc/Tests.antt =====
-- The unit tests of engine/ipc/src/lib.rs, and the theorems at concrete inputs.
use b_browser.Prelude.{
  err, ok, ℕ, ◌≤◌, ◌<◌, ◌≡◌, ◌≢◌, refl, true, false, some, List, [], ◌∷◌, arith, ◌↔◌, Str, chars,
  text_eq,
}
use b_browser.Prelude.Eq.{contains, nat_eq}
use b_browser.Prelude.Assoc.{lookup, insert}
use b_browser.Ipc.{
  Authority, network_fetch, storage_read, storage_write, Authority-discrete, authority_eq,
  Capability, expired, unauthorized, origin_mismatch, forged, amplification, new, mint, verify,
  revoke, is_expired, grants, attenuate,
}
use b_browser.Ipc.Attenuation.{
  Subset, Attenuates, here, next, Narrows, attenuate_iff, Attenuates-Narrows,
}
use b_browser.Ipc.Verify.{
  Admits, verify_iff, verify_errors, verify-Attenuates, verify-mint, mint_overflow, verify-revoke,
}
use b_browser.Ipc.Registry.{
  Op, mint_op, apply, after, Live, IsFresh, verify-Live, after-IsFresh, verify-after_revoke,
}

abbrev site : Str
site = chars "https://a.example"

abbrev other : Str
other = chars "https://b.example"

abbrev both : List Authority
both = network_fetch ∷ storage_read ∷ []

-- Minted at second 100 for 60 seconds.
abbrev history : List Op
history = mint_op 100 site both 60 ∷ []

abbrev cap : Capability
cap = record { id = 1; origin = site; authorities = both; expires_at = 160 }

abbrev weaker : Capability
weaker = record cap { authorities = storage_read ∷ []; expires_at = 120 }

minted : (mint new 100 site both 60).0 ≡ cap
unfolding mint new
minted = refl

accepted : verify (after new history) 150 cap site network_fetch ≡ ok tt
unfolding after apply mint new verify lookup insert Authority-discrete
accepted = refl

late : verify (after new history) 160 cap site network_fetch ≡ err expired
unfolding after apply mint new verify lookup insert Authority-discrete
late = refl

wrong_origin : verify (after new history) 150 cap other network_fetch ≡ err origin_mismatch
unfolding after apply mint new verify lookup insert Authority-discrete
wrong_origin = refl

not_granted : verify (after new history) 150 cap site storage_write ≡ err unauthorized
unfolding after apply mint new verify lookup insert Authority-discrete
not_granted = refl

unknown : verify new 150 cap site network_fetch ≡ err forged
unfolding new verify lookup
unknown = refl

weakened : attenuate cap (storage_read ∷ []) 120 ≡ ok weaker
unfolding attenuate Authority-discrete
weakened = refl

not_held : attenuate cap (storage_write ∷ []) 120 ≡ err amplification
unfolding attenuate Authority-discrete
not_held = refl

too_long : attenuate cap [] 161 ≡ err amplification
unfolding attenuate
too_long = refl

chain : Attenuates cap weaker
chain = next (storage_read ∷ []) 120 here weakened

weaker_accepted : verify (after new history) 110 weaker site storage_read ≡ ok tt
unfolding after apply mint new verify lookup insert Authority-discrete
weaker_accepted = refl

registered : lookup 1 (after new history).issued ≡ some site
unfolding after apply mint new lookup insert
registered = refl

initial-IsFresh : IsFresh new
unfolding new lookup
initial-IsFresh = record { below = λ id o e. absurd (cc) }

attenuate_iff_run :
    (attenuate cap (storage_read ∷ []) 120 ≡ ok weaker)
    ↔ ((120 ≤ 160) × Subset both (storage_read ∷ []) × (weaker ≡ weaker))
attenuate_iff_run = attenuate_iff cap weaker (storage_read ∷ []) 120

Attenuates-Narrows_run : Narrows cap weaker
Attenuates-Narrows_run = Attenuates-Narrows chain

verify_iff_run :
    (verify (after new history) 150 cap site network_fetch ≡ ok tt)
    ↔ Admits (after new history) 150 cap site network_fetch
verify_iff_run = verify_iff (after new history) 150 cap site network_fetch

verify_errors_run :
    ((lookup 1 (after new history).issued ≢ some site)
      → verify (after new history) 160 cap site network_fetch ≡ err forged)
    × ((lookup 1 (after new history).issued ≡ some site)
        → ((160 ≤ 160 → verify (after new history) 160 cap site network_fetch ≡ err expired)
            × (160 < 160
                → ((site ≢ site
                      → verify (after new history) 160 cap site network_fetch ≡ err origin_mismatch)
                    × (site ≡ site
                        → grants cap network_fetch ≡ false
                        → verify (after new history) 160 cap site network_fetch
                          ≡ err unauthorized)))))
verify_errors_run = verify_errors (after new history) 160 cap site network_fetch

verify-Attenuates_example : verify (after new history) 110 cap site storage_read ≡ ok tt
verify-Attenuates_example =
    verify-Attenuates (after new history) 110 site storage_read chain weaker_accepted

verify-mint_run :
    (verify (mint new 100 site both 60).1 150 (mint new 100 site both 60).0 site storage_read
      ≡ ok tt)
    ↔ ((150 < 160) × (site ≡ site) × (contains both storage_read ≡ true))
verify-mint_run = verify-mint new 100 60 site both 150 site storage_read (omega arith)

mint_overflow_example : is_expired 100 (mint new 100 site both 18446744073709551615).0 ≡ true
mint_overflow_example =
    mint_overflow new 100 18446744073709551615 site both (omega arith) (omega arith) (omega arith)

verify-revoke_run :
    (verify (revoke (after new history) cap) 110 weaker site storage_read ≡ err forged)
    × ((id : ℕ)
        → id ≢ 1
        → lookup id (revoke (after new history) cap).issued ≡ lookup id (after new history).issued)
verify-revoke_run = verify-revoke (after new history) 110 site storage_read chain

verify-Live_example : Live 1 site history
verify-Live_example = verify-Live history 150 cap site network_fetch accepted

next_is_two : (after new history).next_id ≡ 2
unfolding after apply mint new
next_is_two = refl

new_starts : new.next_id ≡ 1
unfolding new
new_starts = refl

after-IsFresh_run : IsFresh (after new history)
after-IsFresh_run = after-IsFresh new history initial-IsFresh (omega (arith, new_starts))

verify-after_revoke_run :
    verify
      (after (revoke (after new history) cap) (mint_op 170 site both 60 ∷ []))
      180
      cap
      site
      network_fetch
    ≡ err forged
verify-after_revoke_run =
    verify-after_revoke (after new history) cap cap (mint_op 170 site both 60 ∷ []) 180 site
      network_fetch (omega (arith, next_is_two)) (omega (arith, next_is_two)) refl
