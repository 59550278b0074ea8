-- ===== src/Ipc/Concurrent/Tests.antt =====
-- A run in which two calls of `mint` overlap, and the theorem on it.
use b_browser.Prelude.{
  inl, inr, ok, ◌<◌, ◌≡◌, refl, true, false, List, [], ◌∷◌, arith, ◌↔◌, Str, chars, text_eq,
}
use b_browser.Prelude.Eq.{contains, nat_eq}
use b_browser.Prelude.Assoc.{lookup, insert, remove}
use b_browser.Ipc.{
  Authority, network_fetch, storage_read, Authority-discrete, authority_eq, Capability, new, verify,
  grants, attenuate,
}
use b_browser.Ipc.Attenuation.{here, next}
use b_browser.Ipc.Interleaving.{
  Request, HaveDistinctIds, World, start, fetch_id, register, begin_mint, end_mint, revoke_held,
  Held, begins, ends, revokes, Reach, started, acted,
}
use b_browser.Ipc.Concurrent.{verify-Reach}

abbrev site : Str
site = chars "https://a.example"

abbrev other : Str
other = chars "https://b.example"

abbrev both : List Authority
both = network_fetch ∷ storage_read ∷ []

abbrev cap : Capability
cap = record { id = 1; origin = site; authorities = both; expires_at = 160 }

abbrev weaker : Capability
weaker = record cap { authorities = storage_read ∷ []; expires_at = 120 }

-- Two calls of `mint` overlap, the second one registers first, and its capability is revoked.
abbrev first_request : Request
first_request = record { origin = site; authorities = both; ttl_secs = 60 }

abbrev second_request : Request
second_request = record { origin = other; authorities = both; ttl_secs = 60 }

abbrev overlapping : World
overlapping =
    end_mint
      (end_mint (begin_mint (begin_mint start first_request) second_request) 2 100 second_request) 1
      100 first_request

abbrev revoked_cap : Capability
revoked_cap = record { id = 2; origin = other; authorities = both; expires_at = 160 }

overlapping-Reach : Reach overlapping
overlapping-Reach =
    acted
      (acted (acted (acted started (begins first_request)) (begins second_request))
        (ends 2 100 second_request (unfold begin_mint start fetch_id new lookup insert in refl)))
      (ends 1 100 first_request
        (unfold begin_mint end_mint register start fetch_id new lookup insert remove in refl))

overlapping-revoked : Held overlapping revoked_cap
unfolding begin_mint end_mint start fetch_id new register
overlapping-revoked = record { root = revoked_cap; returned = inr (inl refl); derived = here }

weaker-Held : Held (revoke_held overlapping revoked_cap) weaker
unfolding begin_mint end_mint start fetch_id new register revoke_held attenuate Authority-discrete
weaker-Held = record {
  root = cap;
  returned = inl refl;
  derived = next (storage_read ∷ []) 120 here refl;
}

verify-Reach_example :
    ((verify (revoke_held overlapping revoked_cap).broker 110 weaker site storage_read ≡ ok tt) ↔ (
      (contains (revoke_held overlapping revoked_cap).revoked 1 ≡ false)
      × (110 < 120)
      × (site ≡ site)
      × (grants weaker storage_read ≡ true)))
    × HaveDistinctIds (revoke_held overlapping revoked_cap).minted
verify-Reach_example =
    verify-Reach (revoke_held overlapping revoked_cap) weaker 110 site storage_read
      (acted overlapping-Reach (revokes revoked_cap overlapping-revoked))
      (unfold begin_mint end_mint start revoke_held in omega arith) weaker-Held
