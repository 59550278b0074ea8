-- ===== src/Net/Tests.antt =====
-- The unit tests of engine-net, and the theorems at concrete inputs.
use b_browser.Prelude.Eq.{contains}
use b_browser.Prelude.{
  Str, [], arith, chars, false, none, refl, some, true, ◌↔◌, ◌∷◌, ◌≡◌, ◌≢◌, ◌≤◌, ◌⊎◌,
}
use b_browser.Net.HttpsOnly.{
  https_only, https_first, off, proceed, upgraded, blocked, plaintext_with_warning, decide,
}
use b_browser.Net.Upgrades.{decide-plaintext, decide-never_blocked}
use b_browser.Net.Pqc.{
  KemGroup, x25519, ml_kem768, x25519_ml_kem768, required, KemGroup-discrete, kem_group_eq,
  negotiate,
}
use b_browser.Net.Groups.{Permits, IsBest, negotiate-IsBest}
use b_browser.Net.Transport.{Transport, http3, http2, default_policy, negotiate_transport}
use b_browser.Net.Preference.{usable, version, negotiate_transport_iff}
use b_browser.Net.Tls.{tls12, tls13, accept, refuse_downgrade, check_version, ct_required}
use b_browser.Net.Tracking
use b_browser.Net.Tracking.{standard, strict, partitioned, partition_key, decide_storage}
use b_browser.Net.Partitions.{decide_storage-isolates, partition_key_collision}

upgrades_http :
    decide (chars "http://example.com/x") https_only false
    ≡ upgraded (chars "https://example.com/x")
unfolding decide
upgrades_http = refl

falls_back :
    decide (chars "http://legacy.example/x") https_first true
    ≡ plaintext_with_warning (chars "http://legacy.example/x")
unfolding decide
falls_back = refl

-- The test of the scheme is case-sensitive.
upper_case_scheme :
    decide (chars "HTTP://example.com") https_only false ≡ proceed (chars "HTTP://example.com")
unfolding decide
upper_case_scheme = refl

refuses_classical_only : negotiate (x25519 ∷ []) required ≡ none
unfolding negotiate KemGroup-discrete
refuses_classical_only = refl

accepts_hybrid : negotiate (x25519 ∷ x25519_ml_kem768 ∷ []) required ≡ some x25519_ml_kem768
unfolding negotiate KemGroup-discrete
accepts_hybrid = refl

prefers_h3 :
    negotiate_transport (chars "h2" ∷ chars "h3" ∷ chars "http/1.1" ∷ []) default_policy
    ≡ some http3
unfolding negotiate_transport
prefers_h3 = refl

http11_blocked : negotiate_transport (chars "http/1.1" ∷ []) default_policy ≡ none
unfolding negotiate_transport default_policy
http11_blocked = refl

tls12_refused : check_version tls12 ≡ refuse_downgrade
unfolding check_version
tls12_refused = refl

tls13_accepted : check_version tls13 ≡ accept
unfolding check_version
tls13_accepted = refl

ct_enforced : ct_required true ≡ true
unfolding ct_required
ct_enforced = refl

decide-plaintext_run :
    (chars "http://legacy.example" ≡ chars "http://legacy.example")
    × ((https_first ≡ off) ⊎ ((https_first ≡ https_first) × (true ≡ true)))
decide-plaintext_run =
    decide-plaintext (chars "http://legacy.example") (chars "http://legacy.example") https_first
      true (unfold decide in refl) refl

decide-never_blocked_run : decide (chars "http://x.example") https_only true ≢ blocked
decide-never_blocked_run = decide-never_blocked (chars "http://x.example") https_only true

negotiate-IsBest_example :
    ((g : KemGroup)
      → negotiate (x25519 ∷ ml_kem768 ∷ []) required ≡ some g
      → IsBest (x25519 ∷ ml_kem768 ∷ []) required g)
    × (negotiate (x25519 ∷ ml_kem768 ∷ []) required ≡ none
        → (g : KemGroup) → Permits required g
        → contains (x25519 ∷ ml_kem768 ∷ []) g ≡ false)
negotiate-IsBest_example = negotiate-IsBest (x25519 ∷ ml_kem768 ∷ []) required

negotiate_transport_iff_run :
    (negotiate_transport (chars "h2" ∷ []) default_policy ≡ some http2) ↔ (
      (usable (chars "h2" ∷ []) default_policy http2 ≡ true)
      × ((u : Transport)
          → usable (chars "h2" ∷ []) default_policy u ≡ true
          → version u ≤ version http2))
negotiate_transport_iff_run = negotiate_transport_iff (chars "h2" ∷ []) default_policy http2

decide_storage-isolates_example :
    ((decide_storage (chars "a") (chars "t") strict true ≡ Tracking.blocked)
      ↔ ((strict ≡ strict) × (true ≡ true)))
    × ((key : Str)
        → decide_storage (chars "a") (chars "t") strict true ≡ partitioned key
        → decide_storage (chars "b") (chars "t") standard true ≡ partitioned key
        → (chars "a" ≡ chars "b") × (chars "t" ≡ chars "t"))
decide_storage-isolates_example =
    decide_storage-isolates (chars "a") (chars "t") (chars "b") (chars "t") strict standard true
      true (λ p. omega arith, tt) (λ p. omega arith, tt)

partition_key_collision_run :
    partition_key (chars "a|b") (chars "c") ≡ partition_key (chars "a") (chars "b|c")
partition_key_collision_run = partition_key_collision (chars "a") (chars "b") (chars "c")
