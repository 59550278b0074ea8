-- ===== src/Net/Preference.antt =====
-- The negotiated transport against what both sides accept.
use b_browser.Prelude.Eq.{contains}
use b_browser.Prelude.{arith, text_eq, Bool, List, Str, chars, some, true, ℕ, ◌&&◌, ◌↔◌, ◌≡◌, ◌≤◌}
use b_browser.Net.Transport.{Transport, http3, http2, http11, NetPolicy, negotiate_transport}

-- The protocol name that a server advertises.
abbrev pub alpn : Transport → Str
alpn http3 = chars "h3"
alpn http2 = chars "h2"
alpn http11 = chars "http/1.1"

abbrev pub version : Transport → ℕ
version http3 = 3
version http2 = 2
version http11 = 1

-- The server advertises it, and HTTP/1.1 only if the policy allows it.
abbrev pub usable : List Str → NetPolicy → Transport → Bool
usable server policy http3 = contains server (alpn http3)
usable server policy http2 = contains server (alpn http2)
usable server policy http11 = contains server (alpn http11) && policy.allow_http11

negotiated_usable :
    (server : List Str) (policy : NetPolicy) (t : Transport)
    → negotiate_transport server policy ≡ some t
    → usable server policy t ≡ true
unfolding negotiate_transport
negotiated_usable server policy http3 h = ground arith
negotiated_usable server policy http2 h = ground arith
negotiated_usable server policy http11 h = ground arith

negotiated_best :
    (server : List Str) (policy : NetPolicy) (t u : Transport)
    → negotiate_transport server policy ≡ some t
    → usable server policy u ≡ true
    → version u ≤ version t
unfolding negotiate_transport
negotiated_best server policy http3 http3 h k = omega arith
negotiated_best server policy http3 http2 h k = omega arith
negotiated_best server policy http3 http11 h k = omega arith
negotiated_best server policy http2 http3 h k = ground arith
negotiated_best server policy http2 http2 h k = omega arith
negotiated_best server policy http2 http11 h k = omega arith
negotiated_best server policy http11 http3 h k = ground arith
negotiated_best server policy http11 http2 h k = ground arith
negotiated_best server policy http11 http11 h k = omega arith

best_negotiated :
    (server : List Str) (policy : NetPolicy) (t : Transport)
    → usable server policy t ≡ true
    → ((u : Transport) → usable server policy u ≡ true → version u ≤ version t)
    → negotiate_transport server policy ≡ some t
unfolding negotiate_transport
best_negotiated server policy http3 h k = ground arith
best_negotiated server policy http2 h k = ground (arith, k http3)
best_negotiated server policy http11 h k = ground (arith, k http3, k http2)

-- A transport is negotiated exactly when it is usable and every usable transport has at most its
-- version.
pub negotiate_transport_iff :
    (server : List Str) (policy : NetPolicy) (t : Transport)
    → (negotiate_transport server policy ≡ some t) ↔ (
        (usable server policy t ≡ true)
        × ((u : Transport) → usable server policy u ≡ true → version u ≤ version t))
negotiate_transport_iff server policy t = (
  λ h. (negotiated_usable server policy t h, λ u. negotiated_best server policy t u h),
  λ (h, k). best_negotiated server policy t h k,
)
