-- ===== src/Net/Transport.antt =====
-- engine/net/src/lib.rs: the application transport that ALPN settles.
use b_browser.Prelude.Eq.{contains}
use b_browser.Prelude.{
  text_eq, Bool, List, Option, Str, chars, false, if◌then◌else◌, none, some, ◌&&◌,
}
use b_browser.Net.HttpsOnly.{HttpsMode, https_only}
use b_browser.Net.Pqc.{PqEnforcement, preferred}

pub data Transport : Type 0 where
  http3 http2 http11 : Transport

pub record NetPolicy : Type 0 where
  pub allow_http11 : Bool
  pub https_mode : HttpsMode
  pub pq_kem : PqEnforcement

unfoldable pub default_policy : NetPolicy
default_policy = record { allow_http11 = false; https_mode = https_only; pq_kem = preferred }

unfoldable pub negotiate_transport : List Str → NetPolicy → Option Transport
negotiate_transport server_alpn policy =
    if contains server_alpn (chars "h3")
    then some http3
    else if contains server_alpn (chars "h2")
    then some http2
    else if contains server_alpn (chars "http/1.1") && policy.allow_http11
    then some http11
    else none
