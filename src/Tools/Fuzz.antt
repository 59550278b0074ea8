-- ===== src/Tools/Fuzz.antt =====
-- tools/fuzz/fuzz_targets: what each target asserts of its input, as a text. `from_utf8_lossy` is the
-- library's, so its result is the input.
use b_browser.Prelude.Eq.{◌==◌}
use b_browser.Prelude.{text_eq, Bool, Option, Str, false, nat_same, none, not, some, true}
use b_browser.Prelude.Text.{split}
use b_browser.Net.Transport.{Transport, http3, http2, http11, default_policy, negotiate_transport}
use b_browser.Redaction.{default_config, redact}

abbrev pub is_http11 : Option Transport → Bool
is_http11 (some http11) = true
is_http11 (some http3) = false
is_http11 (some http2) = false
is_http11 none = false

-- net_alpn.rs
unfoldable pub net_alpn : Str → Bool
net_alpn s =
    let alpn = split (λ c. nat_same c 0) s in
    not (is_http11 (negotiate_transport alpn default_policy))

-- redaction.rs
unfoldable pub redaction : Str → Bool
redaction input =
    let out = redact input default_config in
    let again = redact out.text default_config in out.text == again.text
