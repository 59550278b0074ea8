-- ===== src/Tools/FuzzTargets.antt =====
-- The assertions of the fuzz targets.
use b_browser.Prelude.Tests.{nat_same}
use b_browser.Prelude.Eq.{contains}
use b_browser.Prelude.{
  refl, inl, inr, Bool-cases, inl, chars, ap, Bool-cases, sym, not, text_eq, List, Str, true, ◌≡◌,
}
use b_browser.Prelude.Text.{split}
use b_browser.Net.Transport.{default_policy, negotiate_transport}
use b_browser.Redaction.{Redacted, default_config, redact}
use b_browser.Redaction.Idempotence.{redact_idem}
use b_browser.Tools.Fuzz.{is_http11, net_alpn, redaction}

not_http11 : (alpn : List Str) → not (is_http11 (negotiate_transport alpn default_policy)) ≡ true
unfolding negotiate_transport default_policy
not_http11 alpn = elim (Bool-cases (contains alpn (chars "h3"))) [
  | inl e ↦ rw e refl
  | inr e ↦ elim (Bool-cases (contains alpn (chars "h2"))) [
    | inl e' ↦ rw (e, e') refl
    | inr e' ↦ elim (Bool-cases (contains alpn (chars "http/1.1"))) [
      | inl e'' ↦ rw (e, e', e'') refl
      | inr e'' ↦ rw (e, e', e'') refl
    ]
  ]
]

net_alpn_lem : (s : Str) → net_alpn s ≡ true
unfolding net_alpn
net_alpn_lem s = not_http11 (split (λ c. nat_same c 0) s)

-- No input fails a fuzz target: the default policy never settles on HTTP/1.1, whatever the server
-- advertises, and to redact a redacted text changes nothing.
pub fuzz_targets_pass : (s : Str) → (net_alpn s ≡ true) × (redaction s ≡ true)
unfolding redaction
fuzz_targets_pass s = (
  net_alpn_lem s,
  (text_eq.same_iff (redact s default_config).text
        (redact (redact s default_config).text default_config).text).1
      (sym (ap (λ (r : Redacted). r.text) (redact_idem default_config s).1)),
)
