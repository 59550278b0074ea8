-- ===== src/Policy/Provenance/Tests.antt =====
-- The unit test of provenance.rs, and the theorems at concrete inputs.
use b_browser.Prelude.{arith, ◌∷◌, [], chars, refl, ◌≡◌}
use b_browser.Prelude.Sort.{IsSorted}
use b_browser.Policy.Precedence.{enterprise}
use b_browser.Policy.Provenance.{DecisionSpan, pair_le, with_input, to_log_line}
use b_browser.Policy.Provenance.Inputs.{with_input-IsSorted, with_input_comm}
use b_browser.Policy.Provenance.Determined.{IsPlain, to_log_line-Injective}
use b_browser.Policy.Provenance.LogLine.{to_log_line_ambiguous}

abbrev span : DecisionSpan
span = record {
  domain = chars "network";
  key = chars "doh.provider";
  decision = chars "allow";
  matched_rule = chars "enterprise_doh";
  source_layer = enterprise;
  inputs = [];
}

serializes :
    to_log_line (
      with_input
        (with_input span (chars "origin") (chars "https://x.example"))
        (chars "data_residency")
        (chars "eu"))
    ≡ chars
        "domain=network key=doh.provider decision=allow rule=enterprise_doh source=enterprise inputs=[data_residency=eu,origin=https://x.example]"
unfolding to_log_line with_input
serializes = refl

with_input-IsSorted_run : IsSorted pair_le (with_input span (chars "origin") (chars "x")).inputs
with_input-IsSorted_run = with_input-IsSorted span (chars "origin") (chars "x")

with_input_comm_run :
    with_input (with_input span (chars "b") (chars "1")) (chars "a") (chars "2")
    ≡ with_input (with_input span (chars "a") (chars "2")) (chars "b") (chars "1")
with_input_comm_run = with_input_comm span (chars "b") (chars "1") (chars "a") (chars "2")

to_log_line_ambiguous_run :
    to_log_line (with_input (with_input span (chars "a") (chars "1")) (chars "b") (chars "2"))
    ≡ to_log_line (with_input span (chars "a") (chars "1,b=2"))
to_log_line_ambiguous_run =
    to_log_line_ambiguous span (chars "a") (chars "1") (chars "b") (chars "2") refl refl

-- The span with one plain input, attached in two ways.
abbrev eu : DecisionSpan
eu = record span { inputs = (chars "residency", chars "eu") ∷ [] }

attached : DecisionSpan
unfolding with_input
attached = with_input span (chars "residency") (chars "eu")

eu-IsPlain : IsPlain eu
eu-IsPlain = record {
  domain = omega arith;
  key = omega arith;
  decision = omega arith;
  rule = omega arith;
  inputs = omega arith;
}

to_log_line-Injective_example : eu ≡ attached
to_log_line-Injective_example =
    to_log_line-Injective eu attached eu-IsPlain (unfold attached in eu-IsPlain)
      (unfold attached in refl)
