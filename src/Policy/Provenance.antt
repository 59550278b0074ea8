-- ===== src/Policy/Provenance.antt =====
-- admin/policy-engine/src/provenance.rs: the record of one decision and its log line.
pub mod Inputs
pub mod LogLine
pub mod Determined
mod Tests
use b_browser.Prelude.{
  text_eq, Bool, List, Str, [], chars, false, if◌then◌else◌, ltb, map, true, ◌++◌, ◌∷◌,
}
use b_browser.Prelude.Eq.{◌==◌}
use b_browser.Prelude.Text.{join}
use b_browser.Prelude.Sort.{sort_by}
use b_browser.Policy.Precedence.{Layer, name}

-- The order of `str`: of the bytes, which for UTF-8 is that of the code points.
abbrev pub text_le : Str → Str → Bool
text_le [] t = true
text_le (x ∷ s) [] = false
text_le (x ∷ s) (y ∷ t) =
    let rest = text_le s t in if ltb x y then true else if ltb y x then false else rest

-- The order of a pair of texts.
abbrev pub pair_le : Str × Str → Str × Str → Bool
pair_le (k, v) (j, w) = if k == j then text_le v w else text_le k j

pub record DecisionSpan : Type 0 where
  pub domain : Str
  pub key : Str
  pub decision : Str
  pub matched_rule : Str
  pub source_layer : Layer
  pub inputs : List (Str × Str)

unfoldable pub new : Str → Str → Str → Str → Layer → DecisionSpan
new domain key decision matched_rule source = record {
  domain = domain;
  key = key;
  decision = decision;
  matched_rule = matched_rule;
  source_layer = source;
  inputs = [];
}

-- `push` and `sort`
unfoldable pub with_input : DecisionSpan → Str → Str → DecisionSpan
with_input s k v = record s { inputs = sort_by pair_le (s.inputs ++ (k, v) ∷ []) }

-- `format!("{k}={v}")`
abbrev pub show_input : Str × Str → Str
show_input (k, v) = k ++ (chars "=" ++ v)

unfoldable pub to_log_line : DecisionSpan → Str
unfolding name
to_log_line s =
    chars "domain="
    ++ (s.domain
        ++ (chars " key="
            ++ (s.key
                ++ (chars " decision="
                    ++ (s.decision
                        ++ (chars " rule="
                            ++ (s.matched_rule
                                ++ (chars " source="
                                    ++ (name s.source_layer
                                        ++ (chars " inputs=["
                                            ++ (join (chars ",") (map show_input s.inputs)
                                                ++ chars "]")))))))))))
