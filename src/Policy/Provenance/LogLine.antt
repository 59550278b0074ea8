-- ===== src/Policy/Provenance/LogLine.antt =====
-- Inputs with a comma in the log line.
use mathlib.Core.List.{append_assoc}
use b_browser.Prelude.{List, Str, [], ap, chars, map, refl, sym, true, ◌++◌, ◌∙◌, ◌∷◌, ◌≡◌}
use b_browser.Policy.Provenance.{join, DecisionSpan, pair_le, show_input, with_input, to_log_line}

two_inputs :
    (s : DecisionSpan) (k v j w : Str)
    → s.inputs ≡ []
    → pair_le (k, v) (j, w) ≡ true
    → (with_input (with_input s k v) j w).inputs ≡ (k, v) ∷ (j, w) ∷ []
unfolding with_input
two_inputs s k v j w none_yet le = rw (none_yet, le)

one_input : (s : DecisionSpan) (k v : Str) → s.inputs ≡ [] → (with_input s k v).inputs ≡ (k, v) ∷ []
unfolding with_input
one_input s k v none_yet = rw none_yet

abbrev show_inputs : List (Str × Str) → Str
show_inputs l = join (chars ",") (map show_input l)

show_ambiguous :
    (k v j w : Str)
    → show_inputs ((k, v) ∷ (j, w) ∷ [])
      ≡ show_inputs ((k, v ++ (chars "," ++ (j ++ (chars "=" ++ w)))) ∷ [])
show_ambiguous k v j w = simp append_assoc

line_of_inputs :
    (s t : DecisionSpan)
    → t ≡ record s { inputs = t.inputs }
    → show_inputs s.inputs ≡ show_inputs t.inputs
    → to_log_line s ≡ to_log_line t
unfolding to_log_line
line_of_inputs s t e h = rw (e, h)

-- Where `(k, v)` comes before `(j, w)`, a span without inputs has one log line with those two
-- inputs and with the single input `k` of value `v,j=w`.
pub to_log_line_ambiguous :
    (s : DecisionSpan) (k v j w : Str)
    → s.inputs ≡ []
    → pair_le (k, v) (j, w) ≡ true
    → to_log_line (with_input (with_input s k v) j w)
      ≡ to_log_line (with_input s k (v ++ (chars "," ++ (j ++ (chars "=" ++ w)))))
to_log_line_ambiguous s k v j w none_yet le =
    line_of_inputs (with_input (with_input s k v) j w)
      (with_input s k (v ++ (chars "," ++ (j ++ (chars "=" ++ w))))) (unfold with_input in refl)
      (ap show_inputs (two_inputs s k v j w none_yet le)
        ∙ show_ambiguous k v j w
        ∙ sym
            (ap show_inputs (one_input s k (v ++ (chars "," ++ (j ++ (chars "=" ++ w)))) none_yet)))
