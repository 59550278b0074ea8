-- ===== src/Policy/Provenance/Determined.antt =====
-- Spans whose parts do not have the separators of the log line.
use b_browser.Prelude.{
  All, ap, arith, chars, List, map, refl, some, Str, sym, [], ◌++◌, ◌∙◌, ◌∷◌, ◌≡◌, ℕ,
}
use mathlib.Core.Path.{subst}
use b_browser.Prelude.Text.{join}
use b_browser.Prelude.Splits.{Lacks, join-Injective}
use b_browser.Policy.Precedence.{Layer, default, user, local_admin, enterprise, name}
use b_browser.Policy.Cli.{parse_layer}
use b_browser.Policy.Cli.Arguments.{parse_layer-name}
use b_browser.Policy.Provenance.{DecisionSpan, show_input, to_log_line}

-- The key has no `=` and no `,`, and the value no `,`.
abbrev pub IsPlainInput : Str × Str → Type 0
IsPlainInput (k, v) = Lacks 61 k × Lacks 44 k × Lacks 44 v

-- The four texts have no space, and the inputs are plain.
pub record IsPlain (s : DecisionSpan) : Type 0 where
  pub domain : Lacks 32 s.domain
  pub key : Lacks 32 s.key
  pub decision : Lacks 32 s.decision
  pub rule : Lacks 32 s.matched_rule
  pub inputs : All IsPlainInput s.inputs

Lacks-append : (c : ℕ) (s t : Str) → Lacks c s → Lacks c t → Lacks c (s ++ t)
Lacks-append c [] t h k = k
Lacks-append c (x ∷ s) t h k = (h.0, Lacks-append c s t h.1 k)

-- Texts that start in one way are equal only where the rest is.
after : (p s t : Str) → p ++ s ≡ p ++ t → s ≡ t
after [] s t e = e
after (x ∷ p) s t e = after p s t (ground arith)

-- Texts that end in one character are equal only where the rest is.
before_last : (c : ℕ) (s t : Str) → s ++ c ∷ [] ≡ t ++ c ∷ [] → s ≡ t
before_last c [] [] e = refl
before_last c [] (y ∷ []) e = absurd (ground arith)
before_last c [] (y ∷ z ∷ t) e = absurd (ground arith)
before_last c (x ∷ []) [] e = absurd (ground arith)
before_last c (x ∷ w ∷ s) [] e = absurd (ground arith)
before_last c (x ∷ s) (y ∷ t) e = ground (arith, before_last c s t)

show_input-Lacks : (p : Str × Str) → IsPlainInput p → Lacks 44 (show_input p)
show_input-Lacks (k, v) h = Lacks-append 44 k (61 ∷ v) h.1 (λ e. omega (arith, e), h.2)

show_input-Injective :
    (p q : Str × Str) → IsPlainInput p → IsPlainInput q → show_input p ≡ show_input q → p ≡ q
show_input-Injective (k, v) (j, w) h h' e =
    let parts = join-Injective 61 k v j w h.0 h'.0 e in cc (parts.0, parts.1)

not_shown : (p : Str × Str) (t : Str) → ¬ ([] ≡ show_input p ++ t)
not_shown ([], v) t = λ e. cc
not_shown (c ∷ k, v) t = λ e. cc

shown : (p : Str × Str) → ¬ ([] ≡ show_input p)
shown ([], v) = λ e. cc
shown (c ∷ k, v) = λ e. cc

occurs : (c : ℕ) (a b : Str) → ¬ (Lacks c (a ++ c ∷ b))
occurs c [] b = λ h. h.0 refl
occurs c (x ∷ a) b = λ h. occurs c a b h.1

join-shown :
    (ps qs : List (Str × Str))
    → All IsPlainInput ps
    → All IsPlainInput qs
    → join (chars ",") (map show_input ps) ≡ join (chars ",") (map show_input qs)
    → ps ≡ qs
join-shown [] [] h h' e = refl
join-shown [] (q ∷ []) h h' e = absurd (shown q e)
join-shown [] (q ∷ r ∷ qs) h h' e = absurd (not_shown q _ e)
join-shown (p ∷ []) [] h h' e = absurd (shown p (sym e))
join-shown (p ∷ r ∷ ps) [] h h' e = absurd (not_shown p _ (sym e))
join-shown (p ∷ []) (q ∷ []) h h' e = ap (λ x. x ∷ []) (show_input-Injective p q h.0 h'.0 e)
join-shown (p ∷ []) (q ∷ r ∷ qs) h h' e =
    absurd (occurs 44 (show_input q) _ (subst (Lacks 44) e (show_input-Lacks p h.0)))
join-shown (p ∷ r ∷ ps) (q ∷ []) h h' e =
    absurd (occurs 44 (show_input p) _ (subst (Lacks 44) (sym e) (show_input-Lacks q h'.0)))
join-shown (p ∷ r ∷ ps) (q ∷ s ∷ qs) h h' e =
    let parts =
      join-Injective 44 (show_input p) (join (chars ",") (map show_input (r ∷ ps))) (show_input q)
        (join (chars ",") (map show_input (s ∷ qs))) (show_input-Lacks p h.0)
        (show_input-Lacks q h'.0) e in
    cc (show_input-Injective p q h.0 h'.0 parts.0, join-shown (r ∷ ps) (s ∷ qs) h.1 h'.1 parts.1)

some_Injective : {A : Type 0} {a b : A} → some a ≡ some b → a ≡ b
some_Injective e = cc

name-Injective : (a b : Layer) → name a ≡ name b → a ≡ b
name-Injective a b e =
    some_Injective (sym (parse_layer-name a) ∙ ap parse_layer e ∙ parse_layer-name b)

name-Lacks : (a : Layer) → Lacks 32 (name a)
unfolding name
name-Lacks default = omega arith
name-Lacks user = omega arith
name-Lacks local_admin = omega arith
name-Lacks enterprise = omega arith

-- Two spans of plain parts have one log line only where they are the same span.
pub to_log_line-Injective :
    (s t : DecisionSpan) → IsPlain s → IsPlain t → to_log_line s ≡ to_log_line t → s ≡ t
unfolding to_log_line
to_log_line-Injective s t p q e =
    let (d, e1) =
      join-Injective 32 s.domain _ t.domain _ p.domain q.domain (after (chars "domain=") _ _ e) in
    let (k, e2) = join-Injective 32 s.key _ t.key _ p.key q.key (after (chars "key=") _ _ e1) in
    let (c, e3) =
      join-Injective 32 s.decision _ t.decision _ p.decision q.decision
        (after (chars "decision=") _ _ e2) in
    let (r, e4) =
      join-Injective 32 s.matched_rule _ t.matched_rule _ p.rule q.rule
        (after (chars "rule=") _ _ e3) in
    let (l, e5) =
      join-Injective 32 (name s.source_layer) _ (name t.source_layer) _ (name-Lacks s.source_layer)
        (name-Lacks t.source_layer) (after (chars "source=") _ _ e4) in
    let i =
      join-shown s.inputs t.inputs p.inputs q.inputs
        (before_last 93 _ _ (after (chars "inputs=[") _ _ e5)) in
    cc (d, k, c, r, name-Injective s.source_layer t.source_layer l, i)
