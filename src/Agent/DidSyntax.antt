-- ===== src/Agent/DidSyntax.antt =====
-- The syntax that `parse_did` accepts.
use mathlib.Core.Path.{subst}
use b_browser.Prelude.Eq.{◌==◌}
use b_browser.Prelude.{
  Bool-cases, Option-cases, Str, [], ap, arith, chars, false, inl, inr, is_empty, refl, some,
  text_eq, ◌++◌, ◌↔◌, ◌∙◌, ◌∷◌, ◌≡◌, ◌≢◌,
}
use b_browser.Prelude.Text.{split_once}
use b_browser.Prelude.Splits.{Lacks, split_once-join, split_once-found}
use b_browser.Agent.Did.{Did, did_of, parse_did}

abbrev pub print_did : Did → Str
print_did d = chars "did" ++ 58 ∷ (d.method ++ 58 ∷ d.identifier)

-- Both parts are there, and the method has no colon.
abbrev pub IsDid : Did → Type 0
IsDid d = (d.method ≢ []) × (d.identifier ≢ []) × Lacks 58 d.method

did-Lacks : Lacks 58 (chars "did")
did-Lacks = (λ p. omega arith, (λ p. omega arith, (λ p. omega arith, tt)))

not_empty : (s : Str) → s ≢ [] → is_empty s ≡ false
not_empty [] h = absurd (h refl)
not_empty (x ∷ s) h = refl

is_not_empty : (s : Str) → is_empty s ≡ false → s ≢ []
is_not_empty [] h = cc
is_not_empty (x ∷ s) h = λ p. cc

parse_did-print : (d : Did) → IsDid d → parse_did (print_did d) ≡ some d
unfolding parse_did
parse_did-print d (m, i, l) = ground (
  arith,
  split_once-join 58 d.method d.identifier l,
  not_empty d.method m,
  not_empty d.identifier i,
)

did_of_three :
    (s m i : Str) (d : Did)
    → did_of (s ∷ m ∷ i ∷ []) ≡ some d
    → (s ≡ chars "did") × (m ≡ d.method) × (i ≡ d.identifier) × (m ≢ []) × (i ≢ [])
did_of_three s m i d h = elim (Bool-cases (s == chars "did")) [
  | inr e ↦ absurd (ground arith)
  | inl e ↦ elim (Bool-cases (is_empty m)) [
    | inl e' ↦ absurd (ground arith)
    | inr e' ↦ elim (Bool-cases (is_empty i)) [
      | inl e'' ↦ absurd (ground arith)
      | inr e'' ↦ (
        (text_eq.same_iff s (chars "did")).0 e,
        ground arith,
        ground arith,
        is_not_empty m e',
        is_not_empty i e'',
      )
    ]
  ]
]

parse_did-printed : (s : Str) (d : Did) → parse_did s ≡ some d → (s ≡ print_did d) × IsDid d
unfolding parse_did
parse_did-printed s d h = elim (Option-cases (split_once 58 s)) [
  | inl e ↦ absurd (ground arith)
  | inr ((scheme, rest), e) ↦ elim (Option-cases (split_once 58 rest)) [
    | inl e' ↦ absurd (ground arith)
    | inr ((m, i), e') ↦
        let parts = did_of_three scheme m i d (ground arith) in
        let outer = split_once-found 58 s scheme rest e in
        let inner = split_once-found 58 rest m i e' in
        (
          outer.0 ∙ cc (inner.0, parts.0, parts.1, parts.2),
          (
            subst (λ t. t ≢ []) parts.1 parts.3,
            subst (λ t. t ≢ []) parts.2 parts.4,
            subst (λ t. Lacks 58 t) parts.1 inner.1,
          ),
        )
  ]
]

-- `parse_did` accepts exactly the printed identifiers with a method and an identifier that are not
-- empty and a method without a colon, and returns their two parts.
pub parse_did_iff : (s : Str) (d : Did) → (parse_did s ≡ some d) ↔ ((s ≡ print_did d) × IsDid d)
parse_did_iff s d = (parse_did-printed s d, λ (p, q). ap parse_did p ∙ parse_did-print d q)
