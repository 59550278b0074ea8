-- ===== src/Extensions/Legacy.antt =====
-- Where each permission of a legacy document ends up.
use b_browser.Prelude.Eq.{◌==◌, contains}
use b_browser.Prelude.{
  List, Str, [], any-append, arith, false, not, refl, text_eq, ◌&&◌, ◌||◌, ◌∷◌, ◌≡◌,
}
use b_browser.Extensions.Mv4.{to_mv4}
use b_browser.Extensions.Mv2
use b_browser.Extensions.Mv2.{
  Mv2Document, is_host_pattern, web_request_blocking, Sorted, sort_permission, sort_from,
}

abbrev nothing_yet : Sorted
nothing_yet = record { permissions = []; host_permissions = []; wants_blocking_web_request = false }

not_a_pattern : is_host_pattern web_request_blocking ≡ false
unfolding is_host_pattern web_request_blocking
not_a_pattern = refl

module _ (s : Sorted) (p q : Str) where
  permissions-sort : contains (sort_permission s p).permissions q ≡ (
      contains s.permissions q
      || (q == p && (not (is_host_pattern q) && not (q == web_request_blocking))))
  unfolding sort_permission
  permissions-sort = ground (
    arith,
    any-append (λ x. q == x) s.permissions (p ∷ []),
    text_eq.same_iff q p,
    text_eq.same_iff p web_request_blocking,
    text_eq.same_iff q web_request_blocking,
  )

  hosts-sort :
      contains (sort_permission s p).host_permissions q
      ≡ (contains s.host_permissions q || (q == p && is_host_pattern q))
  unfolding sort_permission
  hosts-sort =
      ground (arith, any-append (λ x. q == x) s.host_permissions (p ∷ []), text_eq.same_iff q p)

  blocking-sort :
      (sort_permission s p).wants_blocking_web_request
      ≡ (s.wants_blocking_web_request || web_request_blocking == p)
  unfolding sort_permission
  blocking-sort = ground (
    arith,
    text_eq.same_iff p web_request_blocking,
    text_eq.same_iff web_request_blocking p,
    not_a_pattern,
  )

permissions-sort_from :
    (s : Sorted) (ps : List Str) (q : Str)
    → contains (sort_from s ps).permissions q ≡ (
        contains s.permissions q
        || (contains ps q && (not (is_host_pattern q) && not (q == web_request_blocking))))
unfolding sort_from
permissions-sort_from s [] q = ground arith
permissions-sort_from s (p ∷ ps) q =
    ground (arith, permissions-sort_from (sort_permission s p) ps q, permissions-sort s p q)

hosts-sort_from :
    (s : Sorted) (ps : List Str) (q : Str)
    → contains (sort_from s ps).host_permissions q
      ≡ (contains s.host_permissions q || (contains ps q && is_host_pattern q))
unfolding sort_from
hosts-sort_from s [] q = ground arith
hosts-sort_from s (p ∷ ps) q =
    ground (arith, hosts-sort_from (sort_permission s p) ps q, hosts-sort s p q)

blocking-sort_from :
    (s : Sorted) (ps : List Str)
    → (sort_from s ps).wants_blocking_web_request
      ≡ (s.wants_blocking_web_request || contains ps web_request_blocking)
unfolding sort_from
blocking-sort_from s [] = ground arith
blocking-sort_from s (p ∷ ps) =
    ground (arith, blocking-sort_from (sort_permission s p) ps, blocking-sort s p p)

-- The translation of a legacy document asks for exactly what the document asks for: its host
-- patterns as origins, a blocking webRequest as an approval, and every other permission as itself.
pub to_mv4-parse :
    (doc : Mv2Document) (q : Str)
    → (contains (to_mv4 (Mv2.parse doc)).0.permissions q ≡ (
        contains doc.permissions q && (not (is_host_pattern q) && not (q == web_request_blocking))))
      × (contains (to_mv4 (Mv2.parse doc)).0.host_capability_origins q
          ≡ (contains doc.permissions q && is_host_pattern q))
      × ((to_mv4 (Mv2.parse doc)).0.blocking_web_request_requires_admin_approval
          ≡ contains doc.permissions web_request_blocking)
unfolding to_mv4 Mv2.parse
to_mv4-parse doc q = (
  permissions-sort_from nothing_yet doc.permissions q,
  hosts-sort_from nothing_yet doc.permissions q,
  blocking-sort_from nothing_yet doc.permissions,
)
