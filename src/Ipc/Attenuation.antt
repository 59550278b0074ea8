-- ===== src/Ipc/Attenuation.antt =====
-- `Capability::attenuate`: what it accepts, and chains of attenuations.
use b_browser.Prelude.{ok, ℕ, ◌≤◌, ◌≡◌, refl, true, List, [], ◌∷◌, arith, ◌↔◌, all}
use b_browser.Prelude.Eq.{contains}
use b_browser.Ipc.{Authority, Capability, attenuate, grants, authority_eq}

-- Every authority of `asked` is held.
abbrev pub Subset : List Authority → List Authority → Type 0
Subset held asked = (a : Authority) → contains asked a ≡ true → contains held a ≡ true

Subset_of_all : (held asked : List Authority) → all (contains held) asked ≡ true → Subset held asked
Subset_of_all held [] h a m = cc
Subset_of_all held (x ∷ asked) h a m =
    ground (arith, authority_eq.same_iff a x, Subset_of_all held asked (ground arith) a)

all_of_Subset : (held asked : List Authority) → Subset held asked → all (contains held) asked ≡ true
all_of_Subset held [] s = refl
all_of_Subset held (x ∷ asked) s = ground (
  arith,
  s x (ground (arith, authority_eq.same_iff x x)),
  all_of_Subset held asked (λ a m. s a (ground arith)),
)

-- `attenuate` succeeds exactly when the new expiry is not later and every requested authority is
-- held, and then it returns the capability with just these two fields replaced.
pub attenuate_iff :
    (c d : Capability) (asked : List Authority) (expires_at : ℕ)
    → (attenuate c asked expires_at ≡ ok d) ↔ (
        (expires_at ≤ c.expires_at)
        × Subset c.authorities asked
        × (d ≡ record c { authorities = asked; expires_at = expires_at }))
unfolding attenuate
attenuate_iff c d asked e = (
  λ h. (ground arith, Subset_of_all c.authorities asked (ground arith), ground arith),
  λ h. ground (arith, h, all_of_Subset c.authorities asked h.1),
)

-- `d` is reached from `c` by attenuations.
pub data Attenuates (c : Capability) : Capability → Type 0 where
  here : Attenuates c c
  next :
      {d e : Capability} (asked : List Authority) (expires_at : ℕ)
      → Attenuates c d
      → attenuate d asked expires_at ≡ ok e
      → Attenuates c e

-- `d` names the same grant, holds no authority that `c` does not hold, and dies no later.
pub record Narrows (c d : Capability) : Type 0 where
  pub same_id : d.id ≡ c.id
  pub same_origin : d.origin ≡ c.origin
  pub no_later : d.expires_at ≤ c.expires_at
  pub subset : (a : Authority) → grants d a ≡ true → grants c a ≡ true

attenuate-Narrows :
    {c d e : Capability} (asked : List Authority) (expires_at : ℕ)
    → Narrows c d
    → attenuate d asked expires_at ≡ ok e
    → Narrows c e
unfolding grants
attenuate-Narrows {c} {d} {e} asked x n h =
    let (early, held, same) = (attenuate_iff d e asked x).0 h in
    record {
      same_id = ground arith;
      same_origin = ground arith;
      no_later = ground arith;
      subset = λ a m. n.subset a (held a (ground arith));
    }

-- However often a capability is attenuated, the result names the same grant, holds no authority
-- that the original does not hold, and expires no later.
pub Attenuates-Narrows : {c d : Capability} → Attenuates c d → Narrows c d
Attenuates-Narrows here = record {
  same_id = refl;
  same_origin = refl;
  no_later = omega arith;
  subset = λ a m. m;
}
Attenuates-Narrows (next asked x r h) = attenuate-Narrows asked x (Attenuates-Narrows r) h
