-- ===== src/Ipc/Interleaving.antt =====
-- `Broker::mint` as the two atomic actions that it is, the counter's `fetch_add` and the insertion
-- behind the mutex, so that the actions of several threads can alternate.
use b_browser.Prelude.{All, ◌≢◌, ℕ, ◌+◌, ◌%◌, ◌≡◌, some, List, [], ◌∷◌, Str, ◌⊎◌, refl}
use b_browser.Prelude.Eq.{nat_eq}
use b_browser.Prelude.Assoc.{Assoc, lookup, insert, remove}
use b_browser.Ipc.{Authority, Capability, Broker, new, mint, revoke, u64_mod}
use b_browser.Ipc.Attenuation.{Attenuates}

-- `self.next_id.fetch_add(1, SeqCst)`
unfoldable pub fetch_id : Broker → ℕ × Broker
fetch_id b = (b.next_id, record b { next_id = (b.next_id + 1) % u64_mod })

-- The arguments of a call of `mint`.
pub record Request : Type 0 where
  pub origin : Str
  pub authorities : List Authority
  pub ttl_secs : ℕ

-- The rest of `mint`, with the lock held for the insertion.
unfoldable pub register : Broker → ℕ → ℕ → Request → Capability × Broker
register b id now r = (
  record {
    id = id;
    origin = r.origin;
    authorities = r.authorities;
    expires_at = (now + r.ttl_secs) % u64_mod;
  },
  record b { issued = insert id r.origin b.issued },
)

-- Without another thread in between, the two actions are `mint`.
pub mint-register :
    (b : Broker) (now : ℕ) (r : Request)
    → register (fetch_id b).1 (fetch_id b).0 now r ≡ mint b now r.origin r.authorities r.ttl_secs
unfolding register fetch_id mint
mint-register b now r = refl

-- A broker with its threads: the calls of `mint` that have an id and have not registered it, the
-- capabilities that such calls have returned, one for each call, the ids that were revoked, and the number of calls.
pub record World : Type 0 where
  pub broker : Broker
  pub pending : Assoc ℕ Request
  pub minted : List Capability
  pub revoked : List ℕ
  pub calls : ℕ

unfoldable pub start : World
start = record { broker = new; pending = []; minted = []; revoked = []; calls = 0 }

unfoldable pub begin_mint : World → Request → World
begin_mint w r = record w {
  broker = (fetch_id w.broker).1;
  pending = insert (fetch_id w.broker).0 r w.pending;
  calls = w.calls + 1;
}

unfoldable pub end_mint : World → ℕ → ℕ → Request → World
end_mint w id now r = record w {
  broker = (register w.broker id now r).1;
  pending = remove id w.pending;
  minted = (register w.broker id now r).0 ∷ w.minted;
}

unfoldable pub revoke_held : World → Capability → World
revoke_held w d = record w { broker = revoke w.broker d; revoked = d.id ∷ w.revoked }

abbrev pub Returned : Capability → List Capability → Type 0
Returned c [] = ⊥
Returned c (x ∷ xs) = (c ≡ x) ⊎ Returned c xs

-- No two of the capabilities have one id.
abbrev pub HaveDistinctIds : List Capability → Type 0
HaveDistinctIds [] = Unit
HaveDistinctIds (c ∷ cs) = All (λ (d : Capability). d.id ≢ c.id) cs × HaveDistinctIds cs

-- A process can hold what a call returned and what it derives from that: the fields are private.
pub record Held (w : World) (d : Capability) : Type 0 where
  pub root : Capability
  pub returned : Returned root w.minted
  pub derived : Attenuates root d

-- One action of one thread.
pub data Step (w : World) : World → Type 0 where
  begins : (r : Request) → Step w (begin_mint w r)
  ends : (id now : ℕ) (r : Request) → lookup id w.pending ≡ some r → Step w (end_mint w id now r)
  revokes : (d : Capability) → Held w d → Step w (revoke_held w d)

pub data Reach : World → Type 0 where
  started : Reach start
  acted : {w v : World} → Reach w → Step w v → Reach v
