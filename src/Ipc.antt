-- ===== src/Ipc.antt =====
-- engine/ipc/src/lib.rs: the capability model. Origins are texts, times and ids are u64. What
-- `now_secs` returns is an argument, `now`, of the operations that call it.
pub mod Attenuation
pub mod Verify
pub mod Registry
pub mod Interleaving
pub mod Consistency
pub mod Concurrent
mod Tests
use b_browser.Prelude.{
  ok, err, Result, ℕ, ◌+◌, ◌%◌, ◌^◌, ◌≡◌, Bool, true, false, not, Option, none, some, List, [], leb,
  ltb, all, if◌then◌else◌, Str, chars, text_eq,
}
use b_browser.Prelude.Eq.{PartialEq, ◌==◌, of_discrete, contains, nat_eq}
use b_browser.Prelude.Assoc.{Assoc, lookup, insert, remove}

pub data Authority : Type 0 where
  network_fetch storage_read storage_write agent_actuate ai_observe ai_local ai_remote : Authority
  render : Authority

unfoldable pub Authority-discrete : Discrete Authority
Authority-discrete = hlevel

instance abbrev pub authority_eq : PartialEq Authority
authority_eq = of_discrete Authority-discrete

pub data IpcError : Type 0 where
  expired unauthorized origin_mismatch amplification forged : IpcError

-- `Display`
unfoldable pub fmt : IpcError → Str
fmt expired = chars "capability expired"
fmt unauthorized = chars "capability does not grant this authority"
fmt origin_mismatch = chars "capability bound to a different origin"
fmt amplification = chars "attenuation may not amplify authority"
fmt forged = chars "capability not recognized by broker"

pub record Capability : Type 0 where
  pub id : ℕ
  pub origin : Str
  pub authorities : List Authority
  pub expires_at : ℕ

-- The channel and the bytes of a framed message, which no operation reads.
pub record Message : Type 0 where
  pub method : Str
  pub payload : List ℕ

abbrev pub u64_mod : ℕ
u64_mod = 2 ^ 64

-- `duration_since(UNIX_EPOCH)` in seconds, `none` for a clock that is set before 1970.
unfoldable pub now_secs : Option ℕ → ℕ
now_secs none = 0
now_secs (some secs) = secs

unfoldable pub is_expired : ℕ → Capability → Bool
is_expired now cap = leb cap.expires_at now

unfoldable pub grants : Capability → Authority → Bool
grants cap authority = contains cap.authorities authority

-- The loop over the requested authorities returns at the first one that is not held.
unfoldable pub attenuate : Capability → List Authority → ℕ → Result Capability IpcError
attenuate cap authorities expires_at =
    if ltb cap.expires_at expires_at
    then err amplification
    else if all (contains cap.authorities) authorities
    then ok (record cap { authorities = authorities; expires_at = expires_at })
    else err amplification

-- `next_id` is the atomic counter, `issued` the registry behind the mutex.
pub record Broker : Type 0 where
  pub next_id : ℕ
  pub issued : Assoc ℕ Str

unfoldable pub new : Broker
new = record { next_id = 1; issued = [] }

-- `fetch_add` wraps, and so does `now_secs() + ttl_secs` in the release profile.
unfoldable pub mint : Broker → ℕ → Str → List Authority → ℕ → Capability × Broker
mint b now origin authorities ttl_secs = (
  record {
    id = b.next_id;
    origin = origin;
    authorities = authorities;
    expires_at = (now + ttl_secs) % u64_mod;
  },
  record { next_id = (b.next_id + 1) % u64_mod; issued = insert b.next_id origin b.issued },
)

-- `Some(o) if o == &cap.origin`
abbrev pub recognised : Option Str → Str → Bool
recognised none origin = false
recognised (some o) origin = o == origin

unfoldable pub verify : Broker → ℕ → Capability → Str → Authority → Result (Unit {0}) IpcError
unfolding is_expired grants
verify b now cap expected_origin authority =
    if not (recognised (lookup cap.id b.issued) cap.origin)
    then err forged
    else if is_expired now cap
    then err expired
    else if not (cap.origin == expected_origin)
    then err origin_mismatch
    else if not (grants cap authority)
    then err unauthorized
    else ok tt

unfoldable pub revoke : Broker → Capability → Broker
revoke b cap = record b { issued = remove cap.id b.issued }
