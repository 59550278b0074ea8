-- ===== src/Policy/Audit.antt =====
-- admin/policy-engine/src/audit.rs: the log of entry hashes and its Merkle root.
pub mod Hash
pub mod Root
pub mod Collisions
pub mod Tamper
pub mod Duplicate
mod Tests
use b_browser.Prelude.{
  ℕ, zero, suc, ◌/◌, ◌%◌, ◌^◌, Option, none, some, List, [], ◌∷◌, ◌++◌, length, is_empty, ltb,
  if◌then◌else◌, Str, Bool,
}
use b_browser.Prelude.Text.{utf8}
use b_browser.Prelude.Fnv.{fnv_offset, fnv_from}

unfoldable pub hash_bytes : List ℕ → ℕ
unfolding fnv_from
hash_bytes bytes = fnv_from fnv_offset bytes

unfoldable pub to_be_bytes : ℕ → List ℕ
to_be_bytes a =
    a / 2 ^ 56 % 256
    ∷ a / 2 ^ 48 % 256
    ∷ a / 2 ^ 40 % 256
    ∷ a / 2 ^ 32 % 256
    ∷ a / 2 ^ 24 % 256
    ∷ a / 2 ^ 16 % 256
    ∷ a / 2 ^ 8 % 256
    ∷ a % 256
    ∷ []

unfoldable pub hash_pair : ℕ → ℕ → ℕ
unfolding hash_bytes to_be_bytes
hash_pair a b = hash_bytes (to_be_bytes a ++ to_be_bytes b)

pub record AuditLog : Type 0 where
  pub leaves : List ℕ

unfoldable pub new : AuditLog
new = record { leaves = [] }

unfoldable pub append : AuditLog → Str → AuditLog
unfolding hash_bytes utf8
append log entry = record { leaves = log.leaves ++ hash_bytes (utf8 entry) ∷ [] }

-- The body of the outer loop: the pairs of a level, with an odd last node paired with itself.
unfoldable pub next_level : List ℕ → List ℕ
next_level [] = []
next_level (a ∷ []) = hash_pair a a ∷ []
next_level (a ∷ b ∷ rest) = hash_pair a b ∷ next_level rest

abbrev head? : List ℕ → Option ℕ
head? [] = none
head? (a ∷ rest) = some a

-- `while level.len() > 1`, on fuel, and then `level[0]`. `none` means that the fuel ran out.
unfoldable pub root_loop : ℕ → List ℕ → Option ℕ
root_loop zero level = none
root_loop (suc fuel) level =
    let rest = root_loop fuel (next_level level) in
    if ltb 1 (length level) then rest else head? level

unfoldable pub root : AuditLog → Option ℕ
root log = if is_empty log.leaves then some 0 else root_loop (length log.leaves) log.leaves

unfoldable pub is_log_empty : AuditLog → Bool
is_log_empty log = is_empty log.leaves

unfoldable pub len : AuditLog → ℕ
len log = length log.leaves
