-- ===== src/Sync/E2ee/Keystream.antt =====
-- What the keystream of the stand-in cipher depends on.
use b_browser.Prelude.{List, [], ap, arith, refl, sym, ℕ, ◌%◌, ◌*◌, ◌++◌, ◌+◌, ◌∙◌, ◌∷◌, ◌≡◌}
use Prim.Native.Nat.{bit_xor}
use b_browser.Prelude.Bits.{xor-mod}
use b_browser.Prelude.Fnv.{fnv_offset, fnv_step, fnv_from, fnv_prime}
use b_browser.Sync.E2ee.Sealing.{open-seal}
use b_browser.Sync.E2ee.{UserKey, keystream, xor_from, seal, open_record}

-- The state that a key and a nonce leave.
abbrev pub state : UserKey → List ℕ → ℕ
state key nonce = fnv_from fnv_offset (key.bytes ++ nonce)

step_low : (h i : ℕ) → fnv_step h i % 256 ≡ bit_xor (h % 256) (i % 256) * fnv_prime % 256
unfolding fnv_step
step_low h i = omega (arith, xor-mod 8 h i)

-- Keys and nonces whose states agree modulo 256 have one keystream.
pub keystream_of_state :
    (key key' : UserKey) (nonce nonce' : List ℕ) (i : ℕ)
    → state key nonce % 256 ≡ state key' nonce' % 256
    → keystream key nonce i ≡ keystream key' nonce' i
unfolding keystream
keystream_of_state key key' nonce nonce' i e =
    step_low (state key nonce) i
    ∙ ap (λ t. bit_xor t (i % 256) * fnv_prime % 256) e
    ∙ sym (step_low (state key' nonce') i)

-- The keystream repeats every 256 bytes.
pub keystream_periodic :
    (key : UserKey) (nonce : List ℕ) (i : ℕ) → keystream key nonce (i + 256) ≡ keystream key nonce i
unfolding keystream
keystream_periodic key nonce i =
    let same : (i + 256) % 256 ≡ i % 256 = omega arith in
    step_low (state key nonce) (i + 256)
    ∙ ap (λ t. bit_xor (state key nonce % 256) t * fnv_prime % 256) same
    ∙ sym (step_low (state key nonce) i)

xor_from_of_state :
    (key key' : UserKey) (nonce : List ℕ) (i : ℕ) (bytes : List ℕ)
    → state key nonce % 256 ≡ state key' nonce % 256
    → xor_from key nonce i bytes ≡ xor_from key' nonce i bytes
unfolding xor_from
xor_from_of_state key key' nonce i [] e = refl
xor_from_of_state key key' nonce i (b ∷ rest) e =
    cc
      (keystream_of_state key key' nonce nonce i e, xor_from_of_state key key' nonce (i + 1) rest e)

-- A record opens under every key whose state with its nonce agrees with the sealing key's modulo
-- 256: of 256 keys with different such states, one opens it.
pub open-seal_other :
    (key key' : UserKey) (nonce plaintext : List ℕ)
    → state key nonce % 256 ≡ state key' nonce % 256
    → open_record key' (seal key nonce plaintext) ≡ plaintext
unfolding open_record seal
open-seal_other key key' nonce plaintext e =
    sym (xor_from_of_state key key' nonce 0 (xor_from key nonce 0 plaintext) e)
    ∙ open-seal key nonce plaintext
