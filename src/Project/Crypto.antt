-- ===== src/Project/Crypto.antt =====
-- internal/platform/crypto/aesgcm.go. A string of bytes is a text; AES-GCM itself is a parameter.
use Prim.Native.String.{len}
use guard_pipe.Prelude.{ℕ, ◌≡◌, refl, true, not, Option, none, some, ◌==◌, String}
use guard_pipe.Errors.{Result, ok, err, internal_error, ◌>>◌, refuse_if}

-- `Seal` and `Open` of a key, a nonce and a text; `Open` may refuse.
pub record Aead : Type 0 where
  pub seal : String → String → String → String
  pub unseal : String → String → String → Option String

-- The documented contract of an AEAD: what was sealed opens under the same key and nonce.
abbrev pub Opens : Aead → Type 0
Opens c = (key nonce text : String) → c.unseal key nonce (c.seal key nonce text) ≡ some text

abbrev pub key_size : ℕ
key_size = 32

abbrev pub nonce_size : ℕ
nonce_size = 12

-- `newGCM`: AES-256 takes no other key.
unfoldable pub check_key : String → Result (Unit {0})
check_key key = refuse_if (not (len key == key_size)) internal_error

-- The ciphertext and the nonce, which is what the random source gave; it may fail.
unfoldable pub encrypt : Aead → Option String → String → String → Result (String × String)
encrypt c random key text =
    check_key key
    >> elim random [ none ↦ err internal_error | some nonce ↦ ok (c.seal key nonce text, nonce) ]

unfoldable pub decrypt : Aead → String → String → String → Result String
decrypt c key sealed nonce =
    check_key key
    >> refuse_if (not (len nonce == nonce_size)) internal_error
    >> elim (c.unseal key nonce sealed) [ none ↦ err internal_error | some text ↦ ok text ]

-- With a key and a nonce of the right sizes, what was encrypted is decrypted.
pub encrypt-decrypt :
    (c : Aead)
    → Opens c
    → (key nonce text : String) → (len key == key_size) ≡ true
    → (len nonce == nonce_size) ≡ true
    → (encrypt c (some nonce) key text ≡ ok (c.seal key nonce text, nonce))
      × (decrypt c key (c.seal key nonce text) nonce ≡ ok text)
unfolding encrypt decrypt check_key
encrypt-decrypt c opens key nonce text whole sized =
    (rw whole refl, rw (whole, sized, opens key nonce text) refl)
