-- ===== src/Crypto.antt =====
-- `Encrypt` and `Decrypt` of server/internal/crypto/encrypt.go. SHA-256, AES-GCM and base64 are the
-- standard library's, and parameters.
pub mod Laws
use crew_im.Prelude.{
  ℕ, zero, suc, ◌+◌, ◌-◌, ◌*◌, ◌/◌, ◌%◌, ◌≤◌, ◌<◌, String, ◌≡◌, refl, sym, ap, ◌∙◌, ◌≢◌, ◌↔◌, ◌⊎◌,
  inl, inr, Bool, true, false, ◌&&◌, ◌||◌, not, Option, none, some, List, [], ◌∷◌, ◌++◌, map, arith,
  ltb, leb, ◌==◌, if◌then◌else◌, ltb→lt, lt→ltb, leb→le, ==_iff, Bool-cases, Option-cases, All,
  length, take, last?, keep, length-append, last?-append, length-keep-le, All-append, All-keep,
  All-map, Bytes, bytes_eq, bytes_eq_iff, bytes_eq_refl, eq_of_bytes_eq, bytes_ne, is_empty, join,
  ◌<>◌, decimal, str_eq, str_eq_iff, trim_space, trim_prefix, trim_suffix, Result, ok, err, drop,
}

pub record Ciphers : Type 0 where
  pub sha256 : String → Bytes
  -- `aes.NewCipher` and `cipher.NewGCM`: whether they take a key
  pub takes_key : Bytes → Bool
  pub nonce_size : ℕ
  -- `Seal` and `Open` with no additional data: key, nonce, text
  pub seal : Bytes → Bytes → Bytes → Bytes
  pub open_sealed : Bytes → Bytes → Bytes → Option Bytes
  -- base64
  pub encode : Bytes → Bytes
  pub decode : Bytes → Option Bytes

unfoldable pub derive_key : Ciphers → String → Bytes
derive_key c passphrase = c.sha256 passphrase

-- `nonce` is what `io.ReadFull(rand.Reader, nonce)` filled in, or its error.
sealed : Ciphers → Bytes → Option Bytes → Bytes → Result Bytes
sealed c key none plaintext = err "nonce"
sealed c key (some nonce) plaintext = ok (c.encode (nonce ++ c.seal key nonce plaintext))

unfoldable pub encrypt : Ciphers → Option Bytes → Bytes → String → Result Bytes
unfolding sealed derive_key
encrypt c nonce plaintext passphrase =
    let key = derive_key c passphrase in
    if not (c.takes_key key) then err "cipher" else sealed c key nonce plaintext

opened : Option Bytes → Result Bytes
opened none = err "decrypt"
opened (some s) = ok s

decrypt_data : Ciphers → Bytes → Option Bytes → Result Bytes
unfolding opened
decrypt_data c key none = err "base64"
decrypt_data c key (some bytes) =
    if not (c.takes_key key)
    then err "cipher"
    else if ltb (length bytes) c.nonce_size
    then err "ciphertext too short"
    else opened (c.open_sealed key (take c.nonce_size bytes) (drop c.nonce_size bytes))

unfoldable pub decrypt : Ciphers → Bytes → String → Result Bytes
unfolding decrypt_data derive_key
decrypt c encoded passphrase = decrypt_data c (derive_key c passphrase) (c.decode encoded)
