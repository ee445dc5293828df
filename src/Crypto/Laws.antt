-- ===== src/Crypto/Laws.antt =====
-- What is encrypted can be read again: encrypt.go.
use crew_im.Prelude.{
  String, ◌≡◌, refl, sym, ap, ◌∙◌, inl, inr, true, false, some, ◌++◌, arith, ltb, Bool-cases,
  length, length-append, Bytes, ok, err, take-append, drop-append,
}
use crew_im.Crypto.{Ciphers, derive_key, encrypt, decrypt, decrypt_data, opened}

-- What the packages promise: opening undoes sealing, and decoding undoes encoding.
pub record IsCipher (c : Ciphers) : Type 0 where
  pub opens : (key nonce s : Bytes) → c.open_sealed key nonce (c.seal key nonce s) ≡ some s
  pub decodes : (bytes : Bytes) → c.decode (c.encode bytes) ≡ some bytes

module _ (c : Ciphers) (law : IsCipher c) (key nonce s : Bytes) (size : length nonce ≡ c.nonce_size)
    (good : c.takes_key key ≡ true) where
  long_enough : ltb (length (nonce ++ c.seal key nonce s)) c.nonce_size ≡ false
  long_enough = ground (arith, length-append nonce (c.seal key nonce s))

  decrypt_data-sealed : decrypt_data c key (some (nonce ++ c.seal key nonce s)) ≡ ok s
  unfolding decrypt_data opened
  decrypt_data-sealed =
      rw (good, long_enough)
        (rw (← size) (
          rw (take-append nonce (c.seal key nonce s), drop-append nonce (c.seal key nonce s))
            (rw (law.opens key nonce s) refl)))

-- With the same passphrase, and whatever nonce of the right size was drawn, a text that was encrypted
-- is what its decryption gives.
pub decrypt-encrypt :
    (c : Ciphers) (nonce s : Bytes) (passphrase : String) (e : Bytes)
    → IsCipher c
    → length nonce ≡ c.nonce_size
    → encrypt c (some nonce) s passphrase ≡ ok e
    → decrypt c e passphrase ≡ ok s
unfolding encrypt decrypt
decrypt-encrypt c nonce s passphrase e law size h =
    elim (Bool-cases (c.takes_key (derive_key c passphrase))) [
      | inl good ↦
          let key = derive_key c passphrase in
          let made : c.encode (nonce ++ c.seal key nonce s) ≡ e =
            let k : ok (c.encode (nonce ++ c.seal key nonce s)) ≡ ok e = rw good at h in cc in
          ap (decrypt_data c key)
            (ap c.decode (sym made) ∙ law.decodes (nonce ++ c.seal key nonce s))
          ∙ decrypt_data-sealed c law key nonce s size good
      | inr bad ↦ let no : err "cipher" ≡ ok e = rw bad at h in cc
    ]
