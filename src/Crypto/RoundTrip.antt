-- ===== src/Crypto/RoundTrip.antt =====
-- What Encrypt of internal/crypto/crypto.go has made, Decrypt gives back under the same key.
use go_key_pool_system.Prelude.{
  ◌≡◌, ◌∙◌, refl, sym, ap, String, true, false, Option, none, some, List, [], ◌∷◌, ◌++◌, ltb, ◌==◌,
  length, length-append, take, drop, arith, Bool-cases, Option-cases, inl, inr,
}
use go_key_pool_system.Crypto.{
  Primitives, done, error, bad_key, key_length, no_cipher, no_nonce, with_key, seal_with, encrypt,
  open_with, decrypt,
}

module _ {A : Type 0} where
  take-append : (xs ys : List A) → take (length xs) (xs ++ ys) ≡ xs
  take-append [] ys = refl
  take-append (x ∷ xs) ys = ap (λ r. x ∷ r) (take-append xs ys)

  drop-append : (xs ys : List A) → drop (length xs) (xs ++ ys) ≡ ys
  drop-append [] ys = refl
  drop-append (x ∷ xs) ys = drop-append xs ys

-- What the two functions need of their primitives: decoding undoes encoding, a sealed text opens
-- under its key and nonce, and a text is its bytes.
pub record IsSound {Byte : Type 0} (lib : Primitives Byte) : Type 0 where
  pub hex : (bytes : List Byte) → lib.hex_decode (lib.hex_encode bytes) ≡ some bytes
  pub opens :
      (key nonce plain : List Byte) → lib.unseal key nonce (lib.seal key nonce plain) ≡ some plain
  pub text : (s : String) → lib.of_bytes (lib.to_bytes s) ≡ s

-- What comes of an encryption.
pub data Encrypted {Byte : Type 0} (lib : Primitives Byte) (nonce : Option (List Byte))
    (plaintext key_hex : String) : Type 0 where
  undecodable :
      lib.hex_decode key_hex ≡ none
      → encrypt lib nonce plaintext key_hex ≡ error bad_key
      → Encrypted lib nonce plaintext key_hex
  wrong_length :
      (key : List Byte)
      → lib.hex_decode key_hex ≡ some key
      → (length key == 32) ≡ false
      → encrypt lib nonce plaintext key_hex ≡ error key_length
      → Encrypted lib nonce plaintext key_hex
  refused :
      (key : List Byte)
      → lib.hex_decode key_hex ≡ some key
      → lib.takes_key key ≡ false
      → encrypt lib nonce plaintext key_hex ≡ error no_cipher
      → Encrypted lib nonce plaintext key_hex
  unseeded :
      nonce ≡ none
      → encrypt lib nonce plaintext key_hex ≡ error no_nonce
      → Encrypted lib nonce plaintext key_hex
  sealed :
      (key n : List Byte) (ciphertext : String)
      → lib.hex_decode key_hex ≡ some key
      → (length key == 32) ≡ true
      → nonce ≡ some n
      → encrypt lib nonce plaintext key_hex ≡ done ciphertext
      → decrypt lib ciphertext key_hex ≡ done plaintext
      → Encrypted lib nonce plaintext key_hex

module _ {Byte : Type 0} (lib : Primitives Byte) (sound : IsSound lib) where
  open_with-sealed :
      (key nonce : List Byte) (plaintext : String)
      → lib.takes_key key ≡ true
      → length nonce ≡ lib.nonce_size
      → open_with lib key (nonce ++ lib.seal key nonce (lib.to_bytes plaintext)) ≡ done plaintext
  unfolding open_with
  open_with-sealed key nonce plaintext takes size =
      let body : List Byte = lib.seal key nonce (lib.to_bytes plaintext) in
      let long : ltb (length (nonce ++ body)) lib.nonce_size ≡ false =
        ground (arith, length-append nonce body, size) in
      let first : take lib.nonce_size (nonce ++ body) ≡ nonce =
        ap (λ n. take n (nonce ++ body)) (sym size) ∙ take-append nonce body in
      let rest : drop lib.nonce_size (nonce ++ body) ≡ body =
        ap (λ n. drop n (nonce ++ body)) (sym size) ∙ drop-append nonce body in
      rw
        (
          takes,
          long,
          first,
          rest,
          sound.opens key nonce (lib.to_bytes plaintext),
          sound.text plaintext,
        )
        refl

  -- With sound primitives and a nonce of the cipher's size, Encrypt gives an error exactly where the
  -- key does not decode, is not 32 bytes long or is refused, or no nonce was read; otherwise it gives
  -- a text that Decrypt, under the same key, turns back into the plaintext.
  pub decrypt-encrypt :
      (nonce : Option (List Byte)) (plaintext key_hex : String)
      → ((n : List Byte) → nonce ≡ some n → length n ≡ lib.nonce_size)
      → Encrypted lib nonce plaintext key_hex
  unfolding encrypt with_key seal_with decrypt
  decrypt-encrypt nonce plaintext key_hex size = elim (Option-cases (lib.hex_decode key_hex)) [
    | inl e ↦ undecodable e (rw (encrypt, with_key, e) refl)
    | inr (key, e) ↦ elim (Bool-cases (length key == 32)) [
      | inr short ↦ wrong_length key e short (rw (encrypt, with_key, e, short) refl)
      | inl exact ↦ elim (Bool-cases (lib.takes_key key)) [
        | inr refuses ↦
            refused key e refuses (rw (encrypt, with_key, e, exact, seal_with, refuses) refl)
        | inl takes ↦ elim (Option-cases nonce) [
          | inl missing ↦
              unseeded missing (rw (encrypt, with_key, e, exact, seal_with, takes, missing) refl)
          | inr (n, there) ↦
              let whole : List Byte = n ++ lib.seal key n (lib.to_bytes plaintext) in
              sealed key n (lib.hex_encode whole) e exact there
                (rw (encrypt, with_key, e, exact, seal_with, takes, there) refl)
                (rw (decrypt, with_key, e, exact, sound.hex whole)
                  (open_with-sealed key n plaintext takes (size n there)))
        ]
      ]
    ]
  ]
