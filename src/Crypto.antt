-- ===== src/Crypto.antt =====
-- internal/crypto/crypto.go. The primitives of crypto/aes, crypto/cipher, crypto/rand and
-- encoding/hex are given, over a type of bytes; an error is named by the step that failed.
pub mod RoundTrip
use go_key_pool_system.Prelude.{
  ◌≡◌, ℕ, String, Bool, Option, none, some, List, ◌++◌, ltb, not, ◌==◌, if◌then◌else◌, length, take,
  drop,
}

pub record Primitives (Byte : Type 0) : Type 0 where
  pub hex_encode : List Byte → String
  pub hex_decode : String → Option (List Byte)
  -- Whether aes.NewCipher and cipher.NewGCM take the key.
  pub takes_key : List Byte → Bool
  pub nonce_size : ℕ
  -- Seal and Open without additional data: the key, the nonce and the text.
  pub seal : List Byte → List Byte → List Byte → List Byte
  pub unseal : List Byte → List Byte → List Byte → Option (List Byte)
  -- []byte(s) and string(b)
  pub to_bytes : String → List Byte
  pub of_bytes : List Byte → String

pub data CryptoError : Type 0 where
  bad_key key_length no_cipher no_nonce bad_ciphertext too_short not_authentic : CryptoError

pub data Result : Type 0 where
  done : String → Result
  error : CryptoError → Result

module _ {Byte : Type 0} (lib : Primitives Byte) where
  -- The key of both functions, checked, and what is done with it.
  unfoldable pub with_key : String → (List Byte → Result) → Result
  with_key key_hex use_key = elim (lib.hex_decode key_hex) [
    | none ↦ error bad_key
    | some key ↦ if not (length key == 32) then error key_length else use_key key
  ]

  -- From the nonce on: `nonce` is what io.ReadFull has read, or nothing.
  unfoldable pub seal_with : Option (List Byte) → String → List Byte → Result
  seal_with nonce plaintext key = if not (lib.takes_key key) then error no_cipher else elim nonce [
    | none ↦ error no_nonce
    | some n ↦ done (lib.hex_encode (n ++ lib.seal key n (lib.to_bytes plaintext)))
  ]

  unfoldable pub encrypt : Option (List Byte) → String → String → Result
  encrypt nonce plaintext key_hex = with_key key_hex (seal_with nonce plaintext)

  -- From the decoded ciphertext on.
  unfoldable pub open_with : List Byte → List Byte → Result
  open_with key ciphertext =
      if not (lib.takes_key key)
      then error no_cipher
      else if ltb (length ciphertext) lib.nonce_size
      then error too_short
      else elim (lib.unseal key (take lib.nonce_size ciphertext) (drop lib.nonce_size ciphertext)) [
        | none ↦ error not_authentic
        | some plaintext ↦ done (lib.of_bytes plaintext)
      ]

  unfoldable pub decrypt : String → String → Result
  decrypt ciphertext_hex key_hex = with_key key_hex (λ key. elim (lib.hex_decode ciphertext_hex) [
    | none ↦ error bad_ciphertext
    | some ciphertext ↦ open_with key ciphertext
  ])
