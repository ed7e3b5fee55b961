-- ===== src/Tests/Storage.antt =====
-- Runs of internal/db/migrations.go and internal/crypto/crypto.go at concrete inputs: a script is
-- appended to a text, and a cipher that leaves the text as it is, over bytes that are characters. Then two
-- calls of internal/metrics/metrics.go.
use Prim.Native.Char.{Char}
use go_key_pool_system.Prelude.{
  ◌≡◌, refl, ap, String, true, none, some, List, [], ◌∷◌, ◌++◌, inr, length, arith,
}
use go_key_pool_system.Prelude.Int.{pos}
use go_key_pool_system.Crypto.{Primitives}
use go_key_pool_system.Crypto.RoundTrip.{IsSound, Encrypted, decrypt-encrypt}
use go_key_pool_system.Metrics.{
  Metrics, new, started, look_up, create, Reach, here, next, calls_it, reads, writes, count_of,
}
use go_key_pool_system.Metrics.Phases.{recorded}
use go_key_pool_system.Metrics.Counted.{Reach-counted}
use go_key_pool_system.Db.Migrations.{
  Migration, Driver, Schema, run_migrations, execute_pending, execute_migration,
}
use go_key_pool_system.Db.Migrations.Twice.{scripts, run_migrations_twice}
use go_key_pool_system.Db.Migrations.Records.{pending, records}
use Prim.Native.String.{[] as no_text, ◌∷◌ as cons}

abbrev encode : List Char → String
encode [] = ""
encode (c ∷ cs) = cons c (encode cs)

abbrev decode : String → List Char
decode no_text = []
decode (cons c cs) = c ∷ decode cs

decode-encode : (cs : List Char) → decode (encode cs) ≡ cs
decode-encode [] = refl
decode-encode (c ∷ cs) = ap (λ r. c ∷ r) (decode-encode cs)

encode-decode : (s : String) → encode (decode s) ≡ s
encode-decode no_text = refl
encode-decode (cons c cs) = ap (λ r. cons c r) (encode-decode cs)

abbrev plain_cipher : Primitives Char
plain_cipher = record {
  hex_encode = encode;
  hex_decode = λ s. some (decode s);
  takes_key = λ key. true;
  nonce_size = 0;
  seal = λ key nonce text. text;
  unseal = λ key nonce text. some text;
  to_bytes = decode;
  of_bytes = encode;
}

plain_cipher-IsSound : IsSound plain_cipher
plain_cipher-IsSound = record {
  hex = λ bytes. ap some (decode-encode bytes);
  opens = λ key nonce plain. refl;
  text = encode-decode;
}

no_nonce_bytes : (n : List Char) → some [] ≡ some n → length n ≡ 0
no_nonce_bytes n e = ground (arith, e)

decrypt-encrypt_example :
    Encrypted plain_cipher (some []) "secret" "0123456789abcdef0123456789abcdef"
decrypt-encrypt_example =
    decrypt-encrypt plain_cipher plain_cipher-IsSound (some []) "secret"
      "0123456789abcdef0123456789abcdef" no_nonce_bytes

abbrev first : Migration
first = record {
  version = pos 1;
  name = "create_api_keys";
  filename = "001_create_api_keys.sql";
  sql = "CREATE";
}

abbrev driver : Driver (List String)
driver = record {
  creates = true;
  reads = true;
  begins = λ m. true;
  commits = λ m. true;
  executes = λ sql done. some (done ++ sql ∷ []);
}

abbrev empty : Schema (List String)
empty = record { applied = []; rest = [] }

runs : (run_migrations driver (inr (first ∷ [])) empty).0 ≡ none
unfolding run_migrations execute_pending execute_migration
runs = refl

run_migrations_twice_example :
    ((run_migrations driver (inr (first ∷ [])) empty).1.applied
      ≡ [] ++ records (pending [] (first ∷ [])))
    × (scripts driver (pending [] (first ∷ [])) []
        ≡ some (run_migrations driver (inr (first ∷ [])) empty).1.rest)
    × (run_migrations driver (inr (first ∷ [])) (run_migrations driver (inr (first ∷ [])) empty).1
        ≡ (none, (run_migrations driver (inr (first ∷ [])) empty).1))
run_migrations_twice_example = run_migrations_twice driver driver (first ∷ []) empty runs refl refl

-- Two calls for one code both find no counter: the second one to lock finds the first one's.
abbrev both_read : Metrics
both_read = look_up (look_up (record new { calls = started 200 ∷ started 200 ∷ [] }) 0 200) 1 200

abbrev raced : Metrics
raced = create (create both_read 0 200) 1 200

raced-Reach : Reach raced
unfolding new look_up create
raced-Reach =
    next
      (next
        (next (next (next (next here (calls_it 200)) (calls_it 200)) (reads 0 200 refl))
          (reads 1 200 refl))
        (writes 0 200 refl))
      (writes 1 200 refl)

Reach-counted_example : count_of raced 200 ≡ recorded 200 raced.calls
Reach-counted_example = Reach-counted raced raced-Reach 200
