-- ===== src/Http/Tests.antt =====
-- Examples for the HTTP gateway.
use kms_golang.Base.{
  Run, here, next, steps, ◌≤◌, ℕ, ◌+◌, Bytes, List, [], ◌∷◌, none, some, String, Error, codes,
  bytes_eq, Enumerates, map, length, ◌≡◌, refl, arith, inl,
}
use kms_golang.Fixtures.{toy_client, toy_client-IsClient, toy_world, later_world}
use kms_golang.Go.Base64
use kms_golang.Go.Strings.{has_prefix, trim_space}
use kms_golang.Kms.Format.{combine_nonce_and_ciphertext, split_nonce_and_ciphertext}
use kms_golang.Proto
use kms_golang.Http.{
  EncryptRequest, HttpServer, decrypted, batch, respond_ok, create_context, encoded,
  decrypt_handler,
}
use kms_golang.Http.Single.{combined, decrypt_handler-combine}
use kms_golang.Http.Batch.{Outcome, batch_encrypt_handler}
use kms_golang.Http.Batch.Pool.{Pool, Step, take, finish, filled, ended, Run_answers}
use kms_golang.Http.Batch.Answer.{successes, batch_encrypt_handler-Run}

abbrev gateway : HttpServer (Unit {0})
gateway = record { grpc_client = toy_client; token = codes "own" }

abbrev text : Bytes
text = codes "4111"

abbrev answer : Proto.EncryptResponse
answer = record { ciphertext = text; nonce = codes "nonce 000001" }

abbrev to_encrypt : EncryptRequest
to_encrypt = record { plaintext = text; key_id = [] }

text_decrypted :
    decrypt_handler gateway []
      (some (record {
        ciphertext = (encoded answer).ciphertext;
        nonce = (encoded answer).nonce;
        encrypted = [];
        key_id = [];
      }))
      later_world
    ≡ (respond_ok (decrypted text), later_world)
unfolding decrypt_handler Base64.decode Base64.encode Base64.digit bytes_eq
text_decrypted = refl

abbrev called : Proto.EncryptRequest
called = record { plaintext = text; key_id = [] }

combined_decrypted :
    decrypt_handler gateway [] (some (combined gateway answer)) later_world
    ≡ (respond_ok (decrypted text), later_world)
unfolding decrypt_handler split_nonce_and_ciphertext combine_nonce_and_ciphertext Base64.decode
    Base64.encode Base64.digit bytes_eq
combined_decrypted = refl

decrypt_handler-combine_example : text ≡ called.plaintext
decrypt_handler-combine_example =
    decrypt_handler-combine gateway toy_client-IsClient none [] called answer text toy_world
      toy_world later_world later_world refl combined_decrypted

-- The gateway's own token.
abbrev forwarded : String → List Bytes
forwarded key = codes "Bearer own" ∷ []

own_forwarded : create_context (codes "own") (codes "bearer x") ≡ some (codes "Bearer own")
unfolding create_context bytes_eq has_prefix
own_forwarded = refl

own_trimmed : trim_space (codes "own") ≡ codes "own"
unfolding trim_space
own_trimmed = refl

-- A batch of two items whose calls end in the other order.
abbrev outcome : ℕ → Outcome
outcome i = inl answer

abbrev one_taken : Pool
one_taken = record { queue = 1 ∷ []; busy = 0 ∷ []; done = [] }

abbrev both_taken : Pool
both_taken = record { queue = []; busy = 1 ∷ 0 ∷ []; done = [] }

abbrev second_ended : Pool
second_ended = record { queue = []; busy = 0 ∷ []; done = (1, inl answer) ∷ [] }

abbrev all_ended : Pool
all_ended = record { queue = []; busy = []; done = (1, inl answer) ∷ (0, inl answer) ∷ [] }

abbrev crossed : Run (Step 2 outcome) (filled 2) all_ended
crossed =
    next {q = second_ended}
      (next {q = both_taken}
        (next {q = one_taken} (next {q = filled 2} here (take 0 (1 ∷ []) refl (omega arith) refl))
          (take 1 [] refl (omega arith) refl))
        (finish [] 1 (0 ∷ []) refl refl))
      (finish [] 0 [] refl refl)

-- Both calls are under way.
abbrev under_way : Run (Step 2 outcome) (filled 2) both_taken
under_way =
    next {q = one_taken} (next {q = filled 2} here (take 0 (1 ∷ []) refl (omega arith) refl))
      (take 1 [] refl (omega arith) refl)

Run_answers_example :
    (last : Pool) × (rest : Run (Step 2 outcome) both_taken last) × (steps under_way + steps rest
      ≤ 4)
    × Enumerates (ended last) 2
    × (last.done ≡ map (λ i. (i, outcome i)) (ended last))
Run_answers_example = Run_answers 2 outcome 2 under_way (omega arith)

abbrev items : List EncryptRequest
items = to_encrypt ∷ to_encrypt ∷ []

batch_encrypt_handler-Run_example :
    (errors : List Error) × (batch_encrypt_handler (some items) all_ended.done
      ≡ respond_ok (batch (successes outcome 0 2) errors))
    × (length (successes outcome 0 2) + length errors ≡ 2)
batch_encrypt_handler-Run_example =
    batch_encrypt_handler-Run outcome (λ i. ground arith) items (omega arith) (omega arith) crossed
      refl
