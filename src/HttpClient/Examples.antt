-- ===== src/HttpClient/Examples.antt =====
-- A server that answers 503, then breaks a body, then answers, and the theorems at it.
use octa.Common.{
  ℕ, zero, suc, ◌≤◌, true, Option, none, some, List, [], ◌∷◌, ◌≡◌, ◌⊎◌, refl, nat_eq, ltb, length,
  contains,
}
use octa.Text.{Str, str_eq, split}
use octa.BlobDescriptor.{BlobDescriptor, blob_eq, identity, validate_blob}
use octa.Digest.{blake3}
use octa.Circuit.{CircuitBreaker, permit, success, failure}
use octa.Circuit
use octa.HttpClient.{
  ok, and_then, bytes, broken, Response, Sent, responded, unbuilt, remote, HttpCachePolicy,
  is_retryable_status, backoff_ceiling, backoff, wait_retry, consumed, answered, attempt_loop,
  request_with_retry,
}
use octa.HttpClient.Body.{
  read_chunks, read_bounded, has_version, accept_response, accept_content_type, consume_metadata,
  stage_chunks, consume_blob, write_outcome, consume_write,
}
use octa.HttpClient.Calls.{
  settle, operate, FindMissingBlobsResponse, is_valid_response, missing_answer, action_answer,
  find_missing_blobs, get_action,
}
use octa.HttpClient.Answers.{body_of}
use octa.HttpClient.Blobs.{consume_blob-complete}
use octa.HttpClient.Remote.{find_missing_blobs_is_exact, get_action_is_bound}
use octa.HttpClient.Retries.{Decided, request_with_retry-Decided}

program : Unit {0}
unfolding and_then is_retryable_status backoff_ceiling backoff wait_retry consumed answered
    attempt_loop request_with_retry read_chunks read_bounded accept_response accept_content_type
    consume_metadata stage_chunks consume_blob write_outcome consume_write settle operate
    is_valid_response missing_answer action_answer find_missing_blobs get_action permit success
    failure split validate_blob
program = tt

abbrev policy : HttpCachePolicy
policy = record { max_retries = 2; retry_base_delay = 100_000_000; retry_max_delay = 2_000_000_000 }

abbrev full : ℕ → ℕ → ℕ
full attempt ceiling = ceiling

abbrev json : Str
json = b'j' ∷ []

abbrev answer : Response
answer = record {
  status = 200;
  version = some (b'1' ∷ []);
  content_type = some (b'J' ∷ b';' ∷ b'x' ∷ []);
  content_length = none;
  retry_after = none;
  body = bytes (1 ∷ 2 ∷ []) ∷ bytes (3 ∷ []) ∷ [];
}

abbrev busy : Response
busy = record answer { status = 503; retry_after = some 60 }

abbrev server : ℕ → Sent
server zero = responded busy
server (suc zero) = responded (record answer { body = bytes (1 ∷ []) ∷ broken true ∷ [] })
server (suc (suc n)) = responded answer

abbrev breaker : CircuitBreaker
breaker = Circuit.new 5 30

-- The hint of a minute is cut down to two seconds.
waits :
    (request_with_retry full policy (consume_metadata json 10 (200 ∷ [])) server).delays
    ≡ 2_000_000_000 ∷ 200_000_000 ∷ []
unfolding program
waits = refl

request_with_retry-Decided_example :
    Decided
      (consume_metadata json 10 (200 ∷ []))
      policy
      server
      3
      0
      (request_with_retry full policy (consume_metadata json 10 (200 ∷ [])) server)
request_with_retry-Decided_example =
    request_with_retry-Decided full policy (consume_metadata json 10 (200 ∷ [])) server

-- A request that cannot be built is not sent, and ends the operation.
unbuilt_request :
    (request_with_retry full policy
      (consume_metadata json 10 (200 ∷ []))
      (λ k. unbuilt remote)).requests
    ≡ 0
unfolding program
unbuilt_request = refl

abbrev blob : BlobDescriptor
blob = record {
  digest = record { algorithm = blake3; hash = []; size_bytes = 3 };
  encoding = identity;
  encoded_size_bytes = 3;
  expanded_size_bytes = 3;
  entry_count = 1;
}

consume_blob-complete_example :
    (has_version answer.version ≡ true)
    × ◌≡◌ {A = ℕ} 200 200
    × (body_of answer.body ≡ some (1 ∷ 2 ∷ 3 ∷ []))
    × ◌≡◌ {A = ℕ} 3 3
unfolding program
consume_blob-complete_example = consume_blob-complete json blob answer (1 ∷ 2 ∷ 3 ∷ []) refl

abbrev decode : List ℕ → Option FindMissingBlobsResponse
decode [] = none
decode (c ∷ cs) = some (record { protocol_version = 1; missing = blob ∷ [] })

found_missing :
    (find_missing_blobs 1000 full policy json breaker 0 1 none server 10 decode (blob ∷ [])).result
    ≡ ok (blob ∷ [])
unfolding program
found_missing = refl

find_missing_blobs_is_exact_example :
    (k : ℕ) × (r : Response) × (body : List ℕ) × (reply : FindMissingBlobsResponse) × (server k
      ≡ responded r)
    × (has_version r.version ≡ true)
    × (r.status ≡ 200)
    × (body_of r.body ≡ some body)
    × (length body ≤ 10)
    × (decode body ≡ some reply)
    × ((x : BlobDescriptor) → contains (blob ∷ []) x ≡ contains reply.missing x)
find_missing_blobs_is_exact_example =
    find_missing_blobs_is_exact 1000 full policy json breaker 0 1 none server 10 decode (blob ∷ [])
      (blob ∷ []) found_missing

abbrev decode_action : List ℕ → Option ℕ
decode_action [] = none
decode_action (c ∷ cs) = some (length (c ∷ cs))

got_action :
    (get_action 1000 full policy json breaker 0 1 none server 10 decode_action
      (ltb 2)
      (λ n. n)
      3).result
    ≡ ok (some 3)
unfolding program
got_action = refl

get_action_is_bound_example :
    (k : ℕ) × (r : Response) × (server k ≡ responded r)
    × (has_version r.version ≡ true)
    × (((r.status ≡ 404) × ◌≡◌ {A = Option ℕ} (some 3) none)
        ⊎ ((body : List ℕ) × (x : ℕ) × (r.status ≡ 200)
            × (body_of r.body ≡ some body)
            × (length body ≤ 10)
            × (decode_action body ≡ some x)
            × (some 3 ≡ some x)
            × (ltb 2 x ≡ true)
            × (x ≡ 3)))
get_action_is_bound_example =
    get_action_is_bound 1000 full policy json breaker 0 1 none server 10 decode_action (ltb 2)
      (λ n. n) 3 (some 3) got_action
