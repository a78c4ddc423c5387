-- ===== src/HttpClient/Calls.antt =====
-- crates/octa-cache-http/src/client.rs: the operations of the client, from the circuit breaker to the
-- answer. `decode` is the JSON decoding of a body.
use octa.Common.{
  ℕ, Bool, true, false, not, ◌&&◌, Option, none, some, List, [], ◌∷◌, Eq, ◌==◌, nat_eq, leb,
  if◌then◌else◌, length, contains, filter, all,
}
use octa.Text.{Str}
use octa.BlobDescriptor.{BlobDescriptor, blob_eq, ValidateResult, validate_blob}
use octa.BlobDescriptor
use octa.ActionResult.{max_cache_list_items}
use octa.Circuit.{CircuitPermit, CircuitBreaker, Permission, permit, success, failure}
use octa.Circuit
use octa.HttpClient.{
  CacheError, remote, cancelled, temporary_file, protocol, circuit_open, panicked, CacheResult, ok,
  err, and_then, Sent, HttpCachePolicy, Trace, request_with_retry,
}
use octa.HttpClient.Body.{consume_metadata}

abbrev pub remote_cache_protocol_v1 : ℕ
remote_cache_protocol_v1 = 1

abbrev pub ok_status : ℕ
ok_status = 200

abbrev pub not_found : ℕ
not_found = 404

-- `run_operation`: what an operation does to the circuit when it ends at `now`.
unfoldable pub settle :
    {A : Type 0} (instant_max : ℕ)
    → CircuitBreaker
    → CircuitPermit
    → (now : ℕ) → CacheResult A
    → CircuitBreaker
settle instant_max c p now (ok a) = success c p
settle instant_max c p now (err remote) = failure instant_max c p now
settle instant_max c p now (err cancelled) = c
settle instant_max c p now (err temporary_file) = c
settle instant_max c p now (err protocol) = c
settle instant_max c p now (err circuit_open) = c
settle instant_max c p now (err panicked) = c

pub record Called (A : Type 0) : Type 0 where
  pub result : CacheResult A
  pub circuit : CircuitBreaker
  -- The requests sent, at most.
  pub requests : ℕ

-- A cancellation or the deadline, where one of them comes first.
abbrev pub or_interrupted : {A : Type 0} → Option CacheError → CacheResult A → CacheResult A
or_interrupted none r = r
or_interrupted (some e) r = err e

-- An operation from `start_operation` at `start` to its end at `now`; `trace` is its requests and
-- `finish` what it makes of their result.
unfoldable pub operate :
    {A B : Type 0} (instant_max : ℕ)
    → CircuitBreaker
    → (start now : ℕ) → Option CacheError
    → Trace A
    → (A → CacheResult B)
    → Called B
operate instant_max c start now interrupt trace finish =
    let (permission, entered) = permit c start in
    elim permission [
      | Circuit.err _ ↦ record { result = err circuit_open; circuit = entered; requests = 0 }
      | Circuit.ok p ↦
          let result = or_interrupted interrupt (and_then trace.result finish) in
          record {
            result = result;
            circuit = settle instant_max entered p now result;
            requests = trace.requests;
          }
    ]

pub record FindMissingBlobsResponse : Type 0 where
  pub protocol_version : ℕ
  pub missing : List BlobDescriptor

abbrev is_valid_blob : BlobDescriptor → Bool
is_valid_blob b = elim (validate_blob b) [ BlobDescriptor.ok ↦ true | BlobDescriptor.err e ↦ false ]

unfoldable pub is_valid_response : FindMissingBlobsResponse → Bool
is_valid_response r =
    r.protocol_version == remote_cache_protocol_v1
    && leb (length r.missing) max_cache_list_items
    && all is_valid_blob r.missing

-- Whether a list has as many members as its set.
abbrev pub are_distinct : List BlobDescriptor → Bool
are_distinct [] = true
are_distinct (b ∷ bs) = not (contains bs b) && are_distinct bs

-- The end of `find_missing_blobs`.
unfoldable pub missing_answer :
    (decode : List ℕ → Option FindMissingBlobsResponse)
    → (blobs : List BlobDescriptor) → ℕ × List ℕ
    → CacheResult (List BlobDescriptor)
missing_answer decode blobs (status, body) = elim (decode body) [
  | none ↦ err remote
  | some r ↦
      if not (is_valid_response r)
      then err remote
      else if not (are_distinct r.missing && all (contains blobs) r.missing)
      then err remote
      else ok (filter (contains r.missing) blobs)
]

-- The end of `get_action`; `action_of` is the digest that a record is bound to.
unfoldable pub action_answer :
    {R D : Type 0} ⦃e : Eq D⦄ (decode : List ℕ → Option R)
    → (is_valid : R → Bool) → (R → D)
    → D
    → ℕ × List ℕ
    → CacheResult (Option R)
action_answer decode is_valid action_of action (status, body) =
    if status == not_found then ok none else elim (decode body) [
      | none ↦ err remote
      | some r ↦
          if not (is_valid r)
          then err remote
          else if not (action_of r == action)
          then err remote
          else ok (some r)
    ]

module _ (instant_max : ℕ) (random : ℕ → ℕ → ℕ) (p : HttpCachePolicy) (json : Str)
    (c : CircuitBreaker) (start now : ℕ) (interrupt : Option CacheError) (server : ℕ → Sent) where
  unfoldable pub find_missing_blobs :
      (limit : ℕ)
      → (decode : List ℕ → Option FindMissingBlobsResponse) → List BlobDescriptor
      → Called (List BlobDescriptor)
  find_missing_blobs limit decode blobs =
      operate instant_max c start now interrupt
        (request_with_retry random p (consume_metadata json limit (ok_status ∷ [])) server)
        (missing_answer decode blobs)

  unfoldable pub get_action :
      {R D : Type 0} ⦃e : Eq D⦄ (limit : ℕ)
      → (decode : List ℕ → Option R) → (is_valid : R → Bool) → (R → D)
      → D
      → Called (Option R)
  get_action limit decode is_valid action_of action =
      operate instant_max c start now interrupt
        (request_with_retry random p (consume_metadata json limit (ok_status ∷ not_found ∷ []))
          server)
        (action_answer decode is_valid action_of action)
