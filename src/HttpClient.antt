-- ===== src/HttpClient.antt =====
-- crates/octa-cache-http/src/transport.rs and the retry policy of crates/octa-cache-http/src/client.rs.
-- `reqwest` is what a server answers to each request in turn: an error before a response, or a
-- response with the chunks of its body. A duration is a number of nanoseconds. `random` is the choice
-- of `fastrand` for an attempt, in milliseconds up to the bound it is given.
pub mod Body
pub mod Calls
pub mod Retries
pub mod Answers
pub mod Remote
pub mod Blobs
mod Examples
use octa.Common.{
  ℕ, zero, suc, ◌+◌, ◌-◌, ◌*◌, ◌/◌, ◌^◌, Bool, true, false, not, ◌&&◌, ◌||◌, Option, none, some,
  List, [], ◌∷◌, ◌==◌, nat_eq, leb, if◌then◌else◌,
}
use octa.Text.{Str}

pub data CacheError : Type 0 where
  remote cancelled temporary_file protocol circuit_open : CacheError
  -- The loop's `unreachable!`.
  panicked : CacheError

pub data CacheResult (A : Type 0) : Type 0 where
  ok : A → CacheResult A
  err : CacheError → CacheResult A

-- `?`.
unfoldable pub and_then : {A B : Type 0} → CacheResult A → (A → CacheResult B) → CacheResult B
and_then (ok a) k = k a
and_then (err e) k = err e

-- A chunk of a body, or an error of the transport and whether it may be retried.
pub data Chunk : Type 0 where
  bytes : List ℕ → Chunk
  broken : (retryable : Bool) → Chunk

pub record Response : Type 0 where
  pub status : ℕ
  -- The value of the protocol header.
  pub version : Option Str
  pub content_type : Option Str
  pub content_length : Option ℕ
  -- `Retry-After`, as far as it is a number of seconds.
  pub retry_after : Option ℕ
  pub body : List Chunk

pub data Sent : Type 0 where
  failed : (retryable : Bool) → Sent
  responded : Response → Sent
  -- The request could not be built.
  unbuilt : CacheError → Sent

pub record HttpCachePolicy : Type 0 where
  pub max_retries : ℕ
  pub retry_base_delay : ℕ
  pub retry_max_delay : ℕ

pub data Attempt (A : Type 0) : Type 0 where
  complete : A → Attempt A
  retry : CacheError → Attempt A

-- How an operation ended, and the delays before its second and later requests.
pub record Trace (A : Type 0) : Type 0 where
  pub result : CacheResult A
  pub requests : ℕ
  pub delays : List ℕ

abbrev pub min : ℕ → ℕ → ℕ
min a b = if leb a b then a else b

unfoldable pub is_retryable_status : ℕ → Bool
is_retryable_status status =
    status == 408
    || status == 425
    || status == 429
    || status == 500
    || status == 502
    || status == 503
    || status == 504

abbrev pub second : ℕ
second = 1_000_000_000

abbrev pub millisecond : ℕ
millisecond = 1_000_000

-- `Duration::MAX`.
abbrev pub duration_max : ℕ
duration_max = (2 ^ 64 - 1) * second + 999_999_999

unfoldable pub backoff_ceiling : HttpCachePolicy → ℕ → ℕ
backoff_ceiling p attempt =
    min (min (p.retry_base_delay * 2 ^ min attempt 31) duration_max) p.retry_max_delay

unfoldable pub backoff : (random : ℕ → ℕ → ℕ) → HttpCachePolicy → ℕ → ℕ
backoff random p attempt =
    let ceiling = backoff_ceiling p attempt in
    if ceiling == 0
    then 0
    else random attempt (min (ceiling / millisecond) (2 ^ 64 - 1)) * millisecond

unfoldable pub wait_retry : HttpCachePolicy → ℕ → ℕ
wait_retry p delay = min delay p.retry_max_delay

abbrev pub once : {A : Type 0} → CacheResult A → Trace A
once r = record { result = r; requests = 1; delays = [] }

-- An operation that ended with an attempt that sent no request.
abbrev pub unsent : {A : Type 0} → CacheError → Trace A
unsent e = record { result = err e; requests = 0; delays = [] }

abbrev pub after_wait : {A : Type 0} → ℕ → Trace A → Trace A
after_wait delay t = record {
  result = t.result;
  requests = suc t.requests;
  delays = delay ∷ t.delays;
}

module _ {A : Type 0} (random : ℕ → ℕ → ℕ) (p : HttpCachePolicy)
    (consume : Response → CacheResult (Attempt A)) (server : ℕ → Sent) where
  abbrev pub hint_or_backoff : ℕ → Option ℕ → ℕ
  hint_or_backoff attempt (some seconds) = seconds * second
  hint_or_backoff attempt none = backoff random p attempt

  -- What the loop's body does with a response; `later` is the rest of the loop, where there is one.
  unfoldable pub consumed : ℕ → Option (Trace A) → CacheResult (Attempt A) → Trace A
  consumed attempt later (err e) = once (err e)
  consumed attempt later (ok (complete a)) = once (ok a)
  consumed attempt none (ok (retry e)) = once (err e)
  consumed attempt (some t) (ok (retry e)) = after_wait (wait_retry p (backoff random p attempt)) t

  unfoldable pub answered : ℕ → Option (Trace A) → Sent → Trace A
  answered attempt none (failed retryable) = once (err remote)
  answered attempt none (responded r) = consumed attempt none (consume r)
  answered attempt none (unbuilt e) = unsent e
  answered attempt (some t) (failed retryable) =
      if retryable
      then after_wait (wait_retry p (backoff random p attempt)) t
      else once (err remote)
  answered attempt (some t) (responded r) =
      if is_retryable_status r.status
      then after_wait (wait_retry p (hint_or_backoff attempt r.retry_after)) t
      else consumed attempt (some t) (consume r)
  answered attempt (some t) (unbuilt e) = unsent e

  -- `attempt` has been reached, and `remaining` attempts are left, this one included.
  unfoldable pub attempt_loop : (remaining attempt : ℕ) → Trace A
  attempt_loop zero attempt = record { result = err panicked; requests = 0; delays = [] }
  attempt_loop (suc zero) attempt = answered attempt none (server attempt)
  attempt_loop (suc (suc n)) attempt =
      answered attempt (some (attempt_loop (suc n) (attempt + 1))) (server attempt)

  unfoldable pub request_with_retry : Trace A
  request_with_retry = attempt_loop (p.max_retries + 1) 0
