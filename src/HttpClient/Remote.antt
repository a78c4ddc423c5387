-- ===== src/HttpClient/Remote.antt =====
-- What the client's operations return, whatever the server answers.
use octa.Common.{
  ℕ, ◌+◌, ◌≤◌, Bool, true, false, not, ◌&&◌, Option, none, some, List, [], ◌∷◌, ◌≡◌, ◌≢◌, ◌⊎◌, inl,
  inr, refl, sym, ap, ◌∙◌, arith, Eq, nat_eq, ==_iff, ◌==◌, if◌then◌else◌, length, contains, filter,
  all, contains-filter, contains-all, Bool-cases,
}
use octa.Text.{Str}
use octa.BlobDescriptor.{BlobDescriptor, blob_eq}
use octa.Circuit.{CircuitBreaker, Permission, permit}
use octa.Circuit
use octa.HttpClient.{
  CacheError, remote, circuit_open, CacheResult, ok, err, and_then, Response, Sent, failed, unbuilt,
  responded, HttpCachePolicy, Attempt, complete, retry, Trace, request_with_retry,
}
use octa.HttpClient.Body.{has_version, consume_metadata}
use octa.HttpClient.Calls.{
  ok_status, not_found, Called, or_interrupted, operate, settle, FindMissingBlobsResponse,
  is_valid_response, are_distinct, missing_answer, action_answer, find_missing_blobs, get_action,
}
use octa.HttpClient.Retries.{settled, meaning, request_with_retry-Decided}
use octa.HttpClient.Answers.{body_of, MetadataAnswer, and_then-ok, consume_metadata-complete}

operate-ok :
    {A B : Type 0} (instant_max : ℕ) (c : CircuitBreaker) (start now : ℕ)
    (interrupt : Option CacheError) (t : Trace A) (finish : A → CacheResult B) (b : B)
    → (operate instant_max c start now interrupt t finish).result ≡ ok b
    → (a : A) × (t.result ≡ ok a) × (finish a ≡ ok b)
unfolding operate
operate-ok {A = A} {B = B} instant_max c start now interrupt t finish b h =
    entered (permit c start).0 h
  where
    uninterrupted :
        (i : Option CacheError)
        → or_interrupted i (and_then t.result finish) ≡ ok b
        → (a : A) × (t.result ≡ ok a) × (finish a ≡ ok b)
    uninterrupted none e = and_then-ok t.result finish b e
    uninterrupted (some x) e = absurd cc

    entered :
        (q : Permission)
        → (elim q as (λ _. Called B) [
          | Circuit.err _ ↦ record {
            result = err circuit_open;
            circuit = (permit c start).1;
            requests = 0;
          }
          | Circuit.ok p ↦
              let result = or_interrupted interrupt (and_then t.result finish) in
              record {
                result = result;
                circuit = settle instant_max (permit c start).1 p now result;
                requests = t.requests;
              }
        ]).result
          ≡ ok b
        → (a : A) × (t.result ≡ ok a) × (finish a ≡ ok b)
    entered (Circuit.err x) e = absurd cc
    entered (Circuit.ok q) e = uninterrupted interrupt e

settled-ok :
    {A : Type 0} (x : CacheResult (Attempt A)) (a : A) → settled x ≡ ok a → x ≡ ok (complete a)
settled-ok (ok (complete b)) a h = cc
settled-ok (ok (retry e)) a h = absurd cc
settled-ok (err e) a h = absurd cc

module _ (random : ℕ → ℕ → ℕ) (p : HttpCachePolicy) (json : Str) (limit : ℕ) (accepted : List ℕ)
    (server : ℕ → Sent) where
  -- A result of the retry loop comes from a complete answer.
  answer_of :
      (status : ℕ) (b : List ℕ)
      → (request_with_retry random p (consume_metadata json limit accepted) server).result
        ≡ ok (status, b)
      → (k : ℕ) × (r : Response) × (server k ≡ responded r)
        × MetadataAnswer limit accepted r status b
  answer_of status b h =
      let d = request_with_retry-Decided random p (consume_metadata json limit accepted) server in
      go d.last (server (0 + d.last)) refl (sym d.result ∙ h)
    where
      Found : Type 0
      Found =
          (k : ℕ) × (r : Response) × (server k ≡ responded r)
          × MetadataAnswer limit accepted r status b

      go :
          (last : ℕ) (s : Sent)
          → server (0 + last) ≡ s
          → meaning (consume_metadata json limit accepted) s ≡ ok (status, b)
          → Found
      go last (failed x) e k = absurd cc
      go last (unbuilt x) e k = absurd cc
      go last (responded r) e k = (
        0 + last,
        r,
        e,
        consume_metadata-complete json limit accepted r status b (settled-ok _ (status, b) k),
      )

both_or_right : (a b : Bool) → (b ≡ true → a ≡ true) → a && b ≡ b
both_or_right a true h = ground (arith, h refl)
both_or_right a false h = ground arith

missing_answer-ok :
    (decode : List ℕ → Option FindMissingBlobsResponse) (blobs out : List BlobDescriptor)
    (status : ℕ) (body : List ℕ)
    → missing_answer decode blobs (status, body) ≡ ok out
    → (reply : FindMissingBlobsResponse) × (decode body ≡ some reply)
      × ((x : BlobDescriptor) → contains out x ≡ contains reply.missing x)
unfolding missing_answer
missing_answer-ok decode blobs out status body h = go (decode body) refl h
  where
    go :
        (o : Option FindMissingBlobsResponse)
        → decode body ≡ o
        → (elim o as (λ _. CacheResult (List BlobDescriptor)) [
          | none ↦ err remote
          | some r ↦
              if not (is_valid_response r)
              then err remote
              else if not (are_distinct r.missing && all (contains blobs) r.missing)
              then err remote
              else ok (filter (contains r.missing) blobs)
        ])
          ≡ ok out
        → (reply : FindMissingBlobsResponse) × (decode body ≡ some reply)
          × ((x : BlobDescriptor) → contains out x ≡ contains reply.missing x)
    go none e k = absurd cc
    go (some r) e k =
        let subset : all (contains blobs) r.missing ≡ true = ground (arith, k) in
        let filtered : filter (contains r.missing) blobs ≡ out = ground (arith, k) in
        (
          r,
          e,
          λ x.
              ap (λ l. contains l x) (sym filtered)
              ∙ contains-filter (contains r.missing) x blobs
              ∙ both_or_right (contains blobs x) (contains r.missing x)
                  (contains-all (contains blobs) x r.missing subset),
        )

accepted_200 :
    (status : ℕ) → contains (ok_status ∷ not_found ∷ []) status ≡ true → status ≢ 404 → status ≡ 200
accepted_200 status h n = elim (Bool-cases (200 == status)) [
  | inl e ↦ sym ((==_iff 200 status).0 e)
  | inr e ↦ absurd (n (sym ((==_iff 404 status).0 (ground (arith, h, e)))))
]

module _ {R D : Type 0} ⦃e : Eq D⦄ where
  action_answer-ok :
      (decode : List ℕ → Option R) (is_valid : R → Bool) (action_of : R → D) (action : D)
      (status : ℕ) (body : List ℕ) (found : Option R)
      → action_answer decode is_valid action_of action (status, body) ≡ ok found
      → ((status ≡ 404) × (found ≡ none))
        ⊎ ((x : R) × (status ≢ 404)
            × (decode body ≡ some x)
            × (found ≡ some x)
            × (is_valid x ≡ true)
            × (action_of x ≡ action))
  unfolding action_answer
  action_answer-ok decode is_valid action_of action status body found h =
      elim (Bool-cases (status == 404)) [
        | inl gone ↦ inl ((==_iff status 404).0 gone, ground (arith, h, gone))
        | inr there ↦
            decoded (decode body) refl (λ k. ground (arith, (==_iff status 404).1 k, there))
              (ground (arith, h, there))
      ]
    where
      decoded :
          (o : Option R)
          → decode body ≡ o
          → status ≢ 404
          → (elim o as (λ _. CacheResult (Option R)) [
            | none ↦ err remote
            | some r ↦
                if not (is_valid r)
                then err remote
                else if not (action_of r == action)
                then err remote
                else ok (some r)
          ])
            ≡ ok found
          → ((status ≡ 404) × (found ≡ none))
            ⊎ ((x : R) × (status ≢ 404)
                × (decode body ≡ some x)
                × (found ≡ some x)
                × (is_valid x ≡ true)
                × (action_of x ≡ action))
      decoded none q there k = absurd cc
      decoded (some x) q there k =
          let valid : is_valid x ≡ true = ground (arith, k) in
          let bound : (action_of x == action) ≡ true = ground (arith, k) in
          let same : found ≡ some x = ground (arith, k) in
          inr (x, there, q, same, valid, (==_iff (action_of x) action).0 bound)

module _ (instant_max : ℕ) (random : ℕ → ℕ → ℕ) (p : HttpCachePolicy) (json : Str)
    (c : CircuitBreaker) (start now : ℕ) (interrupt : Option CacheError) (server : ℕ → Sent)
    (limit : ℕ) where
  -- When `find_missing_blobs` returns a list, one of the server's answers had the protocol's version,
  -- the status 200 and a whole body within the limit that decodes to a reply, and the list holds just
  -- the blobs that this reply names.
  pub find_missing_blobs_is_exact :
      (decode : List ℕ → Option FindMissingBlobsResponse) (blobs out : List BlobDescriptor)
      → (find_missing_blobs instant_max random p json c start now interrupt server limit decode
          blobs).result
        ≡ ok out
      → (k : ℕ) × (r : Response) × (body : List ℕ) × (reply : FindMissingBlobsResponse) × (server k
          ≡ responded r)
        × (has_version r.version ≡ true)
        × (r.status ≡ 200)
        × (body_of r.body ≡ some body)
        × (length body ≤ limit)
        × (decode body ≡ some reply)
        × ((x : BlobDescriptor) → contains out x ≡ contains reply.missing x)
  unfolding find_missing_blobs
  find_missing_blobs_is_exact decode blobs out h =
      let ((status, body), got, finished) =
        operate-ok instant_max c start now interrupt _ _ out h in
      let (reply, decoded, same) = missing_answer-ok decode blobs out status body finished in
      let (k, r, sent, m) = answer_of random p json limit (ok_status ∷ []) server status body got in
      let status_200 : r.status ≡ 200 = ground (arith, m.is_accepted, ==_iff 200 r.status) in
      elim m.whole [
        | inl gone ↦ absurd (ground (arith, gone, status_200))
        | inr (whole, few) ↦
            (k, r, body, reply, sent, m.versioned, status_200, whole, few, decoded, same)
      ]

  -- When `get_action` returns, one of the server's answers had the protocol's version, and either it
  -- has the status 404 and nothing is found, or it has the status 200 and its whole body, within
  -- the limit, decodes to the returned record, which is valid and bound to the action asked for.
  pub get_action_is_bound :
      {R D : Type 0} ⦃e : Eq D⦄ (decode : List ℕ → Option R) (is_valid : R → Bool)
      (action_of : R → D) (action : D) (found : Option R)
      → (get_action instant_max random p json c start now interrupt server limit decode is_valid
          action_of action).result
        ≡ ok found
      → (k : ℕ) × (r : Response) × (server k ≡ responded r)
        × (has_version r.version ≡ true)
        × (((r.status ≡ 404) × (found ≡ none))
            ⊎ ((body : List ℕ) × (x : R) × (r.status ≡ 200)
                × (body_of r.body ≡ some body)
                × (length body ≤ limit)
                × (decode body ≡ some x)
                × (found ≡ some x)
                × (is_valid x ≡ true)
                × (action_of x ≡ action)))
  unfolding get_action
  get_action_is_bound decode is_valid action_of action found h =
      let ((status, body), got, finished) =
        operate-ok instant_max c start now interrupt _ _ found h in
      let (k, r, sent, m) =
        answer_of random p json limit (ok_status ∷ not_found ∷ []) server status body got in
      elim (action_answer-ok decode is_valid action_of action status body found finished) [
        | inl (gone, nothing) ↦ (k, r, sent, m.versioned, inl (sym m.same_status ∙ gone, nothing))
        | inr (x, there, decoded, same, valid, bound) ↦
            let not_gone : r.status ≢ 404 = λ q. there (m.same_status ∙ q) in
            let status_200 : r.status ≡ 200 = accepted_200 r.status m.is_accepted not_gone in
            elim m.whole [
              | inl q ↦ absurd (not_gone q)
              | inr (whole, few) ↦ (
                k,
                r,
                sent,
                m.versioned,
                inr (body, x, status_200, whole, few, decoded, same, valid, bound),
              )
            ]
      ]
