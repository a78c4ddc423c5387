-- ===== src/HttpClient/Retries.antt =====
-- The retry loop: which answer decides the operation, how many requests it takes, and how long the
-- loop waits.
use octa.Common.{
  ℕ, zero, suc, ◌+◌, ◌≤◌, ◌<◌, Bool, true, false, none, some, ◌≡◌, ◌⊎◌, inl, inr, refl, sym, subst,
  ap, ◌∙◌, arith, if◌then◌else◌, All, length,
}
use octa.HttpClient.{
  CacheError, remote, CacheResult, ok, err, Response, Sent, failed, responded, unbuilt, unsent,
  HttpCachePolicy, Attempt, complete, retry, Trace, is_retryable_status, wait_retry, once,
  after_wait, hint_or_backoff, consumed, answered, attempt_loop, request_with_retry,
}

module _ {A : Type 0} where
  abbrev pub is_retry : CacheResult (Attempt A) → Bool
  is_retry (ok (complete a)) = false
  is_retry (ok (retry e)) = true
  is_retry (err e) = false

  abbrev pub settled : CacheResult (Attempt A) → CacheResult A
  settled (ok (complete a)) = ok a
  settled (ok (retry e)) = err e
  settled (err e) = err e

-- How many requests an attempt sends.
abbrev pub sent : Sent → ℕ
sent (failed retryable) = 1
sent (responded r) = 1
sent (unbuilt e) = 0

module _ {A : Type 0} (consume : Response → CacheResult (Attempt A)) where
  -- An answer that another request may follow.
  abbrev pub may_retry : Sent → Bool
  may_retry (failed retryable) = retryable
  may_retry (responded r) = if is_retryable_status r.status then true else is_retry (consume r)
  may_retry (unbuilt e) = false

  -- What an answer means if no request follows it.
  abbrev pub meaning : Sent → CacheResult A
  meaning (failed retryable) = err remote
  meaning (responded r) = settled (consume r)
  meaning (unbuilt e) = err e

  -- The answer number `last`, from the attempt on, decides: there was no other attempt, or it is not
  -- for a retry. All before it were for one.
  pub record Decided (p : HttpCachePolicy) (server : ℕ → Sent) (remaining attempt : ℕ) (t : Trace A)
      : Type 0 where
    pub last : ℕ
    pub within : suc last ≤ remaining
    pub requests : t.requests ≡ last + sent (server (attempt + last))
    pub result : t.result ≡ meaning (server (attempt + last))
    pub earlier : (i : ℕ) → i < last → may_retry (server (attempt + i)) ≡ true
    pub final : (suc last ≡ remaining) ⊎ (may_retry (server (attempt + last)) ≡ false)
    pub short_delays : All (λ d. d ≤ p.retry_max_delay) t.delays
    pub delay_count : length t.delays ≡ last

module _ {A : Type 0} (random : ℕ → ℕ → ℕ) (p : HttpCachePolicy)
    (consume : Response → CacheResult (Attempt A)) (server : ℕ → Sent) where
  once-Decided :
      (n attempt : ℕ) (r : CacheResult A)
      → sent (server attempt) ≡ 1
      → r ≡ meaning consume (server attempt)
      → (1 ≡ suc n) ⊎ (may_retry consume (server attempt) ≡ false)
      → Decided consume p server (suc n) attempt (once r)
  once-Decided n attempt r q e f = record {
    last = 0;
    within = omega arith;
    requests = omega (arith, ap (λ k. sent (server k)) here, q);
    result = e ∙ ap (λ k. meaning consume (server k)) (sym here);
    earlier = λ i h. absurd (omega arith);
    final = elim f [
      | inl x ↦ inl x
      | inr x ↦ inr (ap (λ k. may_retry consume (server k)) here ∙ x)
    ];
    short_delays = tt;
    delay_count = refl;
  }
    where
      here : attempt + 0 ≡ attempt
      here = omega arith

  after_wait-Decided :
      (n attempt delay : ℕ) (t : Trace A)
      → may_retry consume (server attempt) ≡ true
      → Decided consume p server n (attempt + 1) t
      → Decided consume p server (suc n) attempt (after_wait (wait_retry p delay) t)
  unfolding wait_retry
  after_wait-Decided n attempt delay t m d = record {
    last = suc d.last;
    within = omega (arith, d.within);
    requests = omega (arith, d.requests, ap (λ k. sent (server k)) next);
    result = d.result ∙ ap (λ k. meaning consume (server k)) next;
    earlier = first_or_later;
    final = elim d.final [
      | inl e ↦ inl (omega (arith, e))
      | inr e ↦ inr (ap (λ k. may_retry consume (server k)) (sym next) ∙ e)
    ];
    short_delays = (ground arith, d.short_delays);
    delay_count = omega (arith, d.delay_count);
  }
    where
      next : attempt + 1 + d.last ≡ attempt + suc d.last
      next = omega arith

      first_or_later : (i : ℕ) → i < suc d.last → may_retry consume (server (attempt + i)) ≡ true
      first_or_later zero h =
          subst (λ k. may_retry consume (server k) ≡ true) {x = attempt} {y = attempt + 0}
            (omega arith) m
      first_or_later (suc i) h =
          subst (λ k. may_retry consume (server k) ≡ true) {x = attempt + 1 + i}
            {y = attempt + suc i} (omega arith) (d.earlier i (omega arith))

  unsent-Decided :
      (n attempt : ℕ) (x : CacheError)
      → server attempt ≡ unbuilt x
      → Decided consume p server (suc n) attempt (unsent x)
  unsent-Decided n attempt x e = record {
    last = 0;
    within = omega arith;
    requests = omega (arith, ap (λ k. sent (server k)) here, ap sent e);
    result = sym (ap (λ k. meaning consume (server k)) here ∙ ap (meaning consume) e);
    earlier = λ i h. absurd (omega arith);
    final = inr (ap (λ k. may_retry consume (server k)) here ∙ ap (may_retry consume) e);
    short_delays = tt;
    delay_count = refl;
  }
    where
      here : attempt + 0 ≡ attempt
      here = omega arith

  answered-last :
      (attempt : ℕ) (s : Sent)
      → server attempt ≡ s
      → Decided consume p server 1 attempt (answered random p consume server attempt none s)
  unfolding answered consumed
  answered-last attempt (failed retryable) e =
      once-Decided 0 attempt _ (ap sent e) (ap (meaning consume) (sym e)) (inl refl)
  answered-last attempt (unbuilt x) e = unsent-Decided 0 attempt x e
  answered-last attempt (responded r) e = go (consume r) refl
    where
      go :
          (c : CacheResult (Attempt A))
          → consume r ≡ c
          → Decided consume p server 1 attempt (consumed random p consume server attempt none c)
      go (err x) f =
          once-Decided 0 attempt _ (ap sent e) (sym (ap (meaning consume) e ∙ ap settled f))
            (inl refl)
      go (ok (complete a)) f =
          once-Decided 0 attempt _ (ap sent e) (sym (ap (meaning consume) e ∙ ap settled f))
            (inl refl)
      go (ok (retry x)) f =
          once-Decided 0 attempt _ (ap sent e) (sym (ap (meaning consume) e ∙ ap settled f))
            (inl refl)

  answered-more :
      (n attempt : ℕ) (t : Trace A) (s : Sent)
      → server attempt ≡ s
      → Decided consume p server (suc n) (attempt + 1) t
      → Decided consume p server
          (suc (suc n))
          attempt
          (answered random p consume server attempt (some t) s)
  unfolding answered consumed
  answered-more n attempt t (failed true) e d =
      after_wait-Decided _ attempt _ t (ap (may_retry consume) e) d
  answered-more n attempt t (failed false) e d =
      once-Decided _ attempt _ (ap sent e) (ap (meaning consume) (sym e))
        (inr (ap (may_retry consume) e))
  answered-more n attempt t (unbuilt x) e d = unsent-Decided _ attempt x e
  answered-more n attempt t (responded r) e d = by_status (is_retryable_status r.status) refl
    where
      by_answer :
          (c : CacheResult (Attempt A))
          → consume r ≡ c
          → is_retryable_status r.status ≡ false
          → Decided consume p server
              (suc (suc n))
              attempt
              (consumed random p consume server attempt (some t) c)
      by_answer (err x) f kept =
          once-Decided _ attempt _ (ap sent e) (sym (ap (meaning consume) e ∙ ap settled f))
            (inr (ground (arith, ap (may_retry consume) e, ap is_retry f, kept)))
      by_answer (ok (complete a)) f kept =
          once-Decided _ attempt _ (ap sent e) (sym (ap (meaning consume) e ∙ ap settled f))
            (inr (ground (arith, ap (may_retry consume) e, ap is_retry f, kept)))
      by_answer (ok (retry x)) f kept =
          after_wait-Decided _ attempt _ t
            (ground (arith, ap (may_retry consume) e, ap is_retry f, kept)) d

      by_status :
          (b : Bool)
          → is_retryable_status r.status ≡ b
          → Decided consume p server (suc (suc n)) attempt (
              if b
              then after_wait
                  (wait_retry p (hint_or_backoff random p consume server attempt r.retry_after))
                  t
              else consumed random p consume server attempt (some t) (consume r))
      by_status true f =
          after_wait-Decided _ attempt _ t (ground (arith, ap (may_retry consume) e, f)) d
      by_status false f = by_answer (consume r) refl f

  attempt_loop-Decided :
      (n attempt : ℕ)
      → Decided consume p server
          (suc n)
          attempt
          (attempt_loop random p consume server (suc n) attempt)
  unfolding attempt_loop
  attempt_loop-Decided zero attempt = answered-last attempt (server attempt) refl
  attempt_loop-Decided (suc n) attempt =
      answered-more n attempt _ (server attempt) refl (attempt_loop-Decided n (attempt + 1))

  -- The retry loop always ends with a result, after at most one request more than the retries; an
  -- attempt whose request cannot be built ends it and sends none. The
  -- result is what the last answer means, all answers before it were for a retry, and either the
  -- last is not or the retries are used up. Each delay before a further request is at most the
  -- largest delay of the policy.
  pub request_with_retry-Decided :
      Decided consume p server (p.max_retries + 1) 0 (request_with_retry random p consume server)
  unfolding request_with_retry
  request_with_retry-Decided =
      subst (λ n. Decided consume p server n 0 (attempt_loop random p consume server n 0))
        {x = suc p.max_retries} {y = p.max_retries + 1} (omega arith)
        (attempt_loop-Decided p.max_retries 0)
