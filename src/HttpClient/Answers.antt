-- ===== src/HttpClient/Answers.antt =====
-- What the client accepts of a response, however the body is cut into chunks.
use mathlib.Core.List.{append_assoc, append-nil}
use octa.Common.{
  ℕ, ◌+◌, ◌≤◌, true, false, Option, none, some, List, [], ◌∷◌, ◌++◌, ◌≡◌, ◌↔◌, ◌⊎◌, inl, inr, refl,
  sym, subst, ap, ◌∙◌, arith, ltb, nat_eq, ==_iff, ◌==◌, if◌then◌else◌, length, length-append,
  contains, Bool-cases,
}
use octa.Text.{Str}
use octa.HttpClient.{
  CacheResult, ok, err, and_then, Chunk, bytes, broken, Response, Attempt, complete,
}
use octa.HttpClient.Body.{
  transport, over_limit, BoundedRead, read, unread, read_chunks, is_over, read_bounded, has_version,
  accept_response, accept_content_type, metadata_read, consume_metadata,
}

abbrev pub append : Option (List ℕ) → List ℕ → Option (List ℕ)
append none b = none
append (some rest) b = some (b ++ rest)

-- The whole body, if the transport delivers all of it.
abbrev pub body_of : List Chunk → Option (List ℕ)
body_of [] = some []
body_of (broken r ∷ cs) = none
body_of (bytes b ∷ cs) = append (body_of cs) b

some-injective : {A : Type 0} {a b : A} → some a ≡ some b → a ≡ b
some-injective h = cc

read_chunks-read :
    (limit : ℕ) (taken : List ℕ) (cs : List Chunk) (b : List ℕ)
    → length taken ≤ limit
    → read_chunks limit taken cs ≡ read b
    → (rest : List ℕ) × (body_of cs ≡ some rest) × (b ≡ taken ++ rest) × (length b ≤ limit)
unfolding read_chunks
read_chunks-read limit taken [] b h e =
    let same : taken ≡ b = cc in
    ([], refl, sym same ∙ sym (append-nil taken), subst (λ x. length x ≤ limit) same h)
read_chunks-read limit taken (broken r ∷ cs) b h e = absurd cc
read_chunks-read limit taken (bytes c ∷ cs) b h e =
    elim (Bool-cases (ltb limit (length taken + length c))) [
      | inl over ↦ absurd (ground (arith, over, e))
      | inr fits ↦
          let (rest, whole, same, few) =
            read_chunks-read limit (taken ++ c) cs b (ground (arith, length-append taken c, fits))
              (ground (arith, fits, e)) in
          (c ++ rest, ap (λ o. append o c) whole, same ∙ append_assoc taken c rest, few)
    ]

read_chunks_lem :
    (limit : ℕ) (taken : List ℕ) (cs : List Chunk) (rest : List ℕ)
    → body_of cs ≡ some rest
    → length (taken ++ rest) ≤ limit
    → read_chunks limit taken cs ≡ read (taken ++ rest)
unfolding read_chunks
read_chunks_lem limit taken [] rest e h =
    ap read (sym (append-nil taken) ∙ ap (λ x. taken ++ x) (some-injective e))
read_chunks_lem limit taken (broken r ∷ cs) rest e h = absurd cc
read_chunks_lem limit taken (bytes c ∷ cs) rest e h =
    go (body_of cs) refl e (read_chunks_lem limit (taken ++ c) cs)
  where
    go :
        (o : Option (List ℕ))
        → body_of cs ≡ o
        → append o c ≡ some rest
        → ((later : List ℕ)
            → body_of cs ≡ some later
            → length ((taken ++ c) ++ later) ≤ limit
            → read_chunks limit (taken ++ c) cs ≡ read ((taken ++ c) ++ later))
        → (if ltb limit (length taken + length c)
            then unread over_limit
            else read_chunks limit (taken ++ c) cs)
          ≡ read (taken ++ rest)
    go none f e ih = absurd cc
    go (some later) f e ih =
        let same : taken ++ rest ≡ (taken ++ c) ++ later =
          ap (λ x. taken ++ x) (sym (some-injective e)) ∙ sym (append_assoc taken c later) in
        let few : length ((taken ++ c) ++ later) ≤ limit = subst (λ x. length x ≤ limit) same h in
        let fits : ltb limit (length taken + length c) ≡ false =
          ground (arith, few, length-append (taken ++ c) later, length-append taken c) in
        ground (arith, fits, ih later f few, ap read same)

-- `read_bounded` returns a body exactly if no larger length was declared, the transport delivers all
-- chunks, and together they are within the limit; then it returns the whole body.
pub read_bounded_iff :
    (r : Response) (limit : ℕ) (b : List ℕ)
    → (read_bounded r limit ≡ read b)
      ↔ ((is_over r.content_length limit ≡ false) × (body_of r.body ≡ some b) × (length b ≤ limit))
unfolding read_bounded
read_bounded_iff r limit b = (
  λ h.
      let declared : is_over r.content_length limit ≡ false = ground (arith, h) in
      let (rest, whole, same, few) =
        read_chunks-read limit [] r.body b (omega arith) (ground (arith, h, declared)) in
      (declared, whole ∙ ap some (sym same), few),
  λ (declared, whole, few). ground (arith, declared, read_chunks_lem limit [] r.body b whole few),
)

-- The metadata of a complete answer: the protocol's version, an accepted status, and the whole body
-- within the limit, or none for a 404.
pub record MetadataAnswer (limit : ℕ) (accepted : List ℕ) (r : Response) (status : ℕ) (b : List ℕ)
    : Type 0 where
  pub versioned : has_version r.version ≡ true
  pub same_status : status ≡ r.status
  pub is_accepted : contains accepted r.status ≡ true
  pub whole : (r.status ≡ 404) ⊎ ((body_of r.body ≡ some b) × (length b ≤ limit))

pub and_then-ok :
    {A B : Type 0} (x : CacheResult A) (k : A → CacheResult B) (b : B)
    → and_then x k ≡ ok b
    → (a : A) × (x ≡ ok a) × (k a ≡ ok b)
unfolding and_then
and_then-ok (ok a) k b h = (a, refl, h)
and_then-ok (err e) k b h = absurd cc

pub accept_response-ok :
    (r : Response) (u : Unit {0}) → accept_response r ≡ ok u → has_version r.version ≡ true
unfolding accept_response
accept_response-ok r u h = ground (arith, h)

pub complete-injective : {X : Type 0} {x y : X} → ok (complete x) ≡ ok (complete y) → x ≡ y
complete-injective e = cc

-- The rest of `consume_metadata` for an accepted status other than 404.
metadata_read-complete :
    (limit : ℕ) (r : Response) (x : BoundedRead) (status : ℕ) (b : List ℕ)
    → metadata_read r.status x ≡ ok (complete (status, b))
    → (status ≡ r.status) × (x ≡ read b)
metadata_read-complete limit r (read c) status b h =
    let same : (r.status, c) ≡ (status, b) = complete-injective h in
    (sym (ap (λ p. p.0) same), ap read (ap (λ p. p.1) same))
metadata_read-complete limit r (unread (transport true)) status b h = absurd cc
metadata_read-complete limit r (unread (transport false)) status b h = absurd cc
metadata_read-complete limit r (unread over_limit) status b h = absurd cc

pub consume_metadata-complete :
    (json : Str) (limit : ℕ) (accepted : List ℕ) (r : Response) (status : ℕ) (b : List ℕ)
    → consume_metadata json limit accepted r ≡ ok (complete (status, b))
    → MetadataAnswer limit accepted r status b
unfolding consume_metadata
consume_metadata-complete json limit accepted r status b h =
    let (u, versioned, h1) = and_then-ok (accept_response r) _ _ h in
    elim (Bool-cases (contains accepted r.status)) [
      | inr out ↦ absurd (ground (arith, h1, out))
      | inl inside ↦ elim (Bool-cases (r.status == 404)) [
        | inl none_there ↦
            let e : ◌≡◌ {A = CacheResult (Attempt (ℕ × List ℕ))} (ok (complete (404, [])))
                (ok (complete (status, b))) =
              ground (arith, h1, inside, none_there) in
            let gone = (==_iff r.status 404).0 none_there in
            record {
              versioned = accept_response-ok r u versioned;
              same_status = sym (ap (λ p. p.0) (complete-injective e)) ∙ sym gone;
              is_accepted = inside;
              whole = inl gone;
            }
        | inr there ↦
            let (v, typed, h2) =
              and_then-ok (accept_content_type r json)
                (λ _. metadata_read r.status (read_bounded r limit)) _
                (ground (arith, h1, inside, there)) in
            let (same, all_read) = metadata_read-complete limit r _ status b h2 in
            let (_, whole, few) = (read_bounded_iff r limit b).0 all_read in
            record {
              versioned = accept_response-ok r u versioned;
              same_status = same;
              is_accepted = inside;
              whole = inr (whole, few);
            }
      ]
    ]
