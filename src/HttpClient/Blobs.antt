-- ===== src/HttpClient/Blobs.antt =====
-- What the client accepts as the bytes of a blob.
use mathlib.Core.List.{append_assoc, append-nil}
use octa.Common.{
  ℕ, true, false, some, List, [], ◌∷◌, ◌++◌, ◌≡◌, refl, sym, ap, ◌∙◌, arith, ltb, nat_eq, ==_iff,
  ◌==◌, if◌then◌else◌, length, inl, inr, Bool-cases,
}
use octa.Text.{Str}
use octa.Ledger.{saturating_add}
use octa.BlobDescriptor.{BlobDescriptor}
use octa.HttpClient.{remote, ok, err, Chunk, bytes, broken, Response, complete}
use octa.HttpClient.Body.{
  has_version, accept_response, accept_content_type, stage_chunks, differs, consume_blob,
}
use octa.HttpClient.Answers.{append, body_of, and_then-ok, accept_response-ok, complete-injective}

stage_chunks-complete :
    (blob : BlobDescriptor) (staged : List ℕ) (cs : List Chunk) (b : List ℕ)
    → stage_chunks blob staged cs ≡ ok (complete b)
    → (rest : List ℕ) × (body_of cs ≡ some rest)
      × (b ≡ staged ++ rest)
      × (length b ≡ blob.encoded_size_bytes)
unfolding stage_chunks
stage_chunks-complete blob staged [] b h =
    elim (Bool-cases (length staged == blob.encoded_size_bytes)) [
      | inl e ↦
          let same : staged ≡ b = complete-injective (ground (arith, h, e)) in
          (
            [],
            refl,
            sym same ∙ sym (append-nil staged),
            ap length (sym same) ∙ (==_iff (length staged) blob.encoded_size_bytes).0 e,
          )
      | inr e ↦ absurd (ground (arith, h, e))
    ]
stage_chunks-complete blob staged (broken true ∷ cs) b h = absurd cc
stage_chunks-complete blob staged (broken false ∷ cs) b h = absurd cc
stage_chunks-complete blob staged (bytes c ∷ cs) b h =
    elim (Bool-cases (ltb blob.encoded_size_bytes (saturating_add (length staged) (length c)))) [
      | inl over ↦ absurd (ground (arith, over, h))
      | inr fits ↦
          let (rest, whole, same, size) =
            stage_chunks-complete blob (staged ++ c) cs b (ground (arith, h, fits)) in
          (c ++ rest, ap (λ o. append o c) whole, same ∙ append_assoc staged c rest, size)
    ]

-- A blob is accepted only from a response with the protocol's version and the status 200, as the
-- whole body of that response, and with exactly as many bytes as its descriptor says.
pub consume_blob-complete :
    (blob_type : Str) (blob : BlobDescriptor) (r : Response) (b : List ℕ)
    → consume_blob blob_type blob r ≡ ok (complete b)
    → (has_version r.version ≡ true)
      × (r.status ≡ 200)
      × (body_of r.body ≡ some b)
      × (length b ≡ blob.encoded_size_bytes)
unfolding consume_blob
consume_blob-complete blob_type blob r b h =
    let (u, versioned, h1) = and_then-ok (accept_response r) _ _ h in
    let fine : (r.status == 200) ≡ true = ground (arith, h1) in
    let (v, typed, h2) =
      and_then-ok (accept_content_type r blob_type)
        (λ _.
          if differs r.content_length blob.encoded_size_bytes
          then err remote
          else stage_chunks blob [] r.body)
        (complete b) (ground (arith, h1, fine)) in
    let same_length : differs r.content_length blob.encoded_size_bytes ≡ false =
      ground (arith, h2) in
    let (rest, whole, same, size) =
      stage_chunks-complete blob [] r.body b (ground (arith, h2, same_length)) in
    (
      accept_response-ok r u versioned,
      (==_iff r.status 200).0 fine,
      whole ∙ ap some (sym same),
      size,
    )
