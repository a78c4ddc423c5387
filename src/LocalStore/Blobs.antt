-- ===== src/LocalStore/Blobs.antt =====
-- The blobs that stand on the disk, and the one that a write looks for first.
use octa.Common.{
  ℕ, ◌≡◌, refl, ◌∙◌, ap, true, false, Option, none, some, List, ◌==◌, nat_eq, length, lookup,
}
use octa.BlobDescriptor.{BlobDescriptor}
use octa.LocalStore.{
  CacheResult, ok, err, path_eq, Entry, regular, irregular, Disk, pure, continue, LocalCacheConfig,
  blob_path, Primitives, verify_encoded_blob,
}
use octa.LocalStore.Objects.{
  quarantine_blob, verify_content, existing_verdict, existing_entry, existing_blob_is_valid,
}
use octa.LocalStore.Ends.{
  Same, Ends, returns, raises, Ends-attempt, then-step, then-inspect, if-Ends,
}
use octa.LocalStore.Quarantine.{quarantine_then}

-- An operation on a blob: a returned value satisfies `Q`, and the ledger is as in `d`.
abbrev pub BlobEnds : {A : Type 0} → (A → Disk → Type 0) → Disk → CacheResult A × Disk → Type 0
BlobEnds Q d = Ends (λ a e. Q a e × (e.ledger ≡ d.ledger)) (λ e. e.ledger ≡ d.ledger)

module _ (x : Primitives) (config : LocalCacheConfig) where
  -- A regular file that passes the verification stands at the path of the blob.
  abbrev pub Stored : BlobDescriptor → Disk → Type 0
  Stored b d =
      (content : List ℕ) × (lookup (blob_path b) d.files ≡ some (regular content))
      × (verify_encoded_blob x b config.max_expanded_blob_bytes content ≡ ok tt)

  pub Same-Stored : (b : BlobDescriptor) (d e : Disk) → Same d e → Stored b d → Stored b e
  Same-Stored b d e s (content, found, verified) =
      (content, ap (lookup (blob_path b)) s.files ∙ found, verified)

  -- The verification says what it checked.
  pub verify_content-Ends :
      (b : BlobDescriptor) (content : List ℕ) (d : Disk)
      → Ends
          (λ _ e.
            Same d e × (verify_encoded_blob x b config.max_expanded_blob_bytes content ≡ ok tt))
          (λ e. Same d e)
          (verify_content x config b content d)
  verify_content-Ends b content d =
      then-step d _ (λ e s. s)
        λ e s. checked (verify_encoded_blob x b config.max_expanded_blob_bytes content) refl e s
    where
      checked :
          (r : CacheResult (Unit {0}))
          → verify_encoded_blob x b config.max_expanded_blob_bytes content ≡ r
          → (e : Disk) → Same d e
          → Ends
              (λ _ e.
                Same d e × (verify_encoded_blob x b config.max_expanded_blob_bytes content ≡ ok tt))
              (λ e. Same d e)
              (r, e)
      checked (ok u) h e s = returns u e (s, h)
      checked (err y) h e s = raises y e s

  pub existing_blob_is_valid-Ends :
      (b : BlobDescriptor) (d : Disk)
      → BlobEnds (λ v e. v ≡ true → Stored b e) d (existing_blob_is_valid x config b d)
  unfolding existing_blob_is_valid existing_entry existing_verdict
  existing_blob_is_valid-Ends b d =
      then-step d _ (λ e s. s.ledger)
        λ e s.
          then-inspect (blob_path b) e _ (λ f t. cc)
            λ f t. seen f (lookup (blob_path b) e.files) (ap (lookup (blob_path b)) t.files) cc
    where
      gone :
          (f : Disk)
          → f.ledger ≡ d.ledger
          → BlobEnds
              (λ v e. v ≡ true → Stored b e)
              d
              (continue (quarantine_blob b f) (λ _. pure false))
      gone f l = quarantine_then b f d _ l λ g m. returns false g ((λ h. absurd cc), m)

      seen :
          (f : Disk) (o : Option Entry)
          → lookup (blob_path b) f.files ≡ o
          → f.ledger ≡ d.ledger
          → BlobEnds (λ v e. v ≡ true → Stored b e) d (existing_entry x config b o f)
      seen f none h l = returns false f ((λ k. absurd cc), l)
      seen f (some irregular) h l = gone f l
      seen f (some (regular content)) h l =
          if-Ends (length content == b.encoded_size_bytes) _ _ f
            (λ e.
              Ends-attempt _ _ _ _ (verify_content-Ends b content f)
                (λ u g k.
                  returns true g (
                    (λ y. (content, ap (lookup (blob_path b)) k.0.files ∙ h, k.1)),
                    k.0.ledger ∙ l,
                  ))
                (λ y g k. gone g (k.ledger ∙ l)))
            (λ e. gone f l)
