-- ===== src/LocalStore/Publication.antt =====
-- What the publication of a blob leaves at its path and in the ledger.
use octa.Common.{
  ℕ, ◌≡◌, ◌≢◌, refl, ◌∙◌, ap, not, Option, none, some, List, arith, ◌==◌, ==_refl, nat_eq, length,
  lookup, insert, lookup-insert,
}
use octa.BlobDescriptor.{BlobDescriptor}
use octa.Layered.{WriteOutcome, written, already_present, conflict}
use octa.Ledger.{StateFile}
use octa.Ledger
use octa.LocalStore.{
  CacheResult, ok, err, path_eq, Entry, regular, irregular, Disk, continue, inspect,
  LocalCacheConfig, blob_path, Primitives, verify_encoded_blob,
}
use octa.LocalStore.Objects.{publish_entry, publish_temporary, finish_reservation, released}
use octa.LocalStore.Operations.{
  verify_resident, after_resident, blob_published, publish_copied, write_blob_reserved,
}
use octa.LocalStore.Ends.{
  Same, Ends, returns, raises, Ends-continue, Ends-attempt, then-step, then-inspect, then-act,
  then-discard, Ends-or_discard, Ends-step, if-Ends,
}
use octa.LocalStore.Quarantine.{quarantine_then}
use octa.LocalStore.Reserved.{on_ledger-files}
use octa.LocalStore.Blobs.{Stored, Same-Stored, BlobEnds, verify_content-Ends}

module _ (x : Primitives) (config : LocalCacheConfig) where
  publish_temporary-Ends :
      (b : BlobDescriptor) (bytes : List ℕ) (d : Disk)
      → BlobEnds
          (λ o e.
            (o ≢ conflict) × (o ≡ written → lookup (blob_path b) e.files ≡ some (regular bytes)))
          d
          (publish_temporary (blob_path b) bytes d)
  unfolding publish_temporary publish_entry
  publish_temporary-Ends b bytes d =
      then-step d _ (λ e s. s.ledger)
        λ e s.
          then-step e _ (λ f t. cc)
            λ f t.
              then-inspect (blob_path b) f _ (λ g u. cc)
                λ g u. published g (lookup (blob_path b) f.files) cc
    where
      put :
          (g h : Disk)
          → h.files ≡ insert (blob_path b) (regular bytes) g.files
          → lookup (blob_path b) h.files ≡ some (regular bytes)
      put g h e =
          ap (lookup (blob_path b)) e
          ∙ ground (
            arith,
            lookup-insert (blob_path b) (blob_path b) (regular bytes) g.files,
            ==_refl (blob_path b),
          )

      published :
          (g : Disk) (o : Option Entry)
          → g.ledger ≡ d.ledger
          → BlobEnds
              (λ w e.
                (w ≢ conflict)
                × (w ≡ written → lookup (blob_path b) e.files ≡ some (regular bytes)))
              d
              (publish_entry (blob_path b) bytes o g)
      published g (some (regular content)) l =
          returns already_present g (((λ e. absurd cc), λ e. absurd cc), l)
      published g (some irregular) l = then-discard g _ λ h s. raises _ h (s.ledger ∙ l)
      published g none l =
          then-act (insert (blob_path b) (regular bytes)) g _ (λ h s. s.ledger ∙ l)
            λ h e m.
              then-step h _ (λ i s. s.ledger ∙ (m ∙ l))
                λ i s. returns written i (
                  ((λ w. absurd cc), λ w. ap (lookup (blob_path b)) s.files ∙ put g h e),
                  s.ledger ∙ (m ∙ l),
                )

  verify_resident-Ends :
      (b : BlobDescriptor) (d : Disk)
      → BlobEnds
          (λ u e. Stored x config b e)
          d
          (continue (inspect (blob_path b) d) (verify_resident x config b))
  unfolding verify_resident
  verify_resident-Ends b d =
      then-inspect (blob_path b) d _ (λ e s. s.ledger)
        λ e s.
          resident e (lookup (blob_path b) d.files) (ap (lookup (blob_path b)) s.files) s.ledger
    where
      checked :
          (e : Disk) (content : List ℕ) (r : CacheResult (Unit {0}))
          → verify_encoded_blob x b config.max_expanded_blob_bytes content ≡ r
          → lookup (blob_path b) e.files ≡ some (regular content)
          → e.ledger ≡ d.ledger
          → BlobEnds (λ u e. Stored x config b e) d (r, e)
      checked e content (ok u) v h l = returns u e ((content, h, v), l)
      checked e content (err y) v h l = raises y e l

      resident :
          (e : Disk) (o : Option Entry)
          → lookup (blob_path b) e.files ≡ o
          → e.ledger ≡ d.ledger
          → BlobEnds (λ u e. Stored x config b e) d (verify_resident x config b o e)
      resident e none h l = raises _ e l
      resident e (some irregular) h l = raises _ e l
      resident e (some (regular content)) h l =
          checked e content (verify_encoded_blob x b config.max_expanded_blob_bytes content) refl h
            l

  blob_published-Ends :
      (b : BlobDescriptor) (bytes : List ℕ) (d c : Disk) (o : WriteOutcome)
      → verify_encoded_blob x b config.max_expanded_blob_bytes bytes ≡ ok tt
      → (o ≡ written → lookup (blob_path b) d.files ≡ some (regular bytes))
      → o ≢ conflict
      → d.ledger ≡ c.ledger
      → BlobEnds (λ w e. (w ≢ conflict) × Stored x config b e) c (blob_published x config b o d)
  unfolding blob_published after_resident
  blob_published-Ends b bytes d c written v put n l =
      returns written d ((n, (bytes, put refl, v)), l)
  blob_published-Ends b bytes d c conflict v put n l = absurd (n refl)
  blob_published-Ends b bytes d c already_present v put n l =
      Ends-attempt _ _ _ _ (verify_resident-Ends b d)
        (λ u e h. then-discard e _ λ f s.
          returns already_present f ((n, Same-Stored x config b e f s h.0), s.ledger ∙ (h.1 ∙ l)))
        (λ y e h.
          quarantine_then b e c _ (h ∙ l) λ f m. then-discard f _ λ i s. raises y i (s.ledger ∙ m))

  publish_copied-Ends :
      (b : BlobDescriptor) (bytes : List ℕ) (d c : Disk)
      → d.ledger ≡ c.ledger
      → BlobEnds (λ w e. (w ≢ conflict) × Stored x config b e) c (publish_copied x config b bytes d)
  unfolding publish_copied
  publish_copied-Ends b bytes d c l =
      if-Ends (not (length bytes == b.encoded_size_bytes)) _ _ d
        (λ h. then-discard d _ λ e s. raises _ e (s.ledger ∙ l))
        (λ h.
          Ends-continue (λ _ e. e.ledger ≡ c.ledger) _ _
            (Ends-or_discard _ _
              (Ends-step {E = λ e. e.ledger ≡ c.ledger} d (λ e s. s.ledger ∙ l)
                (λ e s. s.ledger ∙ l))
              (λ e f m s. s.ledger ∙ m))
            λ u e m.
              Ends-continue
                (λ _ f.
                  Same e f × (verify_encoded_blob x b config.max_expanded_blob_bytes bytes ≡ ok tt))
                _ _
                (Ends-or_discard _ _ (verify_content-Ends x config b bytes e)
                  (λ f i t s. s.ledger ∙ (t.ledger ∙ m)))
                λ v f k.
                  Ends-continue
                    (λ o i.
                      ((o ≢ conflict)
                        × (o ≡ written → lookup (blob_path b) i.files ≡ some (regular bytes)))
                      × (i.ledger ≡ f.ledger))
                    _ _
                    (Ends-or_discard _ _ (publish_temporary-Ends b bytes f)
                      (λ i j t s. s.ledger ∙ (t ∙ (k.0.ledger ∙ m))))
                    λ o i n.
                      blob_published-Ends b bytes i c o k.1 n.0.1 n.0.0 (n.1 ∙ (k.0.ledger ∙ m)))

  pub write_blob_reserved-Ends :
      (b : BlobDescriptor) (body : List ℕ) (d : Disk)
      → BlobEnds
          (λ w e. (w ≢ conflict) × Stored x config b e)
          d
          (write_blob_reserved x config b body d)
  unfolding write_blob_reserved
  write_blob_reserved-Ends b body d =
      then-step d _ (λ e s. s.ledger)
        λ e s.
          Ends-continue (λ _ f. f.ledger ≡ d.ledger) _ _
            (Ends-or_discard _ _
              (Ends-step {E = λ f. f.ledger ≡ d.ledger} e (λ f t. t.ledger ∙ s.ledger)
                (λ f t. t.ledger ∙ s.ledger))
              (λ f g m t. t.ledger ∙ m))
            λ u f m. publish_copied-Ends b _ f d m

  pub finish_reservation-Stored :
      (b : BlobDescriptor) (bytes : ℕ) (o : WriteOutcome) (d : Disk)
      → o ≢ conflict
      → Stored x config b d
      → Ends
          (λ w e. (w ≢ conflict) × Stored x config b e)
          (λ _. Unit)
          (finish_reservation bytes (ok o) d)
  unfolding finish_reservation released
  finish_reservation-Stored b bytes written d n h = returns written d (n, h)
  finish_reservation-Stored b bytes conflict d n h = absurd (n refl)
  finish_reservation-Stored b bytes already_present d n h =
      Ends-attempt _ _ _ _ (on_ledger-files (λ w file. Ledger.release w file bytes) d)
        (λ u e s. returns already_present e (n, (h.0, ap (lookup (blob_path b)) s ∙ h.1, h.2)))
        (λ y e s. raises y e tt)
