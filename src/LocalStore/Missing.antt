-- ===== src/LocalStore/Missing.antt =====
-- `find_missing_blobs` of the local store: what it reports, and what it takes off the disk.
use octa.Common.{
  ◌≡◌, refl, sym, ◌∙◌, ap, Bool, true, false, not, Option, none, some, List, [], ◌∷◌, arith, ◌==◌,
  ==_iff, nat_eq, if◌then◌else◌, length, lookup, remove, lookup-remove, filter, any, Bool-cases,
}
use octa.BlobDescriptor.{BlobDescriptor, ValidateResult, validate_blob}
use octa.LocalStore.{
  ok, CachePath, path_eq, Entry, regular, irregular, Disk, Io, continue, blob_path,
}
use octa.LocalStore.Objects.{
  valid_blob, quarantine_entry, quarantine_locked, quarantine, quarantine_blob,
}
use octa.LocalStore.Operations.{Scan, scan_entry, scan, quarantine_all, find_missing_blobs}
use octa.LocalStore.Ends.{
  Ends, returns, raises, Ends-map, Ends-ok, Ends-continue, then-step, then-inspect, then-act,
  Ends-step,
}

-- A regular file of the right size.
abbrev pub stands : BlobDescriptor → Option Entry → Bool
stands b none = false
stands b (some irregular) = false
stands b (some (regular content)) = length content == b.encoded_size_bytes

-- Something else than such a file.
abbrev pub is_wrong : BlobDescriptor → Option Entry → Bool
is_wrong b none = false
is_wrong b (some irregular) = true
is_wrong b (some (regular content)) = not (length content == b.encoded_size_bytes)

abbrev pub on : Disk → BlobDescriptor → Option Entry
on d b = lookup (blob_path b) d.files

-- What stands at a path once the paths of these blobs are cleared.
abbrev pub cleared : List BlobDescriptor → CachePath → Option Entry → Option Entry
cleared bs p e = if any (λ b. blob_path b == p) bs then none else e

abbrev Clears : List BlobDescriptor → Disk → Disk → Type 0
Clears bs d e = (p : CachePath) → lookup p e.files ≡ cleared bs p (lookup p d.files)

-- The first path, then the others.
Clears-cons :
    (b : BlobDescriptor) (bs : List BlobDescriptor) (d e f : Disk)
    → ((p : CachePath) → lookup p e.files ≡ (if blob_path b == p then none else lookup p d.files))
    → Clears bs e f
    → Clears (b ∷ bs) d f
Clears-cons b bs d e f one more p = ground (
  arith,
  one p,
  more p,
  Bool-cases (blob_path b == p),
  Bool-cases (any (λ b. blob_path b == p) bs),
)

quarantine_entry-lookup :
    (p : CachePath) (o : Option Entry) (d : Disk)
    → lookup p d.files ≡ o
    → Ends
        (λ _ e. (q : CachePath) → lookup q e.files ≡ (if p == q then none else lookup q d.files))
        (λ _. Unit)
        (quarantine_entry p o d)
unfolding quarantine_entry
quarantine_entry-lookup p none d h =
    returns tt d (λ q. ground (arith, h, Bool-cases (p == q), ==_iff p q))
quarantine_entry-lookup p (some x) d h =
    then-act (remove p) d _ (λ e s. tt)
      λ e r l.
        then-step e _ (λ f s. tt)
          λ f s.
            then-step f _ (λ g t. tt)
              λ g t.
                Ends-step g (λ i u. tt)
                  λ i u q.
                    ap (lookup q) (u.files ∙ (t.files ∙ (s.files ∙ r))) ∙ lookup-remove p q d.files

module _ {A : Type 0} {Q : A → Disk → Type 0} where
  -- A check of a descriptor, in front.
  then-valid :
      (v : ValidateResult) (d : Disk) (k : Unit {0} → Io A)
      → Ends Q (λ _. Unit) (k tt d)
      → Ends Q (λ _. Unit) (continue (valid_blob v d) k)
  unfolding continue
  then-valid ValidateResult.ok d k h = h
  then-valid (ValidateResult.err x) d k h = raises _ d tt

quarantine_blob-lookup :
    (b : BlobDescriptor) (d : Disk)
    → Ends
        (λ _ e.
          (q : CachePath)
          → lookup q e.files ≡ (if blob_path b == q then none else lookup q d.files))
        (λ _. Unit)
        (quarantine_blob b d)
unfolding quarantine_blob quarantine quarantine_locked
quarantine_blob-lookup b d = then-valid (validate_blob b) d _ (
    then-step d _ (λ e s. tt)
      λ e s.
        then-step e _ (λ f t. tt)
          λ f t.
            then-step f _ (λ g u. tt)
              λ g u.
                then-inspect (blob_path b) g _ (λ i v. tt)
                  λ i v.
                    let same : i.files ≡ d.files = v.files ∙ (u.files ∙ (t.files ∙ s.files)) in
                    Ends-map _
                      (λ _ j k q.
                        k q ∙ ap (λ m. if blob_path b == q then none else lookup q m) same)
                      (λ j k. tt)
                      (quarantine_entry-lookup (blob_path b) _ i
                        (ap (lookup (blob_path b)) v.files)))

quarantine_all-Clears :
    (bs : List BlobDescriptor) (d : Disk)
    → Ends (λ _ e. Clears bs d e) (λ _. Unit) (quarantine_all bs d)
unfolding quarantine_all
quarantine_all-Clears [] d = returns tt d (λ p. refl)
quarantine_all-Clears (b ∷ bs) d = Ends-continue _ _ _ (quarantine_blob-lookup b d) λ u e h.
    Ends-map _ (λ _ f k. Clears-cons b bs d e f h k) (λ f k. tt) (quarantine_all-Clears bs e)

abbrev Scanned : List BlobDescriptor → Disk → Scan → Disk → Type 0
Scanned bs d found e =
    (found.0 ≡ filter (λ b. not (stands b (on d b))) bs)
    × (found.1 ≡ filter (λ b. is_wrong b (on d b)) bs)
    × (e.files ≡ d.files)

scan_entry-Scanned :
    (b : BlobDescriptor) (bs : List BlobDescriptor) (o : Option Entry) (d e : Disk) (found : Scan)
    → on d b ≡ o
    → Scanned bs d found e
    → Scanned (b ∷ bs) d (scan_entry b o found) e
unfolding scan_entry
scan_entry-Scanned b bs none d e found h (m, w, s) = ground (arith, h, m, w, s)
scan_entry-Scanned b bs (some irregular) d e found h (m, w, s) = ground (arith, h, m, w, s)
scan_entry-Scanned b bs (some (regular content)) d e found h (m, w, s) =
    ground (arith, h, m, w, s, Bool-cases (length content == b.encoded_size_bytes))

scan-Scanned : (bs : List BlobDescriptor) (d : Disk) → Ends (Scanned bs d) (λ _. Unit) (scan bs d)
unfolding scan
scan-Scanned [] d = returns _ d (refl, refl, refl)
scan-Scanned (b ∷ bs) d = then-valid (validate_blob b) d _ (
    then-step d _ (λ e s. tt)
      λ e s.
        then-inspect (blob_path b) e _ (λ f t. tt)
          λ f t.
            let same : f.files ≡ d.files = t.files ∙ s.files in
            Ends-continue (Scanned bs f) _ _ (scan-Scanned bs f) λ found g k. returns _ g (
              scan_entry-Scanned b bs (on e b) d g found (ap (lookup (blob_path b)) (sym s.files))
                (moved f same found g k)))
  where
    moved :
        (f : Disk)
        → f.files ≡ d.files
        → (found : Scan) (g : Disk) → Scanned bs f found g
        → Scanned bs d found g
    moved f same found g (m, w, s) = (
      m ∙ ap (λ files. filter (λ b. not (stands b (lookup (blob_path b) files))) bs) same,
      w ∙ ap (λ files. filter (λ b. is_wrong b (lookup (blob_path b) files)) bs) same,
      s ∙ same,
    )

-- What a report says of the disk before and after.
abbrev Reports : List BlobDescriptor → Disk → List BlobDescriptor → Disk → Type 0
Reports bs d missing e =
    (missing ≡ filter (λ b. not (stands b (on d b))) bs)
    × Clears (filter (λ b. is_wrong b (on d b)) bs) d e

-- The same of disks with the same files.
Reports-files :
    (bs : List BlobDescriptor) (d e : Disk) (missing : List BlobDescriptor) (f : Disk)
    → e.files ≡ d.files
    → Reports bs e missing f
    → Reports bs d missing f
Reports-files bs d e missing f s (m, c) = (
  m ∙ ap (λ files. filter (λ b. not (stands b (lookup (blob_path b) files))) bs) s,
  λ p.
      c p
      ∙ ap
          (λ files.
            cleared (filter (λ b. is_wrong b (lookup (blob_path b) files)) bs) p (lookup p files))
          s,
)

find_missing_blobs-Reports :
    (bs : List BlobDescriptor) (d : Disk)
    → Ends (Reports bs d) (λ _. Unit) (find_missing_blobs bs d)
unfolding find_missing_blobs
find_missing_blobs-Reports bs d =
    then-step d _ (λ e s. tt)
      λ e s. Ends-continue _ _ _ (scan-Scanned bs e) λ found f k.
        Ends-continue _ _ _ (quarantine_all-Clears found.1 f) λ u g c. returns found.0 g (
          Reports-files bs d e found.0 g s.files (
            k.0,
            λ p.
                c p
                ∙ (ap (λ ws. cleared ws p (lookup p f.files)) k.1
                    ∙ ap
                        (λ files. cleared (filter (λ b. is_wrong b (on e b)) bs) p (lookup p files))
                        k.2),
          ))

-- Whatever stood on the disk and whatever fails: when `find_missing_blobs` returns, it reports, in
-- the order of the request, exactly the blobs that had no regular file of the declared size at their
-- path. Of what stood on the disk it has taken away exactly what was at the paths of the requested
-- blobs without being such a file.
pub missing_blobs_are_exact :
    (bs : List BlobDescriptor) (d : Disk) (missing : List BlobDescriptor)
    → (find_missing_blobs bs d).0 ≡ ok missing
    → (missing ≡ filter (λ b. not (stands b (on d b))) bs)
      × ((p : CachePath)
          → lookup p (find_missing_blobs bs d).1.files
            ≡ cleared (filter (λ b. is_wrong b (on d b)) bs) p (lookup p d.files))
missing_blobs_are_exact bs d missing = Ends-ok _ missing (find_missing_blobs-Reports bs d)
