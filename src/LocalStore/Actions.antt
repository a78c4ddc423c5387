-- ===== src/LocalStore/Actions.antt =====
-- The action records of the local store: what a write that succeeds leaves, and what a lookup finds.
use octa.Common.{
  ℕ, ◌≡◌, ◌≢◌, ◌⊎◌, inl, inr, refl, ◌∙◌, ap, Option, none, some, List, arith, ◌==◌, ==_iff, ==_refl,
  nat_eq, ltb, length, lookup, insert, lookup-insert,
}
use octa.Text.{Str, str_eq}
use octa.BlobDescriptor.{BlobDescriptor}
use octa.ActionResult.{max_action_result_wire_bytes}
use octa.Layered.{WriteOutcome, written, already_present, conflict}
use octa.LocalStore.{
  CachePath, action_file, path_eq, Entry, regular, irregular, Disk, step, ◌>>◌, blob_path,
}
use octa.LocalStore.Objects.{publish_entry, publish_temporary, discard_present, publish_bytes}
use octa.LocalStore.Operations.{
  check_bundle_entry, check_output_bundle, compare_existing, action_published,
  write_action_reserved,
}
use octa.LocalStore.Ends.{
  Same, Ends, returns, raises, Ends-map, Ends-continue, then-step, then-inspect, then-act,
  then-discard, Ends-or_discard, Ends-step, if-Ends,
}

-- A regular file with this content.
abbrev pub Holds : CachePath → List ℕ → Disk → Type 0
Holds p bytes d = lookup p d.files ≡ some (regular bytes)

-- The blob of a record stands at its path with its size.
abbrev pub BundleStands : Option BlobDescriptor → Disk → Type 0
BundleStands none d = Unit
BundleStands (some b) d =
    (content : List ℕ) × Holds (blob_path b) content d × (length content ≡ b.encoded_size_bytes)

pub BundleStands-files :
    (bundle : Option BlobDescriptor) (d e : Disk)
    → e.files ≡ d.files
    → BundleStands bundle d
    → BundleStands bundle e
BundleStands-files none d e s h = tt
BundleStands-files (some b) d e s (content, found, sized) =
    (content, ap (lookup (blob_path b)) s ∙ found, sized)

-- A file put at the path of an action leaves the blobs alone.
BundleStands-insert :
    (bundle : Option BlobDescriptor) (d e : Disk) (n h : Str) (s : ℕ) (x : Entry)
    → e.files ≡ insert (action_file n h s) x d.files
    → BundleStands bundle d
    → BundleStands bundle e
unfolding blob_path
BundleStands-insert none d e n h s x i b = tt
BundleStands-insert (some b) d e n h s x i (content, found, sized) = (
  content,
  ap (lookup (blob_path b)) i
      ∙ ground (arith, lookup-insert (action_file n h s) (blob_path b) x d.files, found),
  sized,
)

check_output_bundle-Ends :
    (bundle : Option BlobDescriptor) (d : Disk)
    → Ends (λ _ e. BundleStands bundle e) (λ e. e.files ≡ d.files) (check_output_bundle bundle d)
unfolding check_output_bundle check_bundle_entry
check_output_bundle-Ends none d = returns tt d tt
check_output_bundle-Ends (some b) d =
    then-step d _ (λ e s. s.files)
      λ e s.
        then-inspect (blob_path b) e _ (λ f t. t.files ∙ s.files)
          λ f t.
            seen f (lookup (blob_path b) e.files) (ap (lookup (blob_path b)) t.files)
              (t.files ∙ s.files)
  where
    seen :
        (f : Disk) (o : Option Entry)
        → lookup (blob_path b) f.files ≡ o
        → f.files ≡ d.files
        → Ends (λ _ e. BundleStands (some b) e) (λ e. e.files ≡ d.files) (check_bundle_entry b o f)
    seen f none h k = raises _ f k
    seen f (some irregular) h k = raises _ f k
    seen f (some (regular content)) h k =
        if-Ends (length content == b.encoded_size_bytes) _ _ f
          (λ e. returns tt f (content, h, (==_iff _ _).0 e)) (λ e. raises _ f k)

module _ (bundle : Option BlobDescriptor) (n h : Str) (s : ℕ) (bytes : List ℕ) where
  abbrev path : CachePath
  path = action_file n h s

  -- The bundle stands.
  abbrev Stands : Disk → Type 0
  Stands = BundleStands bundle

  still : (d e : Disk) → Stands d → e.files ≡ d.files → Stands e
  still d e b k = BundleStands-files bundle d e k b

  -- The bundle stands, and if the record was written, it holds these bytes.
  abbrev Published : WriteOutcome → Disk → Type 0
  Published o d = Stands d × (o ≡ written → Holds path bytes d)

  Published-files :
      (o : WriteOutcome) (d e : Disk) → e.files ≡ d.files → Published o d → Published o e
  Published-files o d e k p = (still d e p.0 k, λ w. ap (lookup path) k ∙ p.1 w)

  publish_entry-Ends :
      (o : Option Entry) (d : Disk)
      → Stands d
      → Ends Published Stands (publish_entry path bytes o d)
  unfolding publish_entry
  publish_entry-Ends (some (regular content)) d b = returns already_present d (b, λ e. absurd cc)
  publish_entry-Ends (some irregular) d b = then-discard d _ λ e t. raises _ e (still d e b t.files)
  publish_entry-Ends none d b =
      then-act (insert path (regular bytes)) d _ (λ e t. still d e b t.files)
        λ e i l.
          let b' = BundleStands-insert bundle d e n h s (regular bytes) i b in
          then-step e _ (λ f t. still e f b' t.files)
            λ f t. returns written f (Published-files written e f t.files (b', λ w. put e i))
    where
      put : (e : Disk) → e.files ≡ insert path (regular bytes) d.files → Holds path bytes e
      put e i =
          ap (lookup path) i
          ∙ ground (arith, lookup-insert path path (regular bytes) d.files, ==_refl path)

  publish_bytes-Ends : (d : Disk) → Stands d → Ends Published Stands (publish_bytes path bytes d)
  unfolding publish_bytes publish_temporary discard_present
  publish_bytes-Ends d b =
      then-step d _ (λ e t. still d e b t.files)
        λ e t.
          Ends-continue (λ _. Stands) _ _
            (Ends-or_discard Stands _ (prepared e (still d e b t.files)) discarded)
            λ u f c.
              Ends-continue Published _ _
                (Ends-or_discard Stands _
                  (then-step f _ (λ g v. still f g c v.files)
                    λ g v.
                      let cg = still f g c v.files in
                      then-step g _ (λ i w. still g i cg w.files)
                        λ i w.
                          let ci = still g i cg w.files in
                          then-inspect path i _ (λ j y. still i j ci y.files)
                            λ j y. publish_entry-Ends _ j (still i j ci y.files))
                  discarded)
                kept
    where
      discarded : (e f : Disk) → Stands e → Same e f → Stands f
      discarded e f k t = still e f k t.files

      prepared : (e : Disk) → Stands e → Ends (λ _. Stands) Stands ((step >> step) e)
      prepared e c =
          then-step e _ (λ f u. still e f c u.files)
            λ f u.
              let cf = still e f c u.files in
              Ends-step f (λ g v. still f g cf v.files) (λ g v. still f g cf v.files)

      kept :
          (o : WriteOutcome) (g : Disk)
          → Published o g
          → Ends Published Stands (discard_present o g)
      kept written g k = returns written g k
      kept conflict g k = returns conflict g k
      kept already_present g k =
          then-discard g _
            λ i v. returns already_present i (Published-files already_present g i v.files k)

  -- What a success says: the record is there, unless the outcome is a conflict.
  abbrev pub Recorded : WriteOutcome → Disk → Type 0
  Recorded o d = BundleStands bundle d × (o ≢ conflict → Holds (action_file n h s) bytes d)

  action_published-Ends :
      (o : WriteOutcome) (d : Disk)
      → Published o d
      → Ends Recorded Stands (action_published path bytes o d)
  unfolding action_published compare_existing
  action_published-Ends written d k = returns written d (k.0, λ e. k.1 refl)
  action_published-Ends conflict d k = returns conflict d (k.0, λ e. absurd (e refl))
  action_published-Ends already_present d k =
      then-inspect path d _ (λ e t. still d e k.0 t.files)
        λ e t. seen e (lookup path d.files) (ap (lookup path) t.files) (still d e k.0 t.files)
    where
      seen :
          (e : Disk) (o : Option Entry)
          → lookup path e.files ≡ o
          → Stands e
          → Ends Recorded Stands (compare_existing bytes o e)
      seen e none x b = raises _ e b
      seen e (some irregular) x b = raises _ e b
      seen e (some (regular content)) x b =
          if-Ends (ltb max_action_result_wire_bytes (length content)) _ _ e (λ l. raises _ e b)
            λ l.
              then-step e _ (λ f t. still e f b t.files)
                λ f t.
                  if-Ends (content == bytes) _ _ f
                    (λ q. returns already_present f (
                      still e f b t.files,
                      λ m.
                          ap (lookup path) t.files
                          ∙ (x ∙ ap (λ c. some (regular c)) ((==_iff content bytes).0 q)),
                    ))
                    (λ q. returns conflict f (still e f b t.files, λ m. absurd (m refl)))

  -- An error leaves what stood at the path of the record, or the bundle stands.
  abbrev pub Follows : Disk → Disk → Type 0
  Follows d e =
      (lookup (action_file n h s) e.files ≡ lookup (action_file n h s) d.files)
      ⊎ BundleStands bundle e

  pub write_action_reserved-Ends :
      (d : Disk) → Ends Recorded (Follows d) (write_action_reserved path bundle bytes d)
  unfolding write_action_reserved
  write_action_reserved-Ends d =
      Ends-continue (λ _. Stands) _ _
        (Ends-map _ (λ u e b. b) (λ e k. inl (ap (lookup path) k))
          (check_output_bundle-Ends bundle d))
        λ u e b.
          Ends-map _ (λ o f k. k) (λ f k. inr k)
            (Ends-continue _ _ _ (publish_bytes-Ends e b) action_published-Ends)
