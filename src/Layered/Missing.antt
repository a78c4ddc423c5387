-- ===== src/Layered/Missing.antt =====
-- What a layered lookup of missing blobs promises when both stores answer truthfully.
use octa.Common.{
  ◌≤◌, ◌≡◌, refl, sym, Bool, true, not, ◌&&◌, List, [], ◌∷◌, arith, ==_iff, if◌then◌else◌, contains,
  count, length, all, length-le_of_count,
}
use octa.BlobDescriptor.{BlobDescriptor, blob_eq}
use octa.Layered.{ok, CacheLayer, local, remote, find_missing, filter, to_set}
use octa.Layered.Lookup.{
  check_missing, find_missing_reply, find_missing_remote, find_missing_local, find_missing_blobs,
}
use octa.Layered.Runs.{Stores, run}

contains-to_set :
    (b : BlobDescriptor) (bs : List BlobDescriptor) → contains (to_set bs) b ≡ contains bs b
contains-to_set b [] = refl
contains-to_set b (c ∷ bs) = ground (arith, contains-to_set b bs, ==_iff c b)

count-to_set :
    (b : BlobDescriptor) (bs : List BlobDescriptor)
    → count b (to_set bs) ≡ (if contains bs b then 1 else 0)
count-to_set b [] = refl
count-to_set b (c ∷ bs) = ground (arith, count-to_set b bs, ==_iff c b)

-- Every member of `bs` is in `cs`.
abbrev Within : List BlobDescriptor → List BlobDescriptor → Type 0
Within bs cs = (b : BlobDescriptor) → contains bs b ≡ true → contains cs b ≡ true

length-to_set :
    (bs cs : List BlobDescriptor) → Within bs cs → length (to_set bs) ≤ length (to_set cs)
length-to_set bs cs h = length-le_of_count (to_set bs) (to_set cs) no_more
  where
    no_more : (b : BlobDescriptor) → count b (to_set bs) ≤ count b (to_set cs)
    no_more b = ground (arith, count-to_set b bs, count-to_set b cs, h b)

all-contains : (bs cs : List BlobDescriptor) → Within bs cs → all (contains cs) bs ≡ true
all-contains [] cs h = refl
all-contains (b ∷ bs) cs h =
    ground (arith, h b, all-contains bs cs (λ c e. h c (ground arith)), ==_iff b b)

filter_agree :
    (f g : BlobDescriptor → Bool) (bs cs : List BlobDescriptor)
    → ((b : BlobDescriptor) → contains cs b ≡ true → f b ≡ g b)
    → Within bs cs
    → filter f bs ≡ filter g bs
filter_agree f g [] cs h within = refl
filter_agree f g (b ∷ bs) cs h within =
    ground
      (arith, h b, within b, ==_iff b b, filter_agree f g bs cs h (λ c e. within c (ground arith)))

filter-filter :
    (f g : BlobDescriptor → Bool) (bs : List BlobDescriptor)
    → filter f (filter g bs) ≡ filter (λ b. g b && f b) bs
filter-filter f g [] = refl
filter-filter f g (b ∷ bs) = ground (arith, filter-filter f g bs)

-- The checked answer of a truthful remote store.
check_missing_lem :
    (asked reported : List BlobDescriptor) (lacks : BlobDescriptor → Bool)
    → ((b : BlobDescriptor) → contains reported b ≡ (contains asked b && lacks b))
    → check_missing asked reported ≡ ok (filter lacks asked)
unfolding check_missing
check_missing_lem asked reported lacks h = ground (
  arith,
  length-to_set reported asked within,
  all-contains (to_set reported) (to_set asked) set_within,
  same,
)
  where
    within : Within reported asked
    within b e = ground (arith, h b)

    set_within : Within (to_set reported) (to_set asked)
    set_within b e = ground (arith, contains-to_set b reported, contains-to_set b asked, within b)

    same : filter (contains (to_set reported)) asked ≡ filter lacks asked
    same =
        filter_agree (contains (to_set reported)) lacks asked asked
          (λ b e. ground (arith, contains-to_set b reported, h b)) (λ b e. e)

-- For this request and at the world `w`, the local store reports what it lacks, and the remote store,
-- asked for that, what it lacks of it, in any order and as often as it likes.
pub record Truthful {R W : Type 0} (stores : Stores R W) (has : CacheLayer → BlobDescriptor → Bool)
    (blobs : List BlobDescriptor) (w : W) : Type 0 where
  pub local_law :
      (stores (find_missing local blobs) w).0 ≡ ok (filter (λ b. not (has local b)) blobs)
  pub reported : List BlobDescriptor
  pub remote_law :
      let asked = filter (λ b. not (has local b)) blobs in
      (stores (find_missing remote asked) (stores (find_missing local blobs) w).1).0 ≡ ok reported
  pub remote_exact :
      (b : BlobDescriptor)
      → contains reported b
        ≡ (contains (filter (λ b. not (has local b)) blobs) b && not (has remote b))

module _ {R W : Type 0} (stores : Stores R W) (has : CacheLayer → BlobDescriptor → Bool) where
  remote_value :
      (asked reported : List BlobDescriptor) (w : W) (flag : Bool)
      → (stores (find_missing remote asked) w).0 ≡ ok reported
      → ((b : BlobDescriptor) → contains reported b ≡ (contains asked b && not (has remote b)))
      → (run stores (find_missing_remote asked) w flag).value
        ≡ ok (filter (λ b. not (has remote b)) asked)
  unfolding find_missing_remote find_missing_reply run
  remote_value [] reported w flag h exact = refl
  remote_value (b ∷ bs) reported w flag h exact =
      rw h (check_missing_lem (b ∷ bs) reported (λ c. not (has remote c)) exact)

  -- When both stores are truthful about a request, a layered lookup of it reports exactly the
  -- requested blobs that neither store has, in the order of the request.
  pub find_missing_blobs_lem :
      (blobs : List BlobDescriptor) (w : W) (flag : Bool)
      → Truthful stores has blobs w
      → (run stores (find_missing_blobs blobs) w flag).value
        ≡ ok (filter (λ b. not (has local b) && not (has remote b)) blobs)
  unfolding find_missing_blobs find_missing_local run
  find_missing_blobs_lem blobs w flag t =
      rw (t.local_law, sym (filter-filter (λ b. not (has remote b)) (λ b. not (has local b)) blobs))
        (remote_value (filter (λ b. not (has local b)) blobs) t.reported
          (stores (find_missing local blobs) w).1 flag t.remote_law t.remote_exact)
