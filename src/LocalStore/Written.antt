-- ===== src/LocalStore/Written.antt =====
-- A write of an action record, as a whole: what it leaves when it returns and when it fails.
use octa.Common.{
  ℕ, Bool, false, ◌≡◌, ◌⊎◌, inl, inr, refl, sym, ◌∙◌, ap, subst, true, none, arith, ltb, lookup,
  Bool-cases,
}
use octa.Text.{Str, as_bytes}
use octa.Digest.{blake3, Digest, hex, hex_of}
use octa.BlobDescriptor.{algorithm_beq}
use octa.ActionResult
use octa.ActionResult.{ActionResultV1, Verdict, max_action_result_wire_bytes}
use octa.Layered.{WriteOutcome}
use octa.LocalStore.{
  CacheResult, ok, err, CachePath, action_file, path_eq, Disk, Io, lift, LocalCacheConfig,
  Primitives, is_namespace, action_path,
}
use octa.LocalStore.Objects.{reserve_last, reserve_again, reserve_capacity, finish_reservation}
use octa.LocalStore.Operations.{valid_action, Json, write_action_at, write_action_if_absent}
use octa.LocalStore.Ends.{
  Ends, returns, raises, Ends-map, Ends-ok, Ends-after, Ends-continue, Ends-attempt, then-step,
  if-Ends,
}
use octa.Ledger.{try_reserve}
use octa.LocalStore.Reserved.{on_ledger-files, finish_reservation-err, finish_reservation-files}
use octa.LocalStore.Actions.{
  BundleStands, BundleStands-files, Recorded, Follows, write_action_reserved-Ends,
}

-- The path of an action is below the actions.
pub action_path-cases :
    (x : Primitives) (namespace : Str) (a : Digest) (p : CachePath)
    → action_path x namespace a ≡ ok p
    → p ≡ action_file (hex_of (x.hash (as_bytes namespace))) (hex a) a.size_bytes
unfolding action_path
action_path-cases x namespace a p h =
    ground
      (arith, h, Bool-cases (algorithm_beq a.algorithm blake3), Bool-cases (is_namespace namespace))

-- Lifted results.
pub lift-Ends :
    {A : Type 0} (r : CacheResult A) (d : Disk)
    → Ends (λ a e. (r ≡ ok a) × (e.files ≡ d.files)) (λ e. e.files ≡ d.files) (lift r d)
lift-Ends (ok a) d = returns a d (refl, refl)
lift-Ends (err y) d = raises y d refl

-- At every path stands what stood there, or nothing.
abbrev pub Shrunk : Disk → Disk → Type 0
Shrunk d e = (p : CachePath) → (lookup p e.files ≡ lookup p d.files) ⊎ (lookup p e.files ≡ none)

Shrunk-files : (d e f : Disk) → f.files ≡ e.files → Shrunk d e → Shrunk d f
Shrunk-files d e f s k p = elim (k p) [
  | inl q ↦ inl (ap (lookup p) s ∙ q)
  | inr q ↦ inr (ap (lookup p) s ∙ q)
]

-- A collection removes files, and does nothing else to them.
abbrev pub OnlyRemoves : Io (Unit {0}) → Type 0
OnlyRemoves collect = (d : Disk) → Shrunk d (collect d).1

module _ (config : LocalCacheConfig) (collect : Io (Unit {0})) (removes : OnlyRemoves collect) where
  reserve_again-Shrunk :
      (n : ℕ) (granted : Bool) (c d : Disk)
      → d.files ≡ c.files
      → Ends (λ _. Shrunk c) (Shrunk c) (reserve_again config collect n granted d)
  unfolding reserve_again reserve_last
  reserve_again-Shrunk n true c d s = returns tt d (λ p. inl (ap (lookup p) s))
  reserve_again-Shrunk n false c d s =
      Ends-continue (λ _. Shrunk c) _ _ (collected (collect d) (removes d))
        λ u e k.
          then-step e _ (λ f t. Shrunk-files c e f t.files k)
            λ f t.
              let kf = Shrunk-files c e f t.files k in
              Ends-continue (λ _. Shrunk c) _ _
                (Ends-map _ (λ b g m. Shrunk-files c f g m kf) (λ g m. Shrunk-files c f g m kf)
                  (on_ledger-files (λ w file. try_reserve w file n config.max_bytes) f))
                last
    where
      from : (e : Disk) → Shrunk d e → Shrunk c e
      from e k p = elim (k p) [ inl q ↦ inl (q ∙ ap (lookup p) s) | inr q ↦ inr q ]

      collected :
          (r : CacheResult (Unit {0}) × Disk) → Shrunk d r.1 → Ends (λ _. Shrunk c) (Shrunk c) r
      collected (ok u, e) k = returns u e (from e k)
      collected (err y, e) k = raises y e (from e k)

      last :
          (b : Bool) (g : Disk)
          → Shrunk c g
          → Ends (λ _. Shrunk c) (Shrunk c) (reserve_last config collect b g)
      last true g k = returns tt g k
      last false g k = raises _ g k

  pub reserve_capacity-Shrunk :
      (n : ℕ) (d : Disk) → Ends (λ _. Shrunk d) (Shrunk d) (reserve_capacity config collect n d)
  unfolding reserve_capacity
  reserve_capacity-Shrunk n d =
      if-Ends (ltb config.max_bytes n) _ _ d (λ h. raises _ d (λ p. inl refl))
        λ h.
          then-step d _ (λ e s p. inl (ap (lookup p) s.files))
            λ e s.
              Ends-continue (λ _ f. f.files ≡ d.files) _ _
                (Ends-map _ (λ b f m. m ∙ s.files) (λ f m p. inl (ap (lookup p) (m ∙ s.files)))
                  (on_ledger-files (λ w file. try_reserve w file n config.high_watermark_bytes) e))
                λ b f m. reserve_again-Shrunk n b d f m

module _ {V : Type 0} (x : Primitives) (json : Json V) (config : LocalCacheConfig)
    (collect : Io (Unit {0})) (namespace : Str) where
  -- Where the record of an action goes, in the directory of the namespace.
  abbrev pub record_path : ActionResultV1 V → CachePath
  record_path r =
      action_file (hex_of (x.hash (as_bytes namespace))) (hex r.action) r.action.size_bytes

  abbrev pub Kept : ActionResultV1 V → WriteOutcome → Disk → Type 0
  Kept r =
      Recorded r.output_bundle (hex_of (x.hash (as_bytes namespace))) (hex r.action)
        r.action.size_bytes (json.to_vec r)

  -- At the path of the record stands what stood there, or nothing, or its bundle stands.
  abbrev pub Ordered : ActionResultV1 V → Disk → Disk → Type 0
  Ordered r d e =
      (lookup (record_path r) e.files ≡ lookup (record_path r) d.files)
      ⊎ ((lookup (record_path r) e.files ≡ none) ⊎ BundleStands r.output_bundle e)

  Ordered-files :
      (r : ActionResultV1 V) (d e f : Disk) → f.files ≡ e.files → Ordered r d e → Ordered r d f
  Ordered-files r d e f s (inl q) = inl (ap (lookup (record_path r)) s ∙ q)
  Ordered-files r d e f s (inr (inl q)) = inr (inl (ap (lookup (record_path r)) s ∙ q))
  Ordered-files r d e f s (inr (inr b)) = inr (inr (BundleStands-files r.output_bundle e f s b))

  Shrunk-Ordered :
      (r : ActionResultV1 V) (c d e : Disk) → d.files ≡ c.files → Shrunk d e → Ordered r c e
  Shrunk-Ordered r c d e s k = elim (k (record_path r)) [
    | inl q ↦ inl (q ∙ ap (lookup (record_path r)) s)
    | inr q ↦ inr (inl q)
  ]

  -- What an error leaves, provided that a collection only removes files.
  abbrev Left : ActionResultV1 V → Disk → Disk → Type 0
  Left r d e = OnlyRemoves collect → Ordered r d e

  finish_reservation-Kept :
      (r : ActionResultV1 V) (bytes : ℕ) (o : WriteOutcome) (d : Disk)
      → Kept r o d
      → Ends (Kept r) (BundleStands r.output_bundle) (finish_reservation bytes (ok o) d)
  finish_reservation-Kept r bytes o d k =
      Ends-map _
        (λ w e s. (
          BundleStands-files r.output_bundle d e s.1 k.0,
          λ n. ap (lookup (record_path r)) s.1 ∙ k.1 (λ c. n (s.0 ∙ c)),
        ))
        (λ e s. BundleStands-files r.output_bundle d e s k.0) (finish_reservation-files bytes o d)

  reserved-Ends :
      (r : ActionResultV1 V) (n : ℕ) (c d : Disk)
      → d.files ≡ c.files
      → Ends
          (λ _ e. OnlyRemoves collect → Shrunk d e)
          (Left r c)
          (reserve_capacity config collect n d)
  reserved-Ends r n c d s = lifted _ λ removes. reserve_capacity-Shrunk config collect removes n d
    where
      lifted :
          (o : CacheResult (Unit {0}) × Disk)
          → (OnlyRemoves collect → Ends (λ _. Shrunk d) (Shrunk d) o)
          → Ends (λ _ e. OnlyRemoves collect → Shrunk d e) (Left r c) o
      lifted (ok u, e) f = returns u e λ removes. Ends-after (ok u, e) (f removes)
      lifted (err y, e) f =
          raises y e λ removes. Shrunk-Ordered r c d e s (Ends-after (err y, e) (f removes))

  write_action_at-Ends :
      (r : ActionResultV1 V) (c d : Disk)
      → d.files ≡ c.files
      → Ends (Kept r) (Left r c) (write_action_at x json config collect r (record_path r) d)
  unfolding write_action_at
  write_action_at-Ends r c d s = Ends-continue _ _ _ (reserved-Ends r _ c d s) λ u e k.
      Ends-attempt _ _ _ _
        (write_action_reserved-Ends r.output_bundle (hex_of (x.hash (as_bytes namespace)))
          (hex r.action) r.action.size_bytes (json.to_vec r) e)
        (λ o f m.
          Ends-map _ (λ w g l. l) (λ g l removes. inr (inr l)) (finish_reservation-Kept r _ o f m))
        (λ y f m.
          Ends-map _ (λ o g l. l)
            (λ g l removes. Ordered-files r c f g l (follows e f (k removes) m))
            (finish_reservation-err _ y f))
    where
      follows :
          (e f : Disk)
          → Shrunk d e
          → Follows r.output_bundle
              (hex_of (x.hash (as_bytes namespace)))
              (hex r.action)
              r.action.size_bytes
              (json.to_vec r)
              e
              f
          → Ordered r c f
      follows e f k (inr b) = inr (inr b)
      follows e f k (inl q) = elim (Shrunk-Ordered r c d e s k) [
        | inl p ↦ inl (q ∙ p)
        | inr (inl p) ↦ inr (inl (q ∙ p))
        | inr (inr b) ↦ elim (k (record_path r)) [
          | inl p ↦ inl (q ∙ p ∙ ap (lookup (record_path r)) s)
          | inr p ↦ inr (inl (q ∙ p))
        ]
      ]

  write_action_if_absent-Ends :
      (r : ActionResultV1 V) (d : Disk)
      → Ends (Kept r) (Left r d) (write_action_if_absent x json config collect namespace r d)
  unfolding write_action_if_absent
  write_action_if_absent-Ends r d =
      Ends-continue (λ _ e. e.files ≡ d.files) _ _ (valid (ActionResult.validate json.serde r))
        λ u e s.
          Ends-continue (λ p f. (action_path x namespace r.action ≡ ok p) × (f.files ≡ d.files)) _ _
            (Ends-map _ (λ p f k. (k.0, k.1 ∙ s))
              (λ f k removes. inl (ap (lookup (record_path r)) (k ∙ s)))
              (lift-Ends (action_path x namespace r.action) e))
            λ p f h.
              subst (λ q. Ends (Kept r) (Left r d) (write_action_at x json config collect r q f))
                (sym (action_path-cases x namespace r.action p h.0))
                (write_action_at-Ends r d f h.1)
    where
      valid : (v : Verdict) → Ends (λ _ e. e.files ≡ d.files) (Left r d) (valid_action v d)
      valid ActionResult.ok = returns tt d refl
      valid (ActionResult.err e) = raises _ d λ removes. inl refl

  -- Whatever stood on the disk and whatever fails: when a write of an action record returns, the
  -- output bundle of the record stands at its path with the size that its descriptor says, and
  -- unless the write has found a conflict, a regular file in the directory of the namespace holds
  -- exactly the bytes of the record, under the name of its action.
  pub written_action_stands :
      (r : ActionResultV1 V) (d : Disk) (o : WriteOutcome)
      → (write_action_if_absent x json config collect namespace r d).0 ≡ ok o
      → Kept r o (write_action_if_absent x json config collect namespace r d).1
  written_action_stands r d o = Ends-ok _ o (write_action_if_absent-Ends r d)

  -- Whatever stood on the disk and whatever fails, if a collection only removes files. When a write of
  -- an action record returns, the output bundle of the record stands at its path with the size that
  -- its descriptor says, and unless the write has found a conflict, a regular file under the name of
  -- the action holds exactly the bytes of the record. When the write fails, the record has not been
  -- put there before its bundle: at its path stands what stood there before, or nothing, or the bundle
  -- stands.
  pub record_follows_bundle :
      OnlyRemoves collect
      → (r : ActionResultV1 V) (d : Disk)
      → Ends (Kept r) (Ordered r d) (write_action_if_absent x json config collect namespace r d)
  record_follows_bundle removes r d =
      Ends-map _ (λ o e k. k) (λ e k. k removes) (write_action_if_absent-Ends r d)
