-- ===== src/LocalStore/Reserved.antt =====
-- What a write of the local store does to the capacity ledger, and that the ledger keeps the files.
use octa.Common.{
  ℕ, ◌+◌, ◌-◌, ◌≤◌, ◌<◌, ◌≡◌, ◌⊎◌, refl, sym, ◌∙◌, ap, subst, Bool, true, false, arith, ltb, leb,
  if◌then◌else◌, inl, inr, nat_eq,
}
use octa.Layered.{WriteOutcome, written, already_present, conflict, is_written}
use octa.Ledger
use octa.Ledger.{
  WriteFault, StateFile, read_sync, Outcome, reserve_from, try_reserve, release_from, release,
  u64_range,
}
use octa.Ledger.Operations.{store-cases}
use octa.Ledger.Bytes.{After}
use octa.LocalStore.{CacheError, CacheResult, ok, err, Disk, Io, LocalCacheConfig}
use octa.LocalStore.Objects.{
  ledger_result, next_write, later_writes, on_ledger, reserve_again, reserve_capacity, released,
  finish_reservation,
}
use octa.LocalStore.Ends.{Ends, returns, raises, Ends-continue, Ends-attempt, then-step, if-Ends}

-- The operation leaves this count, or fails with the file as a failed write of the count leaves it.
abbrev Settles : {A : Type 0} → A → ℕ → StateFile → Outcome A → Type 0
Settles {A} a n file o =
    ((after : StateFile) × (o ≡ Ledger.returns a after) × (read_sync after ≡ Ledger.ok n))
    ⊎ ((e : Ledger.CacheError) × (after : StateFile) × (o ≡ Ledger.fails e after)
        × After file n after)

try_reserve-Settles :
    (w : WriteFault) (file : StateFile) (bytes limit_bytes used : ℕ)
    → read_sync file ≡ Ledger.ok used
    → used + bytes ≤ limit_bytes
    → limit_bytes < u64_range
    → Settles true (used + bytes) file (try_reserve w file bytes limit_bytes)
unfolding try_reserve reserve_from
try_reserve-Settles w file bytes limit_bytes used r fits small =
    let no_overflow : leb u64_range (used + bytes) ≡ false = ground arith in
    let within : ltb limit_bytes (used + bytes) ≡ false = ground arith in
    rw (r, no_overflow, within) (store-cases w file (used + bytes) true (omega arith))

release-Settles :
    (w : WriteFault) (file : StateFile) (bytes used : ℕ)
    → read_sync file ≡ Ledger.ok used
    → used < u64_range
    → Settles tt (used - bytes) file (release w file bytes)
unfolding release release_from
release-Settles w file bytes used r small =
    rw r (store-cases w file (used - bytes) tt (omega arith))

-- The count of the ledger, and a ledger that a torn write has left.
abbrev pub Counts : ℕ → Disk → Type 0
Counts n d = read_sync d.ledger ≡ Ledger.ok n

abbrev pub Unreadable : Disk → Type 0
Unreadable d = read_sync d.ledger ≡ Ledger.err Ledger.metadata

-- An operation of the ledger that settles leaves its count, or fails with that count, the one before
-- or none.
on_ledger-Ends :
    {A : Type 0} {Q : A → Disk → Type 0} {E : Disk → Type 0}
    (f : WriteFault → StateFile → Outcome A) (a : A) (n u : ℕ) (d : Disk)
    → Counts u d
    → ((w : WriteFault) → Settles a n d.ledger (f w d.ledger))
    → ((e : Disk) → Counts n e → Q a e)
    → ((e : Disk) → Counts u e ⊎ (Counts n e ⊎ Unreadable e) → E e)
    → Ends Q E (on_ledger f d)
unfolding ledger_result
on_ledger-Ends {A} {Q} {E} f a n u d c settles good bad =
    then-step d _ (λ e s. bad e (inl (ap read_sync s.ledger ∙ c)))
      λ e s.
        subst
          (λ l. Ends Q E (
            ledger_result (record e { writes = later_writes e.writes })
              (f (next_write e.writes) l)))
          (sym s.ledger)
          (settled (record e { writes = later_writes e.writes }) _ (settles (next_write e.writes)))
  where
    settled : (e : Disk) (o : Outcome A) → Settles a n d.ledger o → Ends Q E (ledger_result e o)
    settled e o (inl (after, h, r)) =
        subst (λ o. Ends Q E (ledger_result e o)) (sym h) (returns a _ (good _ r))
    settled e o (inr (x, after, h, k)) =
        subst (λ o. Ends Q E (ledger_result e o)) (sym h) (raises _ _ (bad _ (left k)))
      where
        left :
            After d.ledger n after
            → (read_sync after ≡ Ledger.ok u)
              ⊎ ((read_sync after ≡ Ledger.ok n) ⊎ (read_sync after ≡ Ledger.err Ledger.metadata))
        left (inl same) = inl (ap read_sync same ∙ c)
        left (inr other) = inr other

-- What a failed write may leave: a count between two, or a ledger that cannot be read.
abbrev pub Between : ℕ → ℕ → Disk → Type 0
Between low high d = (n : ℕ) × Counts n d × ((low ≤ n) × (n ≤ high))

abbrev pub Strayed : ℕ → ℕ → Disk → Type 0
Strayed low high d = Between low high d ⊎ Unreadable d

pub Counts-Strayed :
    (low high n : ℕ) (d : Disk) → low ≤ n → n ≤ high → Counts n d → Strayed low high d
Counts-Strayed low high n d below above c = inl (n, c, (below, above))

module _ (config : LocalCacheConfig) (collect : Io (Unit {0})) where
  -- With room below the high watermark nothing is collected.
  pub reserve_capacity-Ends :
      (n u : ℕ) (d : Disk)
      → Counts u d
      → u + n ≤ config.high_watermark_bytes
      → config.high_watermark_bytes < u64_range
      → Ends (λ _ e. Counts (u + n) e) (Strayed u (u + n)) (reserve_capacity config collect n d)
  unfolding reserve_capacity reserve_again
  reserve_capacity-Ends n u d c fits small =
      if-Ends (ltb config.max_bytes n) _ _ d (λ h. raises _ d (kept d c))
        λ h.
          then-step d _ (λ e s. kept e (ap read_sync s.ledger ∙ c))
            λ e s.
              let counted : Counts u e = ap read_sync s.ledger ∙ c in
              Ends-continue (λ b e. (b ≡ true) × Counts (u + n) e) _ _
                (on_ledger-Ends (λ w file. try_reserve w file n config.high_watermark_bytes) true
                  (u + n) u e counted
                  (λ w.
                    try_reserve-Settles w e.ledger n config.high_watermark_bytes u counted fits
                      small)
                  (λ g k. (refl, k)) failed)
                granted
    where
      kept : (e : Disk) → Counts u e → Strayed u (u + n) e
      kept e k = Counts-Strayed u (u + n) u e (omega arith) (omega arith) k

      failed : (e : Disk) → Counts u e ⊎ (Counts (u + n) e ⊎ Unreadable e) → Strayed u (u + n) e
      failed e (inl k) = kept e k
      failed e (inr (inl k)) = Counts-Strayed u (u + n) (u + n) e (omega arith) (omega arith) k
      failed e (inr (inr k)) = inr k

      granted :
          (b : Bool) (e : Disk)
          → (b ≡ true) × Counts (u + n) e
          → Ends (λ _ e. Counts (u + n) e) (Strayed u (u + n)) (reserve_again config collect n b e)
      granted true e h = returns tt e h.1
      granted false e h = absurd (ground (arith, h.0))

abbrev pub count_after : ℕ → ℕ → WriteOutcome → ℕ
count_after u n o = if is_written o then u + n else u

-- After the write, the reservation stays only for what was written.
pub finish_reservation-Ends :
    (n u : ℕ) (r : CacheResult WriteOutcome) (d : Disk)
    → Counts (u + n) d
    → u + n < u64_range
    → Ends (λ o e. Counts (count_after u n o) e) (Strayed u (u + n)) (finish_reservation n r d)
unfolding finish_reservation released
finish_reservation-Ends n u r d c small = finished r
  where
    strayed : (e : Disk) → Counts (u + n) e ⊎ (Counts u e ⊎ Unreadable e) → Strayed u (u + n) e
    strayed e (inl k) = Counts-Strayed u (u + n) (u + n) e (omega arith) (omega arith) k
    strayed e (inr (inl k)) = Counts-Strayed u (u + n) u e (omega arith) (omega arith) k
    strayed e (inr (inr k)) = inr k

    took :
        {Q : WriteOutcome → Disk → Type 0} (k : CacheResult (Unit {0}) → Io WriteOutcome)
        → ((e : Disk) → Counts u e → Ends Q (Strayed u (u + n)) (k (ok tt) e))
        → ((y : CacheError) (e : Disk)
            → Strayed u (u + n) e
            → Ends Q (Strayed u (u + n)) (k (err y) e))
        → Ends Q (Strayed u (u + n)) (
            octa.LocalStore.continue
              (octa.LocalStore.caught (on_ledger (λ w file. release w file n) d))
              k)
    took k f g =
        Ends-attempt (λ _ e. Counts u e) (Strayed u (u + n)) _ k
          (on_ledger-Ends (λ w file. release w file n) tt u (u + n) d c
            (λ w.
              subst (λ m. Settles tt m d.ledger (release w d.ledger n)) (omega arith)
                (release-Settles w d.ledger n (u + n) c small))
            (λ e h. h) strayed)
          (λ a e h. f e h) g

    finished :
        (r : CacheResult WriteOutcome)
        → Ends (λ o e. Counts (count_after u n o) e) (Strayed u (u + n)) (finish_reservation n r d)
    finished (ok written) = returns written d c
    finished (ok already_present) =
        took _ (λ e h. returns already_present e h) (λ y e h. raises y e h)
    finished (ok conflict) = took _ (λ e h. returns conflict e h) (λ y e h. raises y e h)
    finished (err y) =
        took _ (λ e h. raises y e (Counts-Strayed u (u + n) u e (omega arith) (omega arith) h))
          (λ z e h. raises _ e h)

-- An operation of the ledger keeps the files.
pub on_ledger-files :
    {A : Type 0} (f : WriteFault → StateFile → Ledger.Outcome A) (d : Disk)
    → Ends (λ _ e. e.files ≡ d.files) (λ e. e.files ≡ d.files) (on_ledger f d)
unfolding ledger_result
on_ledger-files f d =
    then-step d _ (λ e s. s.files)
      λ e s.
        stored (record e { writes = later_writes e.writes }) (f (next_write e.writes) e.ledger)
          s.files
  where
    stored :
        {A : Type 0} (e : Disk) (o : Ledger.Outcome A)
        → e.files ≡ d.files
        → Ends (λ _ g. g.files ≡ d.files) (λ g. g.files ≡ d.files) (ledger_result e o)
    stored e (Ledger.returns a file) l = returns a _ l
    stored e (Ledger.fails y file) l = raises _ _ l

pub finish_reservation-err :
    {Q : WriteOutcome → Disk → Type 0} (bytes : ℕ) (y : CacheError) (d : Disk)
    → Ends Q (λ e. e.files ≡ d.files) (finish_reservation bytes (err y) d)
unfolding finish_reservation released
finish_reservation-err bytes y d =
    Ends-attempt _ _ _ _ (on_ledger-files (λ w file. Ledger.release w file bytes) d)
      (λ u e s. raises y e s) (λ z e s. raises _ e s)

-- The end of a reservation keeps the files and the outcome.
pub finish_reservation-files :
    (bytes : ℕ) (o : WriteOutcome) (d : Disk)
    → Ends
        (λ w e. (w ≡ o) × (e.files ≡ d.files))
        (λ e. e.files ≡ d.files)
        (finish_reservation bytes (ok o) d)
unfolding finish_reservation released
finish_reservation-files bytes written d = returns written d (refl, refl)
finish_reservation-files bytes already_present d =
    Ends-attempt _ _ _ _ (on_ledger-files (λ w file. Ledger.release w file bytes) d)
      (λ u e s. returns already_present e (refl, s)) (λ y e s. raises y e s)
finish_reservation-files bytes conflict d =
    Ends-attempt _ _ _ _ (on_ledger-files (λ w file. Ledger.release w file bytes) d)
      (λ u e s. returns conflict e (refl, s)) (λ y e s. raises y e s)
