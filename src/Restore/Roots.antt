-- ===== src/Restore/Roots.antt =====
-- Where the old and the new value of one root stand during a transaction, and what installing and
-- reverting the root do there, whatever faults they meet.
use octa.Common.{Bool, true, false, Option, none, some, List, ◌≡◌, refl}
use octa.Restore.Exec.{Fault, continue}
use octa.Restore.Exec.Ends.{Ends, Ends-act, Ends-continue, then-act, at_return}
use octa.Restore.Exec.Loops.{Turns}
use octa.Restore.State.{Root, live, staged, rename, sync_rename_parents}
use octa.Restore.Transaction.{extract, make_backup_parent, back_up, replace}

-- What a root held when the transaction began, and what its bundle holds.
pub data Target (V : Type 0) : Type 0 where
  absent : V → Target V
  present : (old new : V) → Target V

module _ {V : Type 0} where
  abbrev pub before : Target V → Option V
  before (absent n) = none
  before (present o n) = some o

  abbrev pub bundle : Target V → V
  bundle (absent n) = n
  bundle (present o n) = n

  abbrev pub was_there : Target V → Bool
  was_there (absent n) = false
  was_there (present o n) = true

  abbrev pub root_of : Target V → (l s b : Option V) → Root V
  root_of t l s b = record {
    had_original = was_there t;
    bundled = bundle t;
    live = l;
    staged = s;
    saved = b;
  }

  pub data Unstaged : Target V → Root V → Type 0 where
    unstaged : (t : Target V) → Unstaged t (root_of t (before t) none none)

  pub data Untouched : Target V → Root V → Type 0 where
    untouched : (t : Target V) → Untouched t (root_of t (before t) (some (bundle t)) none)

  pub data BackedUp : Target V → Root V → Type 0 where
    nothing_to_save : (n : V) → BackedUp (absent n) (root_of (absent n) none (some n) none)
    backed_up : (o n : V) → BackedUp (present o n) (root_of (present o n) none (some n) (some o))

  pub data Installed : Target V → Root V → Type 0 where
    installed : (t : Target V) → Installed t (root_of t (some (bundle t)) none (before t))

  pub data Phase : Target V → Root V → Type 0 where
    is_untouched : (t : Target V) (r : Root V) → Untouched t r → Phase t r
    is_backed_up : (t : Target V) (r : Root V) → BackedUp t r → Phase t r
    is_installed : (t : Target V) (r : Root V) → Installed t r → Phase t r

  abbrev pub LiveOld : Target V → Root V → Type 0
  LiveOld t r = r.live ≡ before t

  abbrev pub LiveNew : Target V → Root V → Type 0
  LiveNew t r = r.live ≡ some (bundle t)

  pub Unstaged-LiveOld : (t : Target V) (r : Root V) → Unstaged t r → LiveOld t r
  Unstaged-LiveOld t _ (unstaged _) = refl

  pub Untouched-LiveOld : (t : Target V) (r : Root V) → Untouched t r → LiveOld t r
  Untouched-LiveOld t _ (untouched _) = refl

  pub Installed-LiveNew : (t : Target V) (r : Root V) → Installed t r → LiveNew t r
  Installed-LiveNew t _ (installed _) = refl

  pub extract-Turns : Turns Unstaged Untouched LiveOld (extract {V = V})
  unfolding extract
  extract-Turns t _ fs (unstaged _) = Ends-act _ _ _ fs refl refl (untouched t)

  pub make_backup_parent-Turns : Turns Untouched Untouched LiveOld (make_backup_parent {V = V})
  unfolding make_backup_parent
  make_backup_parent-Turns _ _ fs (untouched (absent n)) = at_return tt _ fs (untouched _)
  make_backup_parent-Turns _ _ fs (untouched (present o n)) =
      Ends-act _ _ _ fs refl refl (untouched _)

  back_up-Turns : Turns Untouched BackedUp Phase (back_up {V = V})
  unfolding back_up rename sync_rename_parents
  back_up-Turns _ _ fs (untouched (absent n)) = at_return tt _ fs (nothing_to_save n)
  back_up-Turns _ _ fs (untouched (present o n)) =
      let whole = is_untouched _ _ (untouched (present o n)) in
      let saved = is_backed_up _ _ (backed_up o n) in
      then-act _ _ _ fs _ whole whole λ gs.
        then-act _ _ _ gs _ whole whole
          λ hs. then-act _ _ _ hs _ saved saved λ is. Ends-act _ _ _ is saved saved (backed_up o n)

  install-Turns :
      (t : Target V) (r : Root V) (fs : List Fault)
      → BackedUp t r
      → Ends
          (λ _. Installed t)
          (Phase t)
          (Phase t)
          fs
          (continue (rename staged live r fs) λ _. sync_rename_parents)
  unfolding rename sync_rename_parents
  install-Turns t _ fs (nothing_to_save n) =
      let kept = is_backed_up _ _ (nothing_to_save n) in
      let done = is_installed _ _ (installed (absent n)) in
      then-act _ _ _ fs _ kept kept
        λ gs. then-act _ _ _ gs _ done done λ hs. Ends-act _ _ _ hs done done (installed (absent n))
  install-Turns t _ fs (backed_up o n) =
      let kept = is_backed_up _ _ (backed_up o n) in
      let done = is_installed _ _ (installed (present o n)) in
      then-act _ _ _ fs _ kept kept λ gs.
        then-act _ _ _ gs _ done done λ hs. Ends-act _ _ _ hs done done (installed (present o n))

  pub replace-Turns : Turns Untouched Installed Phase (replace {V = V})
  unfolding replace
  replace-Turns t r fs h =
      let whole = is_untouched t r h in
      then-act _ _ _ fs _ whole whole λ gs.
        Ends-continue (λ _. BackedUp t) _ _ (back_up-Turns t r gs h)
          λ _ q hs k.
            let kept = is_backed_up t q k in
            then-act _ _ _ hs _ kept kept λ is. install-Turns t q is k
