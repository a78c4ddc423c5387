-- ===== src/Restore/Revert.antt =====
-- What rollback and cleanup do with one root, from every point that installing may have reached.
use octa.Common.{true, Option, none, some, List, sym, subst, if◌then◌else◌}
use octa.Restore.Exec.{Fault, continue, ◌>>◌, step, pure, raise, metadata_error}
use octa.Restore.Exec.Ends.{Ends, Ends-act, Ends-continue, then-act, then-observe, at_return}
use octa.Restore.Exec.Loops.{Turns}
use octa.Restore.State.{
  Root, live, staged, saved, path_exists, rename, sync_rename_parents, discard, is_some,
}
use octa.Restore.Transaction.{return_installed, revert_original, revert_new, revert, check_live}
use octa.Restore.Roots.{
  Target, absent, present, root_of, Untouched, untouched, BackedUp, backed_up, nothing_to_save,
  Installed, installed, Phase, is_untouched, is_backed_up, is_installed, LiveNew,
}

module _ {V : Type 0} where
  give_back-Ends :
      (o n : V) (r : Root V) (fs : List Fault)
      → BackedUp (present o n) r
      → Ends
          (λ _. Untouched (present o n))
          (Phase (present o n))
          (Phase (present o n))
          fs
          ((do step; rename saved live; sync_rename_parents) r fs)
  unfolding rename sync_rename_parents
  give_back-Ends _ _ _ fs (backed_up o n) =
      let saved = is_backed_up _ _ (backed_up o n) in
      let whole = is_untouched _ _ (untouched (present o n)) in
      then-act _ _ _ fs _ saved saved λ gs.
        then-act _ _ _ gs _ saved saved
          λ hs. then-act _ _ _ hs _ whole whole λ is. Ends-act _ _ _ is whole whole (untouched _)

  return_installed-Ends :
      (o n : V) (fs : List Fault)
      → let t = present o n in
        Ends
          (λ _. BackedUp t)
          (Phase t)
          (Phase t)
          fs
          (return_installed true (root_of t (some n) none (some o)) fs)
  unfolding return_installed path_exists rename sync_rename_parents
  return_installed-Ends o n fs =
      let new = is_installed _ _ (installed (present o n)) in
      let saved = is_backed_up _ _ (backed_up o n) in
      then-observe _ _ fs _ new new λ gs. then-act _ _ _ gs _ new new λ hs.
        then-act _ _ _ hs _ new new
          λ is. then-act _ _ _ is _ saved saved λ js. Ends-act _ _ _ js saved saved (backed_up o n)

  take_back-Ends :
      (n : V) (fs : List Fault)
      → let t = absent n in
        Ends
          (λ _. Untouched t)
          (Phase t)
          (Phase t)
          fs
          (continue (rename live staged (root_of t (some n) none none) fs) λ _. sync_rename_parents)
  unfolding rename sync_rename_parents
  take_back-Ends n fs =
      let new = is_installed _ _ (installed (absent n)) in
      let whole = is_untouched _ _ (untouched (absent n)) in
      then-act _ _ _ fs _ new new
        λ gs. then-act _ _ _ gs _ whole whole λ hs. Ends-act _ _ _ hs whole whole (untouched _)

  Untouched-Turns : Turns Untouched Untouched Phase (revert {V = V})
  unfolding revert revert_new revert_original path_exists continue
  Untouched-Turns _ _ fs (untouched (absent n)) =
      let whole = is_untouched _ _ (untouched (absent n)) in
      then-observe _ _ fs _ whole whole
        λ gs. then-observe _ _ gs _ whole whole λ hs. at_return tt _ hs (untouched _)
  Untouched-Turns _ _ fs (untouched (present o n)) =
      let whole = is_untouched _ _ (untouched (present o n)) in
      then-observe _ _ fs _ whole whole
        λ gs. then-observe _ _ gs _ whole whole λ hs. at_return tt _ hs (untouched _)

  BackedUp-Turns : Turns BackedUp Untouched Phase (revert {V = V})
  unfolding revert revert_original return_installed path_exists continue
  BackedUp-Turns _ _ fs (nothing_to_save n) = Untouched-Turns _ _ fs (untouched (absent n))
  BackedUp-Turns _ _ fs (backed_up o n) =
      let saved = is_backed_up _ _ (backed_up o n) in
      then-observe _ _ fs _ saved saved
        λ gs. then-observe _ _ gs _ saved saved λ hs. give_back-Ends _ _ _ hs (backed_up o n)

  Installed-Turns : Turns Installed Untouched Phase (revert {V = V})
  unfolding revert revert_new revert_original path_exists
  Installed-Turns _ _ fs (installed (absent n)) =
      let new = is_installed _ _ (installed (absent n)) in
      then-observe _ _ fs _ new new λ gs.
        then-observe _ _ gs _ new new λ hs. then-act _ _ _ hs _ new new λ is. take_back-Ends n is
  Installed-Turns _ _ fs (installed (present o n)) =
      let new = is_installed _ _ (installed (present o n)) in
      then-observe _ _ fs _ new new λ gs. then-observe _ _ gs _ new new λ hs.
        Ends-continue (λ _. BackedUp (present o n)) _ _ (return_installed-Ends o n hs)
          λ _. give_back-Ends o n

  pub revert-Turns : Turns Phase Untouched Phase (revert {V = V})
  revert-Turns t r fs (is_untouched _ _ h) = Untouched-Turns t r fs h
  revert-Turns t r fs (is_backed_up _ _ h) = BackedUp-Turns t r fs h
  revert-Turns t r fs (is_installed _ _ h) = Installed-Turns t r fs h

  -- Deleting the files of a transaction and looking at live files change no live file.
  pub discard-Turns :
      (P : Target V → Option V → Type 0)
      → Turns (λ t r. P t r.live) (λ t r. P t r.live) (λ t r. P t r.live) discard
  unfolding discard
  discard-Turns P t r fs h = then-act _ _ _ fs _ h h λ gs. Ends-act _ _ _ gs h h h

  pub check_live-Turns : Turns LiveNew LiveNew LiveNew (check_live {V = V})
  unfolding check_live path_exists
  check_live-Turns t r fs h = then-observe _ _ fs _ h h λ gs.
      subst
        (λ v.
          Ends (λ _. LiveNew t) (LiveNew t) (LiveNew t) gs
            ((if is_some v then pure tt else raise metadata_error) r gs))
        (sym h) (at_return tt r gs h)
