-- ===== src/Restore/Exec.antt =====
-- The execution of the restore code (crates/octa-cache/src/restore.rs) on durable state: each action
-- on the file system meets a fault of a script. An action happens, or fails and changes nothing, or
-- the process stops in front of it. A script that has ended lets every action happen.
pub mod Ends
pub mod Loops
use octa.Common.{Bool, true, false, List, [], ◌∷◌, if◌then◌else◌}

pub data Fault : Type 0 where
  happens fails stops : Fault

-- The errors that the code tells apart.
pub data RestoreError : Type 0 where
  io_error metadata_error cancelled : RestoreError

-- How a run ends, with the state it leaves and the rest of the script.
pub data Outcome (S A : Type 0) : Type 0 where
  returned : A → S → List Fault → Outcome S A
  raised : RestoreError → S → List Fault → Outcome S A
  stopped : S → Outcome S A

abbrev pub Exec : Type 0 → Type 0 → Type 0
Exec S A = S → List Fault → Outcome S A

module _ {S A : Type 0} where
  abbrev pub pure : A → Exec S A
  pure a s fs = returned a s fs

  abbrev pub raise : RestoreError → Exec S A
  raise e s fs = raised e s fs

module _ {S A B : Type 0} where
  unfoldable pub continue : Outcome S A → (A → Exec S B) → Outcome S B
  continue (returned a s fs) k = k a s fs
  continue (raised e s fs) k = raised e s fs
  continue (stopped s) k = stopped s

  infixl 5 ◌>>=◌ ◌>>◌
  abbrev pub ◌>>=◌ : Exec S A → (A → Exec S B) → Exec S B
  ◌>>=◌ m k s fs = continue (m s fs) k

  abbrev pub ◌>>◌ : Exec S A → Exec S B → Exec S B
  m >> n = m >>= λ _. n

module _ {S : Type 0} where
  -- An atomic change of the durable state that raises `e` when it fails.
  unfoldable pub act : RestoreError → (S → S) → Exec S (Unit {0})
  act e f s [] = returned tt (f s) []
  act e f s (happens ∷ fs) = returned tt (f s) fs
  act e f s (fails ∷ fs) = raised e s fs
  act e f s (stops ∷ fs) = stopped s

  -- An observation that may fail.
  unfoldable pub observe : (S → Bool) → Exec S Bool
  observe f s [] = returned (f s) s []
  observe f s (happens ∷ fs) = returned (f s) s fs
  observe f s (fails ∷ fs) = raised io_error s fs
  observe f s (stops ∷ fs) = stopped s

  -- An action whose effect is not part of the state: making a directory, a flush.
  abbrev pub step : Exec S (Unit {0})
  step = act io_error λ s. s

  -- `check_cancelled`.
  abbrev pub check_cancelled : Exec S (Unit {0})
  check_cancelled = act cancelled λ s. s

  abbrev pub repeat : Exec S (Unit {0}) → List (Unit {0}) → Exec S (Unit {0})
  repeat m [] = pure tt
  repeat m (_ ∷ n) = m >> repeat m n

-- `if let Err(error) = ... { recover; return Err(error) }`.
module _ {S A : Type 0} where
  unfoldable pub on_error : Outcome S A → Exec S (Unit {0}) → Outcome S A
  on_error (returned a s fs) handler = returned a s fs
  on_error (raised e s fs) handler = continue (handler s fs) λ _. raise e
  on_error (stopped s) handler = stopped s

-- `let _ = ...`.
module _ {S : Type 0} where
  unfoldable pub ignoring : Outcome S (Unit {0}) → Outcome S (Unit {0})
  ignoring (returned a s fs) = returned tt s fs
  ignoring (raised e s fs) = returned tt s fs
  ignoring (stopped s) = stopped s

module _ {S T A : Type 0} where
  unfoldable pub with_state : (S → T) → Outcome S A → Outcome T A
  with_state f (returned a s fs) = returned a (f s) fs
  with_state f (raised e s fs) = raised e (f s) fs
  with_state f (stopped s) = stopped (f s)

module _ {S : Type 0} where
  -- `for entry in &journal.roots`, where the body works on the files of one entry.
  unfoldable pub each : Exec S (Unit {0}) → Exec (List S) (Unit {0})
  each body [] fs = returned tt [] fs
  each body (r ∷ rs) fs = elim (body r fs) [
    | returned _ q gs ↦ with_state (λ qs. q ∷ qs) (each body rs gs)
    | raised e q gs ↦ raised e (q ∷ rs) gs
    | stopped q ↦ stopped (q ∷ rs)
  ]

  -- `for entry in journal.roots.iter().rev()`.
  unfoldable pub each_rev : Exec S (Unit {0}) → Exec (List S) (Unit {0})
  each_rev body [] fs = returned tt [] fs
  each_rev body (r ∷ rs) fs = elim (each_rev body rs fs) [
    | returned _ qs gs ↦ with_state (λ q. q ∷ qs) (body r gs)
    | raised e qs gs ↦ raised e (r ∷ qs) gs
    | stopped qs ↦ stopped (r ∷ qs)
  ]
