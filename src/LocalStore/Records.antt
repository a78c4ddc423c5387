-- ===== src/LocalStore/Records.antt =====
-- A lookup of an action, as a whole.
use octa.Common.{
  ℕ, ◌≡◌, refl, sym, ◌∙◌, ap, subst, true, ◌&&◌, Option, none, some, List, arith, ltb, ◌≤◌, length,
  lookup, Bool-cases,
}
use octa.Text.{Str, as_bytes}
use octa.Digest.{Digest, hex, hex_of}
use octa.BlobDescriptor.{digest_beq, digest_beq_iff}
use octa.ActionResult
use octa.ActionResult.{ActionResultV1, Verdict, max_action_result_wire_bytes}
use octa.LocalStore.{
  ok, CachePath, action_file, path_eq, Entry, regular, irregular, Disk, pure, step, inspect, ◌>>=◌,
  ◌>>◌, Primitives, action_path,
}
use octa.LocalStore.Operations.{
  is_valid, Json, quarantine_action, decoded_action, action_entry, get_action,
}
use octa.LocalStore.Ends.{
  Ends, returns, raises, Ends-map, Ends-ok, Ends-continue, then-step, then-inspect, if-Ends,
}
use octa.LocalStore.Writes.{whatever}
use octa.LocalStore.Actions.{Holds}
use octa.LocalStore.Written.{action_path-cases, lift-Ends}

module _ {V : Type 0} (x : Primitives) (json : Json V) where
  module _ (namespace : Str) (a : Digest) where
    -- What a lookup that finds a record has seen: a regular file under the name of the action, of no
    -- more bytes than a record may have, that decodes to the record.
    abbrev pub Found : ActionResultV1 V → Disk → Type 0
    Found r d =
        (content : List ℕ) × Holds
          (action_file (hex_of (x.hash (as_bytes namespace))) (hex a) a.size_bytes) content d
        × (length content ≤ max_action_result_wire_bytes)
        × (json.from_slice content ≡ some r)
        × (ActionResult.validate json.serde r ≡ ActionResult.ok)
        × (r.action ≡ a)

    -- A lookup that returns: nothing, or a record with what it has seen.
    abbrev pub Looked : Option (ActionResultV1 V) → Disk → Type 0
    Looked none d = Unit
    Looked (some r) d = Found r d

    quarantine_action-Looked :
        (p : CachePath) (d : Disk) → Ends Looked (λ _. Unit) (quarantine_action x json p d)
    quarantine_action-Looked p d =
        Ends-continue (λ _ _. Unit) _ _ (whatever _) λ u e t. raises _ e tt

    valid-ok : (v : Verdict) → is_valid v ≡ true → v ≡ ActionResult.ok
    valid-ok ActionResult.ok h = refl
    valid-ok (ActionResult.err e) h = absurd cc

    decoded_action-Looked :
        (content : List ℕ) (o : Option (ActionResultV1 V)) (d : Disk)
        → json.from_slice content ≡ o
        → Holds (action_file (hex_of (x.hash (as_bytes namespace))) (hex a) a.size_bytes) content d
        → length content ≤ max_action_result_wire_bytes
        → Ends Looked
            (λ _. Unit)
            (decoded_action x json
              (action_file (hex_of (x.hash (as_bytes namespace))) (hex a) a.size_bytes)
              a
              o
              d)
    unfolding decoded_action
    decoded_action-Looked content none d h found small = quarantine_action-Looked _ d
    decoded_action-Looked content (some r) d h found small =
        if-Ends (is_valid (ActionResult.validate json.serde r) && digest_beq r.action a)
          (step >> pure (some r)) (quarantine_action x json _) d
          (λ t.
            then-step d _ (λ e s. tt)
              λ e s. returns (some r) e (
                content,
                ap
                      (lookup
                        (action_file (hex_of (x.hash (as_bytes namespace))) (hex a) a.size_bytes))
                      s.files
                    ∙ found,
                small,
                h,
                valid-ok _ (ground (arith, t)),
                (digest_beq_iff r.action a).0
                    (ground (arith, t, Bool-cases (is_valid (ActionResult.validate json.serde r)))),
              ))
          (λ t. quarantine_action-Looked _ d)

    action_entry-Looked :
        (o : Option Entry) (d : Disk)
        → lookup (action_file (hex_of (x.hash (as_bytes namespace))) (hex a) a.size_bytes) d.files
          ≡ o
        → Ends Looked
            (λ _. Unit)
            (action_entry x json
              (action_file (hex_of (x.hash (as_bytes namespace))) (hex a) a.size_bytes)
              a
              o
              d)
    unfolding action_entry
    action_entry-Looked none d h = returns none d tt
    action_entry-Looked (some irregular) d h = quarantine_action-Looked _ d
    action_entry-Looked (some (regular content)) d h =
        if-Ends (ltb max_action_result_wire_bytes (length content)) _ _ d
          (λ t. quarantine_action-Looked _ d)
          (λ t.
            then-step d _ (λ e s. tt)
              λ e s.
                decoded_action-Looked content (json.from_slice content) e refl
                  (ap
                      (lookup
                        (action_file (hex_of (x.hash (as_bytes namespace))) (hex a) a.size_bytes))
                      s.files
                    ∙ h)
                  (ground (arith, t)))

    -- Whatever stood on the disk and whatever fails: a lookup that finds a record finds one that
    -- passes its own validation and names the action asked for, and the disk has, in the directory of
    -- the namespace and under the name of the action, a regular file of no more bytes than a record
    -- may have, which decodes to that record.
    pub get_action_lem :
        (d : Disk) (r : ActionResultV1 V)
        → (get_action x json namespace a d).0 ≡ ok (some r)
        → Found r (get_action x json namespace a d).1
    unfolding get_action
    get_action_lem d r h =
        Ends-ok _ (some r)
          (Ends-continue _ _ _
            (Ends-map _ (λ p e k. k.0) (λ e k. tt) (lift-Ends (action_path x namespace a) d))
            λ p e k.
              subst
                (λ q.
                  Ends Looked (λ _. Unit)
                    ((step >> step >> inspect q >>= action_entry x json q a) e))
                (sym (action_path-cases x namespace a p k))
                (then-step e _ (λ f s. tt)
                  λ f s.
                    then-step f _ (λ g s. tt)
                      λ g s.
                        then-inspect _ g _ (λ i s. tt)
                          λ i s. action_entry-Looked _ i (
                            ap
                              (lookup (
                                action_file (hex_of (x.hash (as_bytes namespace))) (hex a)
                                  a.size_bytes))
                              s.files)))
          h
