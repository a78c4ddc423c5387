-- ===== src/KeepOrder/Advance.antt =====
-- What `activate_raw`, `advance` and `finish` keep: entries stay in their scope's order, and
-- nothing waits for the front scope or for a raw one.
use octa.Common.{
  ◌≡◌, subst, refl, sym, ap, ◌∙◌, Bool, true, false, ◌||◌, Option, none, some, List, [], ◌∷◌, ◌++◌,
  arith, ◌==◌, ==_iff, ==_refl, if◌then◌else◌, contains, erase, lookup, insert, remove,
}
use octa.KeepOrder.{
  ConsoleScope, scope_eq, scope_beq_iff, ConsoleEntry, ScopeState, default_state, or_default,
  entry_or_default, KeepOrderRenderer, is_front, activate_raw, advance_loop, advance, finish,
}
use octa.KeepOrder.Routing.{
  buffered, buffered-insert, buffered-remove, Routed, Routed-flush, Routed-same,
}

-- Without the front of the queue, which `advance` restores.
pub record Loose (history : List ConsoleEntry) (k : KeepOrderRenderer) : Type 0 where
  pub routed : Routed history k.renderer (buffered k.scopes)
  pub raw : (s : ConsoleScope) → contains k.raw_scopes s ≡ true → buffered k.scopes s ≡ []

pub record Kept (history : List ConsoleEntry) (k : KeepOrderRenderer) : Type 0 where
  pub loose : Loose history k
  pub front : (s : ConsoleScope) → is_front s k.order ≡ true → buffered k.scopes s ≡ []

Loose-flush :
    (h : List ConsoleEntry) (k : KeepOrderRenderer) (s : ConsoleScope)
    (n : List (ConsoleScope × ScopeState)) (raws : List ConsoleScope) (order : List ConsoleScope)
    → Loose h k
    → ((t : ConsoleScope) → buffered n t ≡ (if s == t then [] else buffered k.scopes t))
    → ((t : ConsoleScope) → contains raws t ≡ true → (s == t || contains k.raw_scopes t) ≡ true)
    → Loose h (record {
      renderer = k.renderer ++ buffered k.scopes s;
      order = order;
      scopes = n;
      raw_scopes = raws;
    })
Loose-flush h k s n raws order l hn hr = record {
  routed = Routed-flush h k.renderer (buffered k.scopes) (buffered n) s l.routed hn;
  raw = λ t c. ground (arith, hn t, hr t c, l.raw t);
}

pub activate_raw-Kept :
    (h : List ConsoleEntry) (k : KeepOrderRenderer) (s : ConsoleScope)
    → Kept h k
    → Kept h (activate_raw k s)
unfolding activate_raw
activate_raw-Kept h k s kept = by_test (contains k.raw_scopes s) (lookup s k.scopes) refl
  where
    by_test :
        (b : Bool) (x : Option ScopeState)
        → lookup s k.scopes ≡ x
        → Kept h (
            if b then k else elim x [
              | some y ↦ record k {
                raw_scopes = s ∷ k.raw_scopes;
                renderer = k.renderer ++ buffered k.scopes s;
                scopes = insert s (record (entry_or_default s k.scopes) { entries = [] }) k.scopes;
              }
              | none ↦ record k { raw_scopes = s ∷ k.raw_scopes }
            ])
    by_test true x hx = kept
    by_test false none hx = record {
      loose = record {
        routed = kept.loose.routed;
        raw = λ t c. ground (arith, kept.loose.raw t, hx, scope_beq_iff s t);
      };
      front = kept.front;
    }
    by_test false (some y) hx = record {
      loose =
          Loose-flush h k s
            (insert s (record (entry_or_default s k.scopes) { entries = [] }) k.scopes)
            (s ∷ k.raw_scopes) k.order kept.loose
            (buffered-insert k.scopes s (record (entry_or_default s k.scopes) { entries = [] }))
            (λ t c. c);
      front = λ t f. ground (
        arith,
        kept.front t f,
        buffered-insert k.scopes s (record (entry_or_default s k.scopes) { entries = [] }) t,
      );
    }

pub advance_loop-Kept :
    (h : List ConsoleEntry) (k : KeepOrderRenderer) (order : List ConsoleScope)
    → Loose h k
    → Kept h (advance_loop k order)
unfolding advance_loop
advance_loop-Kept h k [] l = record {
  loose = record { routed = l.routed; raw = l.raw };
  front = λ s f. absurd (ground arith);
}
advance_loop-Kept h k (s ∷ rest) l =
    by_state (lookup s k.scopes) (entry_or_default s k.scopes).finished refl (
      advance_loop-Kept h flushed rest (
        Loose-flush h k s (remove s k.scopes) k.raw_scopes k.order l (buffered-remove k.scopes s)
          (λ t c. ground arith)))
  where
    flushed : KeepOrderRenderer
    flushed = record k { renderer = k.renderer ++ buffered k.scopes s; scopes = remove s k.scopes }

    cleared :
        (t : ConsoleScope)
        → buffered (insert s default_state (remove s k.scopes)) t
          ≡ (if s == t then [] else buffered k.scopes t)
    cleared t =
        ground (
          arith,
          buffered-insert (remove s k.scopes) s default_state t,
          buffered-remove k.scopes s t,
        )

    by_state :
        (x : Option ScopeState) (f : Bool)
        → lookup s k.scopes ≡ x
        → Kept h (advance_loop flushed rest)
        → Kept h (elim x [
          | some y ↦ if f then advance_loop flushed rest else record flushed {
            order = s ∷ rest;
            scopes = insert s default_state (remove s k.scopes);
          }
          | none ↦ record k { order = s ∷ rest }
        ])
    by_state (some y) true hx further = further
    by_state (some y) false hx further = record {
      loose =
          Loose-flush h k s (insert s default_state (remove s k.scopes)) k.raw_scopes (s ∷ rest) l
            cleared (λ t c. ground arith);
      front = λ t f. ground (arith, cleared t);
    }
    by_state none f hx further = record {
      loose = record { routed = l.routed; raw = l.raw };
      front = λ t e.
          subst (λ (u : ConsoleScope). buffered k.scopes u ≡ []) ((==_iff s t).0 e)
            (ap (λ (o : Option ScopeState). (or_default o).entries) hx);
    }

Loose-same :
    (h : List ConsoleEntry) (k : KeepOrderRenderer) (n : List (ConsoleScope × ScopeState))
    (raws : List ConsoleScope) (order : List ConsoleScope)
    → Loose h k
    → ((t : ConsoleScope) → buffered n t ≡ buffered k.scopes t)
    → ((t : ConsoleScope) → contains raws t ≡ true → contains k.raw_scopes t ≡ true)
    → Loose h (record { renderer = k.renderer; order = order; scopes = n; raw_scopes = raws })
Loose-same h k n raws order l hn hr = record {
  routed = Routed-same h k.renderer (buffered k.scopes) (buffered n) l.routed hn;
  raw = λ t c. hn t ∙ l.raw t (hr t c);
}

pub advance-Kept : (h : List ConsoleEntry) (k : KeepOrderRenderer) → Kept h k → Kept h (advance k)
unfolding advance
advance-Kept h k kept = by_order k.order refl
  where
    by_order :
        (o : List ConsoleScope)
        → k.order ≡ o
        → Kept h (elim o [
          | [] ↦ advance_loop k []
          | completed ∷ rest ↦ advance_loop (record k { scopes = remove completed k.scopes }) rest
        ])
    by_order [] ho = advance_loop-Kept h k [] kept.loose
    by_order (c ∷ rest) ho =
        advance_loop-Kept h (record k { scopes = remove c k.scopes }) rest
          (Loose-same h k (remove c k.scopes) k.raw_scopes k.order kept.loose removed (λ t e. e))
      where
        empty : buffered k.scopes c ≡ []
        empty = kept.front c (ap (is_front c) ho ∙ ==_refl c)

        removed : (t : ConsoleScope) → buffered (remove c k.scopes) t ≡ buffered k.scopes t
        removed t = by_test (c == t) refl
          where
            by_test :
                (b : Bool) → (c == t) ≡ b → buffered (remove c k.scopes) t ≡ buffered k.scopes t
            by_test true e =
                buffered-remove k.scopes c t
                ∙ (ap (λ (x : Bool). if x then [] else buffered k.scopes t) e
                    ∙ (sym empty ∙ ap (buffered k.scopes) ((==_iff c t).0 e)))
            by_test false e =
                buffered-remove k.scopes c t
                ∙ ap (λ (x : Bool). if x then [] else buffered k.scopes t) e

contains-erase :
    (s t : ConsoleScope) (xs : List ConsoleScope)
    → contains (erase s xs) t ≡ true
    → contains xs t ≡ true
unfolding erase
contains-erase s t [] h = h
contains-erase s t (x ∷ xs) h = ground (arith, contains-erase s t xs)

pub finish-Kept :
    (h : List ConsoleEntry) (k : KeepOrderRenderer) (s : ConsoleScope) (b : Bool)
    → Kept h k
    → Kept h (finish k s b)
unfolding finish
finish-Kept h k s b kept = unraw (if b then advance marked else marked) (moved b)
  where
    state : ScopeState
    state = record (entry_or_default s k.scopes) { finished = true }

    marked : KeepOrderRenderer
    marked = record k { scopes = insert s state k.scopes }

    same : (t : ConsoleScope) → buffered (insert s state k.scopes) t ≡ buffered k.scopes t
    same t = buffered-insert k.scopes s state t ∙ by_test (s == t) refl
      where
        by_test :
            (x : Bool)
            → (s == t) ≡ x
            → (if x then buffered k.scopes s else buffered k.scopes t) ≡ buffered k.scopes t
        by_test true e = ap (buffered k.scopes) ((==_iff s t).0 e)
        by_test false e = refl

    marked-Kept : Kept h marked
    marked-Kept = record {
      loose =
          Loose-same h k (insert s state k.scopes) k.raw_scopes k.order kept.loose same (λ t e. e);
      front = λ t f. same t ∙ kept.front t f;
    }

    moved : (x : Bool) → Kept h (if x then advance marked else marked)
    moved true = advance-Kept h marked marked-Kept
    moved false = marked-Kept

    unraw :
        (m : KeepOrderRenderer) → Kept h m → Kept h (record m { raw_scopes = erase s m.raw_scopes })
    unraw m km = record {
      loose =
          Loose-same h m m.scopes (erase s m.raw_scopes) m.order km.loose (λ t. refl)
            (λ t. contains-erase s t m.raw_scopes);
      front = km.front;
    }
