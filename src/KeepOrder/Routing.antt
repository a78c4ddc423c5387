-- ===== src/KeepOrder/Routing.antt =====
-- The entries of a scope: what was printed and what waits, together, in the order of arrival.
use octa.Common.{
  ++_nil, ++_assoc, ◌≡◌, refl, sym, ap, ◌∙◌, Bool, true, false, Option, none, some, List, [], ◌∷◌,
  ◌++◌, arith, ◌==◌, ==_iff, if◌then◌else◌, lookup, insert, remove, lookup-insert, lookup-remove,
}
use octa.KeepOrder.{
  ConsoleScope, scope_eq, ConsoleEntry, declared_scope, is_progress, record_scope, ScopeState,
  or_default, entry_or_default,
}

-- The scope whose ordered output an entry belongs to.
abbrev pub ordered_scope : ConsoleEntry → Option ConsoleScope
ordered_scope e = elim (declared_scope e.content) [
  | some s ↦ none
  | none ↦ if is_progress e.content then none else record_scope e.content
]

abbrev pub names : ConsoleScope → Option ConsoleScope → Bool
names s none = false
names s (some t) = t == s

abbrev pub belongs : ConsoleScope → ConsoleEntry → Bool
belongs s e = names s (ordered_scope e)

-- The entries of `s`, in order.
abbrev pub of_scope : ConsoleScope → List ConsoleEntry → List ConsoleEntry
of_scope s [] = []
of_scope s (e ∷ es) = if belongs s e then e ∷ of_scope s es else of_scope s es

pub of_scope-append :
    (s : ConsoleScope) (xs ys : List ConsoleEntry)
    → of_scope s (xs ++ ys) ≡ of_scope s xs ++ of_scope s ys
of_scope-append s [] ys = refl
of_scope-append s (x ∷ xs) ys = by_test (belongs s x) (of_scope-append s xs ys)
  where
    by_test :
        (t : Bool)
        → of_scope s (xs ++ ys) ≡ of_scope s xs ++ of_scope s ys
        → (if t then x ∷ of_scope s (xs ++ ys) else of_scope s (xs ++ ys))
          ≡ (if t then x ∷ of_scope s xs else of_scope s xs) ++ of_scope s ys
    by_test true h = ap (λ (r : List ConsoleEntry). x ∷ r) h
    by_test false h = h

-- The entries that wait in the buffer of a scope.
abbrev pub buffered : List (ConsoleScope × ScopeState) → ConsoleScope → List ConsoleEntry
buffered m s = (entry_or_default s m).entries

pub buffered-insert :
    (m : List (ConsoleScope × ScopeState)) (s : ConsoleScope) (x : ScopeState) (t : ConsoleScope)
    → buffered (insert s x m) t ≡ (if s == t then x.entries else buffered m t)
buffered-insert m s x t =
    ap (λ (o : Option ScopeState). (or_default o).entries) (lookup-insert s t x m)
    ∙ by_test (s == t)
  where
    by_test :
        (b : Bool)
        → (or_default (if b then some x else lookup t m)).entries
          ≡ (if b then x.entries else buffered m t)
    by_test true = refl
    by_test false = refl

pub buffered-remove :
    (m : List (ConsoleScope × ScopeState)) (s t : ConsoleScope)
    → buffered (remove s m) t ≡ (if s == t then [] else buffered m t)
buffered-remove m s t =
    ap (λ (o : Option ScopeState). (or_default o).entries) (lookup-remove s t m) ∙ by_test (s == t)
  where
    by_test :
        (b : Bool)
        → (or_default (if b then none else lookup t m)).entries ≡ (if b then [] else buffered m t)
    by_test true = refl
    by_test false = refl

-- Each scope's entries so far are the printed ones, then the ones in its buffer.
pub record Routed (history printed : List ConsoleEntry) (waiting : ConsoleScope → List ConsoleEntry)
    : Type 0 where
  pub parts : (s : ConsoleScope) → of_scope s history ≡ of_scope s printed ++ waiting s
  pub own : (s t : ConsoleScope) → of_scope t (waiting s) ≡ (if s == t then waiting s else [])

-- Printing the buffer of `s`.
pub Routed-flush :
    (h p : List ConsoleEntry) (w v : ConsoleScope → List ConsoleEntry) (s : ConsoleScope)
    → Routed h p w
    → ((t : ConsoleScope) → v t ≡ (if s == t then [] else w t))
    → Routed h (p ++ w s) v
Routed-flush h p w v s r hv = record {
  parts = λ t. ground (
    arith,
    r.parts t,
    hv t,
    r.own s t,
    of_scope-append t p (w s),
    ++_nil (of_scope t p ++ w s),
    ++_nil (of_scope t p),
    ==_iff s t,
  );
  own = λ a t. ground (arith, hv a, r.own a t);
}

pub Routed-same :
    (h p : List ConsoleEntry) (w v : ConsoleScope → List ConsoleEntry)
    → Routed h p w
    → ((t : ConsoleScope) → v t ≡ w t)
    → Routed h p v
Routed-same h p w v r hv = record {
  parts = λ t. ground (arith, r.parts t, hv t);
  own = λ a t. ground (arith, hv a, r.own a t);
}

-- Printing a new entry whose scope has nothing waiting.
pub Routed-emit :
    (h p : List ConsoleEntry) (w : ConsoleScope → List ConsoleEntry) (e : ConsoleEntry)
    → Routed h p w
    → ((t : ConsoleScope) → belongs t e ≡ true → w t ≡ [])
    → Routed (h ++ e ∷ []) (p ++ e ∷ []) w
Routed-emit h p w e r clear = record {
  parts = λ t.
      rw (of_scope-append t h (e ∷ []), of_scope-append t p (e ∷ []), r.parts t)
        (emit_lem t (belongs t e) refl);
  own = r.own;
}
  where
    emit_lem :
        (t : ConsoleScope) (b : Bool)
        → belongs t e ≡ b
        → (of_scope t p ++ w t) ++ (if b then e ∷ [] else [])
          ≡ (of_scope t p ++ (if b then e ∷ [] else [])) ++ w t
    emit_lem t true hb =
        rw (clear t hb, ++_nil (of_scope t p), ++_nil (of_scope t p ++ e ∷ [])) refl
    emit_lem t false hb =
        ++_nil (of_scope t p ++ w t)
        ∙ ap (λ (q : List ConsoleEntry). q ++ w t) (sym (++_nil (of_scope t p)))

-- Buffering a new entry of `s`.
pub Routed-buffer :
    (h p : List ConsoleEntry) (w v : ConsoleScope → List ConsoleEntry) (s : ConsoleScope)
    (e : ConsoleEntry)
    → Routed h p w
    → ordered_scope e ≡ some s
    → ((t : ConsoleScope) → v t ≡ (if s == t then w s ++ e ∷ [] else w t))
    → Routed (h ++ e ∷ []) p v
Routed-buffer h p w v s e r he hv = record {
  parts = λ t. ground (
    arith,
    hv t,
    r.parts t,
    of_scope-append t h (e ∷ []),
    ++_assoc (of_scope t p) (w t) (e ∷ []),
    ++_nil (of_scope t p ++ w t),
    ==_iff s t,
  );
  own = λ a t.
      ground (arith, hv a, r.own a t, of_scope-append t (w s) (e ∷ []), ==_iff s t, ==_iff s a);
}
