-- ===== src/KeepOrder/Order.antt =====
-- Every entry is printed in its task's order, whatever the interleaving of the tasks.
use octa.Common.{
  ◌≡◌, ◌≢◌, ◌⊎◌, subst, refl, sym, ap, ◌∙◌, Bool, true, false, ◌||◌, Option, none, some, List, [],
  ◌∷◌, ◌++◌, arith, ◌==◌, ==_iff, Bool-cases, inl, inr, if◌then◌else◌, contains, insert,
}
use octa.KeepOrder.{
  ConsoleScope, scope_eq, scope_beq_iff, ConsoleEntry, declared_scope, is_progress, is_finish,
  is_raw_output, record_scope, ScopeState, entry_or_default, KeepOrderRenderer, new, emit, is_front,
  activate_raw, begin_raw, buffer, finish, render_ordered, render,
}
use octa.KeepOrder.Routing.{
  ordered_scope, names, belongs, of_scope, buffered, buffered-insert, Routed-same, Routed-emit,
  Routed-buffer,
}
use octa.KeepOrder.Advance.{Kept, activate_raw-Kept, finish-Kept}

-- The renderer after a history of entries, where a declaration comes before every other entry of
-- its scope, and raw terminals can begin at any time.
pub data Rendered : List ConsoleEntry → KeepOrderRenderer → Type 0 where
  start : Rendered [] new
  step :
      (h : List ConsoleEntry) (k : KeepOrderRenderer) (e : ConsoleEntry)
      → Rendered h k
      → ((s : ConsoleScope) → declared_scope e.content ≡ some s → of_scope s h ≡ [])
      → Rendered (h ++ e ∷ []) (render k e)
  raw :
      (h : List ConsoleEntry) (k : KeepOrderRenderer) (s : ConsoleScope)
      → Rendered h k
      → Rendered h (begin_raw k s)

emit-Kept :
    (h : List ConsoleEntry) (k : KeepOrderRenderer) (e : ConsoleEntry)
    → Kept h k
    → ((t : ConsoleScope) → belongs t e ≡ true → buffered k.scopes t ≡ [])
    → Kept (h ++ e ∷ []) (emit k e)
emit-Kept h k e kept clear = record {
  loose = record {
    routed = Routed-emit h k.renderer (buffered k.scopes) e kept.loose.routed clear;
    raw = kept.loose.raw;
  };
  front = kept.front;
}

buffer-Kept :
    (h : List ConsoleEntry) (k : KeepOrderRenderer) (s : ConsoleScope) (e : ConsoleEntry)
    → Kept h k
    → ordered_scope e ≡ some s
    → (is_front s k.order || contains k.raw_scopes s) ≡ false
    → Kept (h ++ e ∷ []) (buffer k s e)
unfolding buffer
buffer-Kept h k s e kept he waits = record {
  loose = record {
    routed =
        Routed-buffer h k.renderer (buffered k.scopes) (buffered (insert s state k.scopes)) s e
          kept.loose.routed he (buffered-insert k.scopes s state);
    raw = λ t c.
        others t (λ same.
          absurd (ground (arith, subst (λ u. contains k.raw_scopes u ≡ true) (sym same) c)))
        ∙ kept.loose.raw t c;
  };
  front = λ t f.
      others t
        (λ same. absurd (ground (arith, subst (λ u. is_front u k.order ≡ true) (sym same) f)))
      ∙ kept.front t f;
}
  where
    state : ScopeState
    state = record (entry_or_default s k.scopes) { entries = buffered k.scopes s ++ e ∷ [] }

    others :
        (t : ConsoleScope) → (s ≢ t) → buffered (insert s state k.scopes) t ≡ buffered k.scopes t
    others t n = ground (arith, buffered-insert k.scopes s state t, scope_beq_iff s t)

render_ordered-Kept :
    (h : List ConsoleEntry) (k : KeepOrderRenderer) (s : ConsoleScope) (e : ConsoleEntry)
    → Kept h k
    → ordered_scope e ≡ some s
    → Kept (h ++ e ∷ []) (render_ordered k s e)
unfolding render_ordered
render_ordered-Kept h k s e kept he =
    finished (is_finish e.content) (if is_raw_output e.content then activate_raw k s else k)
      (activated (is_raw_output e.content))
  where
    activated : (b : Bool) → Kept h (if b then activate_raw k s else k)
    activated true = activate_raw-Kept h k s kept
    activated false = kept

    sent :
        (r : KeepOrderRenderer)
        → Kept h r
        → (b : Bool) → (is_front s r.order || contains r.raw_scopes s) ≡ b
        → Kept (h ++ e ∷ []) (if b then emit r e else buffer r s e)
    sent r kr true hb =
        emit-Kept h r e kr
          (λ t bt. subst (λ u. buffered r.scopes u ≡ []) (same_scope t bt) (live r kr hb))
      where
        same_scope : (t : ConsoleScope) → belongs t e ≡ true → s ≡ t
        same_scope t bt = (==_iff s t).0 (sym (ap (names t) he) ∙ bt)

        live :
            (r : KeepOrderRenderer)
            → Kept h r
            → (is_front s r.order || contains r.raw_scopes s) ≡ true
            → buffered r.scopes s ≡ []
        live r kr h = elim (Bool-cases (is_front s r.order)) [
          | inl f ↦ kr.front s f
          | inr f ↦ kr.loose.raw s (ground arith)
        ]
    sent r kr false hb = buffer-Kept h r s e kr he hb

    finished :
        (b : Bool) (r : KeepOrderRenderer)
        → Kept h r
        → let live = is_front s r.order || contains r.raw_scopes s in
          let out = if live then emit r e else buffer r s e in
          Kept (h ++ e ∷ []) (if b then finish out s (is_front s r.order) else out)
    finished true r kr =
        finish-Kept (h ++ e ∷ []) _ s (is_front s r.order)
          (sent r kr (is_front s r.order || contains r.raw_scopes s) refl)
    finished false r kr = sent r kr (is_front s r.order || contains r.raw_scopes s) refl

is_front-snoc :
    (s t : ConsoleScope) (order : List ConsoleScope)
    → is_front t (order ++ s ∷ []) ≡ true
    → (is_front t order ≡ true) ⊎ (s ≡ t)
is_front-snoc s t [] h = inr ((==_iff s t).0 h)
is_front-snoc s t (c ∷ order) h = inl h

nil_parts : {A : Type 0} (xs ys : List A) → [] ≡ xs ++ ys → ys ≡ []
nil_parts [] ys h = sym h
nil_parts (x ∷ xs) ys h = absurd (ground arith)

declare-Kept :
    (h : List ConsoleEntry) (k : KeepOrderRenderer) (s : ConsoleScope)
    → Kept h k
    → of_scope s h ≡ []
    → Kept h (record k {
      order = k.order ++ s ∷ [];
      scopes = insert s (entry_or_default s k.scopes) k.scopes;
    })
declare-Kept h k s kept first = record {
  loose = record {
    routed =
        Routed-same h k.renderer (buffered k.scopes)
          (buffered (insert s (entry_or_default s k.scopes) k.scopes)) kept.loose.routed same;
    raw = λ t c. same t ∙ kept.loose.raw t c;
  };
  front = λ t f. same t ∙ elim (is_front-snoc s t k.order f) [
    | inl old ↦ kept.front t old
    | inr e ↦
        subst (λ u. buffered k.scopes u ≡ []) e
          (nil_parts (of_scope s k.renderer) (buffered k.scopes s)
            (sym first ∙ kept.loose.routed.parts s))
  ];
}
  where
    same :
        (t : ConsoleScope)
        → buffered (insert s (entry_or_default s k.scopes) k.scopes) t ≡ buffered k.scopes t
    same t = buffered-insert k.scopes s (entry_or_default s k.scopes) t ∙ by_test (s == t) refl
      where
        by_test :
            (x : Bool)
            → (s == t) ≡ x
            → (if x then buffered k.scopes s else buffered k.scopes t) ≡ buffered k.scopes t
        by_test true e = ap (buffered k.scopes) ((==_iff s t).0 e)
        by_test false e = refl

render-Kept :
    (h : List ConsoleEntry) (k : KeepOrderRenderer) (e : ConsoleEntry)
    → Kept h k
    → ((s : ConsoleScope) → declared_scope e.content ≡ some s → of_scope s h ≡ [])
    → Kept (h ++ e ∷ []) (render k e)
unfolding render
render-Kept h k e kept first = declared (declared_scope e.content) refl
  where
    apart :
        (d : Option ConsoleScope)
        → ordered_scope e ≡ none
        → (t : ConsoleScope) → belongs t e ≡ true
        → buffered k.scopes t ≡ []
    apart d n t b = absurd (ground (arith, sym (ap (names t) n) ∙ b))

    direct : ordered_scope e ≡ none → Kept (h ++ e ∷ []) (emit k e)
    direct n = emit-Kept h k e kept (apart none n)

    routed :
        (r : Option ConsoleScope)
        → ordered_scope e ≡ r
        → Kept (h ++ e ∷ []) (elim r [ some s ↦ render_ordered k s e | none ↦ emit k e ])
    routed none hr = direct hr
    routed (some s) hr = render_ordered-Kept h k s e kept hr

    progressed :
        (b : Bool)
        → declared_scope e.content ≡ none
        → is_progress e.content ≡ b
        → Kept (h ++ e ∷ []) (
            if b
            then emit k e
            else elim (record_scope e.content) [ some s ↦ render_ordered k s e | none ↦ emit k e ])
    progressed true hd hb = direct (ground (arith, hd, hb))
    progressed false hd hb = routed (record_scope e.content) (ground (arith, hd, hb))

    declared :
        (d : Option ConsoleScope)
        → declared_scope e.content ≡ d
        → Kept (h ++ e ∷ []) (elim d [
          | some s ↦
              emit
                (record k {
                  order = k.order ++ s ∷ [];
                  scopes = insert s (entry_or_default s k.scopes) k.scopes;
                })
                e
          | none ↦
              if is_progress e.content
              then emit k e
              else elim (record_scope e.content) [ some s ↦ render_ordered k s e | none ↦ emit k e ]
        ])
    declared none hd = progressed (is_progress e.content) hd refl
    declared (some s) hd =
        emit-Kept h _ e (declare-Kept h k s kept (first s hd)) (λ t b. absurd (ground (arith, hd)))

rendered_lem : (h : List ConsoleEntry) (k : KeepOrderRenderer) → Rendered h k → Kept h k
rendered_lem _ _ start = record {
  loose = record {
    routed = record { parts = λ s. refl; own = λ s t. ground arith };
    raw = λ s c. refl;
  };
  front = λ s f. refl;
}
rendered_lem _ _ (step h k e r first) = render-Kept h k e (rendered_lem h k r) first
rendered_lem _ _ (raw h k s r) = activate_raw-Kept h k s (rendered_lem h k r)

-- If every scope is declared before its other entries, then after any history the entries of each
-- scope are the printed ones followed by the ones in its buffer, in the order of arrival: none is
-- lost, printed twice or moved before an earlier one.
pub render_keeps_order :
    (h : List ConsoleEntry) (k : KeepOrderRenderer) (s : ConsoleScope)
    → Rendered h k
    → of_scope s h ≡ of_scope s k.renderer ++ buffered k.scopes s
render_keeps_order h k s r = (rendered_lem h k r).loose.routed.parts s
