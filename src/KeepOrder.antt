-- ===== src/KeepOrder.antt =====
-- crates/octa-output/src/keep_order.rs: the renderer that prints tasks in the order of their
-- declaration while the first unfinished task streams. The inner renderer is the list of the
-- entries that it was given; its I/O errors and the spooling of entries to a file are not modelled.
-- Records keep the scopes they name: the code reads no other field.
mod Routing
mod Advance
mod Order
mod Examples
use octa.Common.{
  ℕ, ◌≡◌, ◌↔◌, refl, Bool, true, false, not, ◌&&◌, ◌||◌, Option, none, some, List, [], ◌∷◌, ◌++◌,
  arith, Eq, ◌==◌, ==_iff, nat_eq, if◌then◌else◌, contains, erase, lookup, insert, remove,
}

-- crates/octa-output/src/scope.rs: scopes are equal by allocator and identifier.
pub record ConsoleScope : Type 0 where
  pub allocator_id : ℕ
  pub id : ℕ

abbrev pub scope_beq : ConsoleScope → ConsoleScope → Bool
scope_beq s t = s.allocator_id == t.allocator_id && s.id == t.id

pub scope_beq_iff : (s t : ConsoleScope) → (scope_beq s t ≡ true) ↔ (s ≡ t)
scope_beq_iff s t = ground (arith, ==_iff s.allocator_id t.allocator_id, ==_iff s.id t.id)

instance abbrev pub scope_eq : Eq ConsoleScope
scope_eq = record { same = scope_beq; same_iff = scope_beq_iff }

pub data ConsolePayload : Type 0 where
  text raw_bytes : ConsolePayload

-- crates/octa-output/src/record.rs.
pub data ExecutionEvent : Type 0 where
  run_started run_finished : ExecutionEvent
  scope_declared scope_started scope_finished : ConsoleScope → ExecutionEvent
  step_declared step_started step_finished : ConsoleScope → ExecutionEvent
  output : Option ConsoleScope → ConsolePayload → ExecutionEvent
  progress : Option ConsoleScope → ExecutionEvent
  artifact_registered report_registered : ConsoleScope → ExecutionEvent
  cache_lookup_started cache_hit cache_miss cache_restore_finished : ConsoleScope → ExecutionEvent
  cache_publish_started cache_published cache_error : ConsoleScope → ExecutionEvent

pub data ConsoleRecord : Type 0 where
  execution : ExecutionEvent → ConsoleRecord
  diagnostic : Option ConsoleScope → ConsoleRecord
  document : ConsoleRecord

pub record ConsoleEntry : Type 0 where
  pub sequence : ℕ
  pub content : ConsoleRecord

-- `ExecutionEvent::cache_scope`.
unfoldable pub cache_scope : ExecutionEvent → Option ConsoleScope
cache_scope (cache_lookup_started s) = some s
cache_scope (cache_hit s) = some s
cache_scope (cache_miss s) = some s
cache_scope (cache_restore_finished s) = some s
cache_scope (cache_publish_started s) = some s
cache_scope (cache_published s) = some s
cache_scope (cache_error s) = some s
cache_scope _ = none

abbrev event_scope : ExecutionEvent → Option ConsoleScope
event_scope (scope_started s) = some s
event_scope (scope_finished s) = some s
event_scope (step_started s) = some s
event_scope (step_finished s) = some s
event_scope (output (some s) p) = some s
event_scope (artifact_registered s) = some s
event_scope (report_registered s) = some s
event_scope _ = none

abbrev or_else : {A : Type 0} → Option A → Option A → Option A
or_else (some a) b = some a
or_else none b = b

unfoldable pub record_scope : ConsoleRecord → Option ConsoleScope
record_scope (execution e) = or_else (cache_scope e) (event_scope e)
record_scope (diagnostic s) = s
record_scope document = none

unfoldable pub is_raw_output : ConsoleRecord → Bool
is_raw_output (execution (output s raw_bytes)) = true
is_raw_output _ = false

abbrev pub declared_scope : ConsoleRecord → Option ConsoleScope
declared_scope (execution (scope_declared s)) = some s
declared_scope _ = none

abbrev pub is_progress : ConsoleRecord → Bool
is_progress (execution (progress s)) = true
is_progress _ = false

abbrev pub is_finish : ConsoleRecord → Bool
is_finish (execution (scope_finished s)) = true
is_finish _ = false

pub record ScopeState : Type 0 where
  pub entries : List ConsoleEntry
  pub finished : Bool

abbrev pub default_state : ScopeState
default_state = record { entries = []; finished = false }

pub record KeepOrderRenderer : Type 0 where
  -- What the inner renderer was given, in order.
  pub renderer : List ConsoleEntry
  pub order : List ConsoleScope
  pub scopes : List (ConsoleScope × ScopeState)
  pub raw_scopes : List ConsoleScope

abbrev pub new : KeepOrderRenderer
new = record { renderer = []; order = []; scopes = []; raw_scopes = [] }

-- `self.scopes.entry(scope).or_default()`.
abbrev pub or_default : Option ScopeState → ScopeState
or_default (some state) = state
or_default none = default_state

abbrev pub entry_or_default : ConsoleScope → List (ConsoleScope × ScopeState) → ScopeState
entry_or_default s m = or_default (lookup s m)

abbrev pub is_front : ConsoleScope → List ConsoleScope → Bool
is_front s [] = false
is_front s (t ∷ ts) = t == s

abbrev pub emit : KeepOrderRenderer → ConsoleEntry → KeepOrderRenderer
emit k e = record k { renderer = k.renderer ++ e ∷ [] }

unfoldable pub activate_raw : KeepOrderRenderer → ConsoleScope → KeepOrderRenderer
activate_raw k s =
    if contains k.raw_scopes s
    then k
    else let state = entry_or_default s k.scopes in
      elim (lookup s k.scopes) [
        | some x ↦ record k {
          raw_scopes = s ∷ k.raw_scopes;
          renderer = k.renderer ++ state.entries;
          scopes = insert s (record state { entries = [] }) k.scopes;
        }
        | none ↦ record k { raw_scopes = s ∷ k.raw_scopes }
      ]

-- The raw terminal is the inner renderer's.
abbrev pub begin_raw : KeepOrderRenderer → ConsoleScope → KeepOrderRenderer
begin_raw k s = activate_raw k s

-- The `while let` loop of `advance`, on the queue that is left.
unfoldable pub advance_loop : KeepOrderRenderer → List ConsoleScope → KeepOrderRenderer
advance_loop k [] = record k { order = [] }
advance_loop k (s ∷ rest) =
    let state = entry_or_default s k.scopes in
    let flushed = record k { renderer = k.renderer ++ state.entries; scopes = remove s k.scopes } in
    let further = advance_loop flushed rest in
    elim (lookup s k.scopes) [
      | some x ↦
          if state.finished
          then further
          else record flushed { order = s ∷ rest; scopes = insert s default_state flushed.scopes }
      | none ↦ record k { order = s ∷ rest }
    ]

unfoldable pub advance : KeepOrderRenderer → KeepOrderRenderer
advance k = elim k.order [
  | [] ↦ advance_loop k []
  | completed ∷ rest ↦ advance_loop (record k { scopes = remove completed k.scopes }) rest
]

unfoldable pub buffer : KeepOrderRenderer → ConsoleScope → ConsoleEntry → KeepOrderRenderer
buffer k s e =
    let state = entry_or_default s k.scopes in
    record k { scopes = insert s (record state { entries = state.entries ++ e ∷ [] }) k.scopes }

unfoldable pub finish : KeepOrderRenderer → ConsoleScope → Bool → KeepOrderRenderer
finish k s ordered_live =
    let state = entry_or_default s k.scopes in
    let marked = record k { scopes = insert s (record state { finished = true }) k.scopes } in
    let moved = if ordered_live then advance marked else marked in
    record moved { raw_scopes = erase s moved.raw_scopes }

-- An entry that belongs to a scope's ordered output.
unfoldable pub render_ordered : KeepOrderRenderer → ConsoleScope → ConsoleEntry → KeepOrderRenderer
render_ordered k s e =
    let raw = if is_raw_output e.content then activate_raw k s else k in
    let ordered_live = is_front s raw.order in
    let live = ordered_live || contains raw.raw_scopes s in
    let sent = if live then emit raw e else buffer raw s e in
    if is_finish e.content then finish sent s ordered_live else sent

unfoldable pub render : KeepOrderRenderer → ConsoleEntry → KeepOrderRenderer
render k e = elim (declared_scope e.content) [
  | some s ↦
      emit
        (record k {
          order = k.order ++ s ∷ [];
          scopes = insert s (entry_or_default s k.scopes) k.scopes;
        })
        e
  | none ↦
      if is_progress e.content
      then emit k e
      else elim (record_scope e.content) [ some s ↦ render_ordered k s e | none ↦ emit k e ]
]
