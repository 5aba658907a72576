-- ===== src/Event.antt =====
-- event/event.go: the emitter of named events with regular and one-time listeners.
pub mod Counting
mod Tests
use ginject.Prelude.{
  ℕ, zero, suc, ◌+◌, Bool, true, false, ◌&&◌, ◌||◌, Option, none, some, List, [], ◌∷◌, ◌++◌, ltb,
  length, ◌==◌, if◌then◌else◌,
}
use ginject.Prelude.Int.{ℤ, pos, negsuc}
use ginject.Text.{Bytes, str_eq}
use ginject.GoMap.{GoMap, lookup, insert, erase}

-- `L` is the type of the listeners, `max_listeners` an `int` that may be negative.
pub record Event (L : Type 0) : Type 0 where
  pub opts : GoMap (List L)
  pub once_opts : GoMap (List L)
  pub max_listeners : ℤ

-- `max > 0 && n > max`
abbrev pub is_over : ℕ → ℤ → Bool
is_over n (pos m) = ltb 0 m && ltb m n
is_over n (negsuc m) = false

module _ {L : Type 0} where
  unfoldable pub new_event : Event L
  new_event = record { opts = []; once_opts = []; max_listeners = pos 10 }

  unfoldable pub reset : Event L → Event L
  reset e = record e { opts = []; once_opts = [] }

  unfoldable pub set_max_listeners : ℤ → Event L → Event L
  set_max_listeners n e = record e { max_listeners = n }

  -- `m[eventName]`, with the empty slice for nil.
  abbrev pub or_nil : Option (List L) → List L
  or_nil none = []
  or_nil (some ls) = ls

  unfoldable pub listeners_of : Bytes → GoMap (List L) → List L
  unfolding lookup
  listeners_of name m = or_nil (lookup name m)

  unfoldable pub listener_count : Bytes → Event L → ℕ
  unfolding listeners_of
  listener_count name e = length (listeners_of name e.opts) + length (listeners_of name e.once_opts)

  -- The new state, and whether the warning is printed.
  unfoldable pub on : Bytes → L → Event L → Event L × Bool
  unfolding listeners_of listener_count insert
  on name l e =
      let next = record e { opts = insert name (listeners_of name e.opts ++ l ∷ []) e.opts } in
      (next, is_over (listener_count name next) e.max_listeners)

  unfoldable pub once : Bytes → L → Event L → Event L × Bool
  unfolding listeners_of listener_count insert
  once name l e =
      let next = record e {
        once_opts = insert name (listeners_of name e.once_opts ++ l ∷ []) e.once_opts;
      } in
      (next, is_over (listener_count name next) e.max_listeners)

  unfoldable pub remove_all_listeners : Bytes → Event L → Event L
  unfolding erase
  remove_all_listeners name e = record e {
    opts = erase name e.opts;
    once_opts = erase name e.once_opts;
  }

  -- `len(onceListeners) > 0`, and then the delete.
  abbrev pub deleted : Bytes → List L → GoMap (List L) → GoMap (List L)
  deleted name [] m = m
  deleted name (l ∷ ls) m = erase name m

  -- The listeners that `Emit` calls, in order, and the state when it begins to call them.
  unfoldable pub emit : Bytes → Event L → List L × Event L
  unfolding listeners_of erase
  emit name e = (
    listeners_of name e.opts ++ listeners_of name e.once_opts,
    record e { once_opts = deleted name (listeners_of name e.once_opts) e.once_opts },
  )

  unfoldable pub has_listeners : Bytes → Event L → Bool
  unfolding listeners_of
  has_listeners name e =
      ltb 0 (length (listeners_of name e.opts)) || ltb 0 (length (listeners_of name e.once_opts))

  abbrev pub onto_some : L → Option (List L) → Option (List L)
  onto_some l none = none
  onto_some l (some ls) = some (l ∷ ls)

  -- `pointer` is `reflect.ValueOf(l).Pointer()`.
  module _ (pointer : L → ℕ) where
    -- The loop of `Off`: the listeners without the first of this pointer, if there is one.
    unfoldable pub remove_first : ℕ → List L → Option (List L)
    remove_first ptr [] = none
    remove_first ptr (l ∷ ls) =
        let rest = remove_first ptr ls in if pointer l == ptr then some ls else onto_some l rest

    unfoldable pub off : Bytes → L → Event L → Event L
    unfolding listeners_of remove_first insert
    off name l e = elim (remove_first (pointer l) (listeners_of name e.opts)) [
      | some ls ↦ record e { opts = insert name ls e.opts }
      | none ↦ elim (remove_first (pointer l) (listeners_of name e.once_opts)) [
        | some ls ↦ record e { once_opts = insert name ls e.once_opts }
        | none ↦ e
      ]
    ]
