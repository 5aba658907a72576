-- ===== src/Event/Tests.antt =====
-- An emitter of numbered listeners; the pointer of a listener is its last digit.
use ginject.Prelude.{ℕ, ◌≡◌, refl, ◌%◌, [], ◌∷◌, ◌++◌}
use ginject.Text.{Bytes, codes, str_eq}
use ginject.Event.{Event, new_event, on, once, off, emit, listeners_of, listener_count}
use ginject.Event.Counting.{emit-emit, count-off-on}

abbrev last_digit : ℕ → ℕ
last_digit n = n % 10

abbrev saved : Bytes
saved = codes "saved"

abbrev two_listeners : Event ℕ
two_listeners = (once saved 2 (on saved 1 new_event).0).0

called_in_order : (emit saved two_listeners).0 ≡ 1 ∷ 2 ∷ []
unfolding emit once on new_event str_eq
called_in_order = refl

first_of_pointer : (emit saved (off last_digit saved 11 two_listeners)).0 ≡ 2 ∷ []
unfolding emit off once on new_event str_eq
first_of_pointer = refl

emit-emit_example :
    ((emit saved (emit saved two_listeners).1).0 ≡ listeners_of saved two_listeners.opts)
    × ((emit saved two_listeners).0
        ≡ (emit saved (emit saved two_listeners).1).0 ++ listeners_of saved two_listeners.once_opts)
    × ((emit (codes "gone") (emit saved two_listeners).1).0 ≡ (emit (codes "gone") two_listeners).0)
unfolding str_eq
emit-emit_example = emit-emit saved (codes "gone") two_listeners refl

count-off-on_example :
    listener_count saved (off last_digit saved 11 (on saved 11 two_listeners).0)
    ≡ listener_count saved two_listeners
count-off-on_example = count-off-on last_digit saved 11 two_listeners
