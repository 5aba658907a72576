-- ===== src/Event/Counting.antt =====
-- event/event.go: what the calls do to the listeners of a name.
use ginject.Prelude.{
  ℕ, ◌+◌, ◌≡◌, refl, sym, ◌∙◌, ap, inl, inr, false, some, List, [], ◌∷◌, ◌++◌, append-nil, arith,
  length, length-append, ◌==◌, if◌then◌else◌, Bool-cases, Option-cases,
}
use ginject.Text.{Bytes, str_eq, str_eq_iff, str_eq_refl}
use ginject.GoMap.{GoMap, insert, erase, lookup-insert, lookup-erase}
use ginject.Event.{
  Event, or_nil, listeners_of, listener_count, on, emit, deleted, remove_first, off,
}

module _ {L : Type 0} where
  pub listeners_of-insert :
      (name other : Bytes) (ls : List L) (m : GoMap (List L))
      → listeners_of other (insert name ls m)
        ≡ (if str_eq name other then ls else listeners_of other m)
  unfolding listeners_of
  listeners_of-insert name other ls m =
      ap or_nil (lookup-insert name other ls m)
      ∙ elim (Bool-cases (str_eq name other)) [ inl e ↦ rw e refl | inr e ↦ rw e refl ]

  pub listeners_of-erase :
      (name other : Bytes) (m : GoMap (List L))
      → listeners_of other (erase name m) ≡ (if str_eq name other then [] else listeners_of other m)
  unfolding listeners_of
  listeners_of-erase name other m =
      ap or_nil (lookup-erase name other m)
      ∙ elim (Bool-cases (str_eq name other)) [ inl e ↦ rw e refl | inr e ↦ rw e refl ]

  listeners_of-deleted :
      (name other : Bytes) (ls : List L) (m : GoMap (List L))
      → listeners_of name m ≡ ls
      → listeners_of other (deleted name ls m)
        ≡ (if str_eq name other then [] else listeners_of other m)
  listeners_of-deleted name other [] m h = elim (Bool-cases (str_eq name other)) [
    | inl e ↦ rw e (ap (λ n. listeners_of n m) (sym ((str_eq_iff name other).0 e)) ∙ h)
    | inr e ↦ rw e refl
  ]
  listeners_of-deleted name other (l ∷ ls) m h = listeners_of-erase name other m

  -- `Emit` calls the regular listeners and then the one-time ones; after it the one-time listeners
  -- of that name are gone, so a second `Emit` calls the regular ones alone, and the listeners of
  -- every other name are as they were.
  pub emit-emit :
      (name other : Bytes) (e : Event L)
      → str_eq name other ≡ false
      → ((emit name (emit name e).1).0 ≡ listeners_of name e.opts)
        × ((emit name e).0 ≡ (emit name (emit name e).1).0 ++ listeners_of name e.once_opts)
        × ((emit other (emit name e).1).0 ≡ (emit other e).0)
  unfolding emit
  emit-emit name other e n =
      let once_left = deleted name (listeners_of name e.once_opts) e.once_opts in
      let gone : listeners_of name once_left ≡ [] =
        listeners_of-deleted name name (listeners_of name e.once_opts) e.once_opts refl
        ∙ rw (str_eq_refl name) refl in
      let regular : listeners_of name e.opts ++ listeners_of name once_left
          ≡ listeners_of name e.opts =
        rw gone (append-nil (listeners_of name e.opts)) in
      let kept = listeners_of-deleted name other (listeners_of name e.once_opts) e.once_opts refl in
      (
        regular,
        ap (λ ls. ls ++ listeners_of name e.once_opts) (sym regular),
        ap (λ ls. listeners_of other e.opts ++ ls) (kept ∙ rw n refl),
      )

  length-remove_first :
      (pointer : L → ℕ) (ptr : ℕ) (ls rest : List L)
      → remove_first pointer ptr ls ≡ some rest
      → length ls ≡ length rest + 1
  unfolding remove_first
  length-remove_first pointer ptr [] rest h = absurd (ground arith)
  length-remove_first pointer ptr (l ∷ ls) rest h = elim (Bool-cases (pointer l == ptr)) [
    | inl e ↦ let same : ls ≡ rest = ground arith in omega (arith, ap length same)
    | inr e ↦ elim (Option-cases (remove_first pointer ptr ls)) [
      | inl n ↦ absurd (ground arith)
      | inr (rest', n) ↦
          let same : l ∷ rest' ≡ rest = ground arith in
          omega (arith, ap length same, length-remove_first pointer ptr ls rest' n)
    ]
  ]

  -- `On` and `Once` add one to the count of their name.
  count-on :
      (name : Bytes) (l : L) (e : Event L)
      → listener_count name (on name l e).0 ≡ listener_count name e + 1
  unfolding on listener_count
  count-on name l e =
      rw
        (
          listeners_of-insert name name (listeners_of name e.opts ++ l ∷ []) e.opts,
          str_eq_refl name,
        )
        (omega (arith, length-append (listeners_of name e.opts) (l ∷ [])))

  remove_first-append_last :
      (pointer : L → ℕ) (l : L) (ls : List L)
      → (rest : List L) × (remove_first pointer (pointer l) (ls ++ l ∷ []) ≡ some rest)
  unfolding remove_first
  remove_first-append_last pointer l [] = ([], ground arith)
  remove_first-append_last pointer l (x ∷ ls) =
      let (rest, e) = remove_first-append_last pointer l ls in
      elim (Bool-cases (pointer x == pointer l)) [
        | inl n ↦ (ls ++ l ∷ [], rw n refl)
        | inr n ↦ (x ∷ rest, rw (n, e) refl)
      ]

  off_found :
      (pointer : L → ℕ) (name : Bytes) (l : L) (e : Event L) (ls : List L)
      → remove_first pointer (pointer l) (listeners_of name e.opts) ≡ some ls
      → off pointer name l e ≡ record e { opts = insert name ls e.opts }
  unfolding off
  off_found pointer name l e ls h = ground arith

  count_found :
      (pointer : L → ℕ) (name : Bytes) (l : L) (e : Event L) (ls : List L)
      → remove_first pointer (pointer l) (listeners_of name e.opts) ≡ some ls
      → listener_count name e ≡ listener_count name (off pointer name l e) + 1
  unfolding listener_count
  count_found pointer name l e ls h =
      rw
        (off_found pointer name l e ls h, listeners_of-insert name name ls e.opts, str_eq_refl name)
        (omega (arith, length-remove_first pointer (pointer l) (listeners_of name e.opts) ls h))

  listeners_of-on :
      (name : Bytes) (l : L) (e : Event L)
      → listeners_of name (on name l e).0.opts ≡ listeners_of name e.opts ++ l ∷ []
  unfolding on
  listeners_of-on name l e =
      listeners_of-insert name name (listeners_of name e.opts ++ l ∷ []) e.opts
      ∙ rw (str_eq_refl name) refl

  -- `Off` right after `On` of the same listener brings the count of the name back, whatever listeners
  -- of the same pointer stood there before.
  pub count-off-on :
      (pointer : L → ℕ) (name : Bytes) (l : L) (e : Event L)
      → listener_count name (off pointer name l (on name l e).0) ≡ listener_count name e
  count-off-on pointer name l e =
      let (ls, n) = remove_first-append_last pointer l (listeners_of name e.opts) in
      let next = (on name l e).0 in
      let found : remove_first pointer (pointer l) (listeners_of name next.opts) ≡ some ls =
        ap (remove_first pointer (pointer l)) (listeners_of-on name l e) ∙ n in
      omega (arith, count_found pointer name l next ls found, count-on name l e)
