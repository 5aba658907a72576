-- ===== src/Trie/Entries.antt =====
-- A trie as a map from the segments of a path to the raw string of its end: `Insert` and `Remove`
-- of internal/ds/trie.go as the operations of that map.
use ginject.Prelude.{
  ◌≡◌, refl, sym, ◌∙◌, inl, inr, Bool, true, false, ◌&&◌, Option, none, some, List, [], ◌∷◌, arith,
  if◌then◌else◌, Bool-cases, Option-cases,
}
use ginject.Text.{Bytes, str_eq, str_eq_iff}
use ginject.Trie.{
  Trie, node, Children, leaf, child, children, is_end, raw_of, get_child, set_child, delete_child,
  has_children, mark, or_new, insert_loop,
}

pub get_child-set_child :
    (k j : Bytes) (t : Trie) (cs : Children)
    → get_child j (set_child k t cs) ≡ (if str_eq k j then some t else get_child j cs)
unfolding get_child set_child
get_child-set_child k j t leaf = refl
get_child-set_child k j t (child i u cs) =
    ground (arith, str_eq_iff k j, str_eq_iff i k, str_eq_iff i j, get_child-set_child k j t cs)

pub get_child-delete_child :
    (k j : Bytes) (cs : Children)
    → get_child j (delete_child k cs) ≡ (if str_eq k j then none else get_child j cs)
unfolding get_child delete_child
get_child-delete_child k j leaf = ground arith
get_child-delete_child k j (child i u cs) =
    ground (arith, str_eq_iff k j, str_eq_iff i k, str_eq_iff i j, get_child-delete_child k j cs)

pub get_child-none : (k : Bytes) (cs : Children) → has_children cs ≡ false → get_child k cs ≡ none
unfolding get_child has_children
get_child-none k leaf h = refl
get_child-none k (child i u cs) h = absurd (ground arith)

-- The raw string of the end at a path of segments.
unfoldable pub entry : List Bytes → Trie → Option Bytes
unfolding get_child children is_end raw_of
entry [] t = if is_end t then some (raw_of t) else none
entry (seg ∷ segs) t = elim (get_child seg (children t)) [ none ↦ none | some c ↦ entry segs c ]

abbrev pub entry_of : Option Trie → List Bytes → Option Bytes
entry_of none segs = none
entry_of (some t) segs = entry segs t

abbrev pub is_last : List Bytes → Bool
is_last [] = true
is_last (seg ∷ segs) = false

-- A path that ends with the separator, as the loops see it.
abbrev pub marked : List Bytes → List (Bytes × Bool)
marked [] = []
marked (seg ∷ segs) = (seg, is_last segs) ∷ marked segs

unfoldable pub same_path : List Bytes → List Bytes → Bool
unfolding str_eq
same_path [] [] = true
same_path [] (b ∷ q) = false
same_path (a ∷ p) [] = false
same_path (a ∷ p) (b ∷ q) = str_eq a b && same_path p q

pub entry-cons :
    (seg : Bytes) (segs : List Bytes) (t : Trie)
    → entry (seg ∷ segs) t ≡ entry_of (get_child seg (children t)) segs
unfolding entry
entry-cons seg segs t = elim (Option-cases (get_child seg (children t))) [
  | inl n ↦ ground arith
  | inr (c, n) ↦ ground arith
]

entry-or_new : (o : Option Trie) (segs : List Bytes) → entry segs (or_new o) ≡ entry_of o segs
entry-or_new none [] = unfold entry is_end in refl
entry-or_new none (seg ∷ segs) = unfold entry get_child children in refl
entry-or_new (some t) segs = refl

entry-mark :
    (raw : Bytes) (t : Trie) (segs : List Bytes)
    → entry segs (mark raw t) ≡ (if same_path [] segs then some raw else entry segs t)
unfolding entry mark same_path children is_end raw_of
entry-mark raw (node e r cs gs) [] = refl
entry-mark raw (node e r cs gs) (seg ∷ segs) = refl

-- An insertion of a path below a child, seen from its parent.
entry-insert_below :
    (raw seg : Bytes) (last : Bool) (segs : List (Bytes × Bool)) (t : Trie) (q : Bytes)
    (qs : List Bytes)
    → entry (q ∷ qs) (insert_loop raw ((seg, last) ∷ segs) t) ≡ (
        if str_eq seg q
        then entry qs (
            insert_loop raw segs
              (let c = or_new (get_child seg (children t)) in if last then mark raw c else c))
        else entry (q ∷ qs) t)
unfolding insert_loop children
entry-insert_below raw seg last segs (node e r cs gs) q qs =
    let c = or_new (get_child seg cs) in
    let below = insert_loop raw segs (if last then mark raw c else c) in
    let t' = insert_loop raw ((seg, last) ∷ segs) (node e r cs gs) in
    elim (Bool-cases (str_eq seg q)) [
      | inl same ↦ entry-cons q qs t' ∙ rw (get_child-set_child seg q below cs, same) refl
      | inr other ↦
          entry-cons q qs t'
          ∙ rw (get_child-set_child seg q below cs, other) (sym (entry-cons q qs (node e r cs gs)))
    ]

pub entry-child :
    (seg q : Bytes) (qs : List Bytes) (t : Trie)
    → str_eq seg q ≡ true
    → entry (q ∷ qs) t ≡ entry qs (or_new (get_child seg (children t)))
entry-child seg q qs t h =
    rw (entry-cons q qs t, entry-or_new (get_child seg (children t)) qs, (str_eq_iff seg q).0 h)
      refl

entry-insert_here :
    (raw seg : Bytes) (last : Bool) (segs : List (Bytes × Bool)) (t : Trie)
    → entry [] (insert_loop raw ((seg, last) ∷ segs) t) ≡ entry [] t
unfolding entry insert_loop is_end raw_of
entry-insert_here raw seg last segs (node e r cs gs) = refl

insert_loop-nil : (raw : Bytes) (t : Trie) → insert_loop raw [] t ≡ t
unfolding insert_loop
insert_loop-nil raw t = refl

-- An insertion sets the entry at its path, which has a segment, and no other.
pub entry-insert_loop :
    (raw seg : Bytes) (segs q : List Bytes) (t : Trie)
    → entry q (insert_loop raw (marked (seg ∷ segs)) t)
      ≡ (if same_path (seg ∷ segs) q then some raw else entry q t)
unfolding same_path
entry-insert_loop raw seg [] [] t = entry-insert_here raw seg true [] t
entry-insert_loop raw seg (next ∷ segs) [] t =
    entry-insert_here raw seg false (marked (next ∷ segs)) t
entry-insert_loop raw seg [] (q ∷ qs) t =
    let c = or_new (get_child seg (children t)) in
    ground (
      arith,
      entry-insert_below raw seg true [] t q qs,
      insert_loop-nil raw (mark raw c),
      entry-mark raw c qs,
      entry-child seg q qs t,
    )
entry-insert_loop raw seg (next ∷ segs) (q ∷ qs) t =
    let c = or_new (get_child seg (children t)) in
    ground (
      arith,
      entry-insert_below raw seg false (marked (next ∷ segs)) t q qs,
      entry-insert_loop raw next segs qs c,
      entry-child seg q qs t,
    )
