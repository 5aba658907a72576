-- ===== src/Trie/Removing.antt =====
-- `Remove` of internal/ds/trie.go from a node down.
use ginject.Prelude.{
  ◌≡◌, refl, sym, ◌∙◌, inl, inr, Bool, true, false, ◌||◌, none, some, List, [], ◌∷◌, arith,
  if◌then◌else◌, Bool-cases, Option-cases,
}
use ginject.Text.{Bytes, str_eq}
use ginject.Trie.{
  Trie, node, Children, children, is_end, raw_of, get_child, set_child, delete_child, has_children,
  unmark, prune, remove_loop, remove_glob_child,
}
use ginject.Trie.Entries.{
  entry, entry-cons, entry-child, get_child-none, get_child-set_child, get_child-delete_child,
  marked, is_last, same_path,
}

entry-set_below :
    (seg : Bytes) (below : Trie) (e : Bool) (r : Bytes) (cs : Children) (gs gs' : List Bytes)
    (q : Bytes) (qs : List Bytes)
    → entry (q ∷ qs) (node e r (set_child seg below cs) gs')
      ≡ (if str_eq seg q then entry qs below else entry (q ∷ qs) (node e r cs gs))
unfolding children
entry-set_below seg below e r cs gs gs' q qs = elim (Bool-cases (str_eq seg q)) [
  | inl same ↦
      entry-cons q qs (node e r (set_child seg below cs) gs')
      ∙ rw (get_child-set_child seg q below cs, same) refl
  | inr other ↦
      entry-cons q qs (node e r (set_child seg below cs) gs')
      ∙ rw (get_child-set_child seg q below cs, other) (sym (entry-cons q qs (node e r cs gs)))
]

entry-delete_below :
    (seg : Bytes) (e : Bool) (r : Bytes) (cs : Children) (gs gs' : List Bytes) (q : Bytes)
    (qs : List Bytes)
    → entry (q ∷ qs) (node e r (delete_child seg cs) gs')
      ≡ (if str_eq seg q then none else entry (q ∷ qs) (node e r cs gs))
unfolding children
entry-delete_below seg e r cs gs gs' q qs = elim (Bool-cases (str_eq seg q)) [
  | inl same ↦
      entry-cons q qs (node e r (delete_child seg cs) gs')
      ∙ rw (get_child-delete_child seg q cs, same) refl
  | inr other ↦
      entry-cons q qs (node e r (delete_child seg cs) gs')
      ∙ rw (get_child-delete_child seg q cs, other) (sym (entry-cons q qs (node e r cs gs)))
]

-- A node that is deleted has no entry left.
entry-bare :
    (t : Trie) (segs : List Bytes)
    → (is_end t || has_children (children t)) ≡ false
    → entry segs t ≡ none
entry-bare t [] h = unfold entry in ground arith
entry-bare t (seg ∷ segs) h =
    entry-cons seg segs t ∙ rw (get_child-none seg (children t) (ground arith)) refl

entry-prune_below :
    (seg : Bytes) (below t : Trie) (q : Bytes) (qs : List Bytes)
    → entry (q ∷ qs) (prune seg below t)
      ≡ (if str_eq seg q then entry qs below else entry (q ∷ qs) t)
unfolding prune
entry-prune_below seg below (node e r cs gs) q qs =
    elim (Bool-cases (is_end below || has_children (children below))) [
      | inl kept ↦ rw kept (entry-set_below seg below e r cs gs gs q qs)
      | inr bare ↦ rw bare (
          entry-delete_below seg e r cs gs (remove_glob_child gs seg) q qs
          ∙ ground (arith, entry-bare below qs bare))
    ]

entry-prune_here : (seg : Bytes) (below t : Trie) → entry [] (prune seg below t) ≡ entry [] t
unfolding prune entry is_end raw_of
entry-prune_here seg below (node e r cs gs) = ground arith

entry-cleared :
    (r : Bytes) (cs : Children) (gs segs : List Bytes)
    → entry segs (node false [] cs gs)
      ≡ (if same_path [] segs then none else entry segs (node true r cs gs))
unfolding entry is_end children same_path
entry-cleared r cs gs [] = refl
entry-cleared r cs gs (seg ∷ segs) = refl

entry-unmark :
    (t u : Trie) (segs : List Bytes)
    → unmark t ≡ some u
    → entry segs u ≡ (if same_path [] segs then none else entry segs t)
unfolding unmark
entry-unmark (node false r cs gs) u segs h = absurd (ground arith)
entry-unmark (node true r cs gs) u segs h =
    let same : node false [] cs gs ≡ u = ground arith in rw (sym same) (entry-cleared r cs gs segs)

pub child_of :
    (t : Trie) (seg : Bytes) (segs : List (Bytes × Bool)) (last : Bool) (u : Trie)
    → remove_loop ((seg, last) ∷ segs) t ≡ some u
    → (c : Trie) × (below : Trie) × (get_child seg (children t) ≡ some c)
      × (remove_loop segs c ≡ some below)
      × (u ≡ prune seg below t)
unfolding remove_loop
child_of t seg segs last u h = elim (Option-cases (get_child seg (children t))) [
  | inl n ↦ absurd (ground arith)
  | inr (c, n) ↦ elim (Option-cases (remove_loop segs c)) [
    | inl n' ↦ absurd (ground arith)
    | inr (below, n') ↦ (c, below, n, n', ground arith)
  ]
]

-- A removal that finds its path takes the entry there away, and no other.
pub entry-remove_loop :
    (p q : List Bytes) (t u : Trie)
    → remove_loop (marked p) t ≡ some u
    → entry q u ≡ (if same_path p q then none else entry q t)
unfolding same_path
entry-remove_loop [] q t u h = entry-unmark t u q (unfold remove_loop in h)
entry-remove_loop (seg ∷ p) [] t u h =
    let (c, below, n, n', e) = child_of t seg (marked p) (is_last p) u h in
    rw e (entry-prune_here seg below t)
entry-remove_loop (seg ∷ p) (b ∷ q) t u h =
    let (c, below, n, n', e) = child_of t seg (marked p) (is_last p) u h in
    rw e (
      entry-prune_below seg below t b q
      ∙ ground (arith, entry-remove_loop p q c below n', entry-child seg b q t, n))

unmark-none : (t : Trie) → entry [] t ≡ none → unmark t ≡ none
unfolding unmark entry is_end
unmark-none (node e r cs gs) h = ground arith

unmark-some : (t : Trie) (raw : Bytes) → entry [] t ≡ some raw → (u : Trie) × (unmark t ≡ some u)
unfolding unmark entry is_end
unmark-some (node false r cs gs) raw h = absurd (ground arith)
unmark-some (node true r cs gs) raw h = (node false [] cs gs, refl)

-- It finds its path where the path has an entry.
pub remove_loop-none :
    (p : List Bytes) (t : Trie) → entry p t ≡ none → remove_loop (marked p) t ≡ none
unfolding remove_loop entry
remove_loop-none [] t h = unmark-none t h
remove_loop-none (seg ∷ p) t h = elim (Option-cases (get_child seg (children t))) [
  | inl n ↦ ground arith
  | inr (c, n) ↦ ground (arith, remove_loop-none p c)
]

pub remove_loop-some :
    (p : List Bytes) (t : Trie) (raw : Bytes)
    → entry p t ≡ some raw
    → (u : Trie) × (remove_loop (marked p) t ≡ some u)
unfolding remove_loop entry
remove_loop-some [] t raw h = unmark-some t raw h
remove_loop-some (seg ∷ p) t raw h = elim (Option-cases (get_child seg (children t))) [
  | inl n ↦ absurd (ground arith)
  | inr (c, n) ↦
      let (below, e) = remove_loop-some p c raw (ground arith) in (prune seg below t, ground arith)
]
