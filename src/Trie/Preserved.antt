-- ===== src/Trie/Preserved.antt =====
-- internal/ds/trie.go: `Insert` and `Remove` on a tidy trie.
use ginject.Prelude.{
  ◌≡◌, sym, subst, inl, inr, Bool, true, false, not, ◌&&◌, ◌||◌, some, List, [], ◌∷◌, arith,
  if◌then◌else◌, Bool-cases, Option-cases,
}
use ginject.Text.{Bytes, str_eq}
use ginject.Trie.{
  Trie, node, Children, children, is_end, has_children, get_child, set_child, contains_star, star,
  mark, glob_after, or_new, insert_loop, unmark, prune, remove_loop, remove_segments,
}
use ginject.Trie.Removing.{child_of}
use ginject.Trie.Tidy.{
  IsTidy, AreTidy, AreGlobs, AreGlobs-map, IsHeld-set_child, AreGlobs-append, AreGlobs-remove,
  get_child-IsTidy, AreTidy-set_child, AreTidy-delete_child,
}

mark-IsTidy : (raw : Bytes) (t : Trie) → IsTidy t → IsTidy (mark raw t)
unfolding mark
mark-IsTidy raw (node e r cs gs) h = h

or_new-IsTidy : (k : Bytes) (cs : Children) → AreTidy cs → IsTidy (or_new (get_child k cs))
or_new-IsTidy k cs h = elim (Option-cases (get_child k cs)) [
  | inl n ↦ rw n (tt, tt)
  | inr (c, n) ↦ rw n (get_child-IsTidy k cs c h n)
]

glob_after-AreGlobs :
    (seg : Bytes) (t : Trie) (cs : Children) (gs : List Bytes)
    → AreGlobs gs cs
    → AreGlobs (glob_after (get_child seg cs) seg gs) (set_child seg t cs)
unfolding glob_after
glob_after-AreGlobs seg t cs gs h =
    let kept = AreGlobs-map gs cs (set_child seg t cs) (λ g. IsHeld-set_child seg g t cs) h in
    elim (Option-cases (get_child seg cs)) [
      | inl n ↦ elim (Bool-cases (not (str_eq seg star) && contains_star seg)) [
        | inl e ↦ rw (n, e) (AreGlobs-append gs seg t cs n h)
        | inr e ↦ rw (n, e) kept
      ]
      | inr (c, n) ↦ rw n kept
    ]

if-IsTidy : (b : Bool) (t u : Trie) → IsTidy t → IsTidy u → IsTidy (if b then t else u)
if-IsTidy true t u h k = h
if-IsTidy false t u h k = k

pub insert_loop-IsTidy :
    (raw : Bytes) (segs : List (Bytes × Bool)) (t : Trie)
    → IsTidy t
    → IsTidy (insert_loop raw segs t)
unfolding insert_loop
insert_loop-IsTidy raw [] t h = h
insert_loop-IsTidy raw ((seg, last) ∷ segs) (node e r cs gs) (g, h) =
    let c = or_new (get_child seg cs) in
    let below = insert_loop raw segs (if last then mark raw c else c) in
    let new = or_new-IsTidy seg cs h in
    let tidy =
      insert_loop-IsTidy raw segs (if last then mark raw c else c)
        (if-IsTidy last (mark raw c) c (mark-IsTidy raw c new) new) in
    (glob_after-AreGlobs seg below cs gs g, AreTidy-set_child seg below cs tidy h)

prune-IsTidy : (seg : Bytes) (below t : Trie) → IsTidy below → IsTidy t → IsTidy (prune seg below t)
unfolding prune
prune-IsTidy seg below (node e r cs gs) k (g, h) =
    elim (Bool-cases (is_end below || has_children (children below))) [
      | inl n ↦ rw n (
        AreGlobs-map gs cs (set_child seg below cs) (λ x. IsHeld-set_child seg x below cs) g,
        AreTidy-set_child seg below cs k h,
      )
      | inr n ↦ rw n (AreGlobs-remove gs seg cs g, AreTidy-delete_child seg cs h)
    ]

unmark-IsTidy : (t u : Trie) → IsTidy t → unmark t ≡ some u → IsTidy u
unfolding unmark
unmark-IsTidy (node false r cs gs) u h e = absurd (ground arith)
unmark-IsTidy (node true r cs gs) u h e =
    let same : node false [] cs gs ≡ u = ground arith in subst IsTidy same h

pub children-AreTidy : (t : Trie) → IsTidy t → AreTidy (children t)
unfolding children
children-AreTidy (node e r cs gs) (g, h) = h

remove_loop-IsTidy :
    (segs : List (Bytes × Bool)) (t u : Trie) → IsTidy t → remove_loop segs t ≡ some u → IsTidy u
remove_loop-IsTidy [] t u h e = unmark-IsTidy t u h (unfold remove_loop in e)
remove_loop-IsTidy ((seg, last) ∷ segs) t u h e =
    let (c, below, n, n', same) = child_of t seg segs last u e in
    let tidy = get_child-IsTidy seg (children t) c (children-AreTidy t h) n in
    subst IsTidy (sym same) (prune-IsTidy seg below t (remove_loop-IsTidy segs c below tidy n') h)

pub remove_segments-IsTidy :
    (segs : List (Bytes × Bool)) (t : Trie) → IsTidy t → IsTidy (remove_segments segs t).1
unfolding remove_segments
remove_segments-IsTidy [] t h = h
remove_segments-IsTidy (seg ∷ segs) t h = elim (Option-cases (remove_loop (seg ∷ segs) t)) [
  | inl n ↦ let e : remove_segments (seg ∷ segs) t ≡ (false, t) = ground arith in rw e h
  | inr (u, n) ↦
      let e : remove_segments (seg ∷ segs) t ≡ (true, u) = ground arith in
      rw e (remove_loop-IsTidy (seg ∷ segs) t u h n)
]
