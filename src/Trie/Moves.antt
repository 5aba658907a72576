-- ===== src/Trie/Moves.antt =====
-- internal/ds/trie.go: the rounds of the loop of `Find` on a tidy trie.
use ginject.Prelude.{
  ◌≡◌, refl, ◌⊎◌, subst, inl, inr, Bool, true, false, Option, none, some, List, [], ◌∷◌, arith,
  if◌then◌else◌, Bool-cases, Option-cases,
}
use ginject.Text.{Bytes}
use ginject.Trie.{Trie, node, Children, children, glob_children, get_child, star, dollar}
use ginject.Trie.Search.{
  first_glob, match_wildcard, star_end, Move, moved, no_match, nil_child, glob_move, star_move,
  param_move, move, Walk, walked, nil_dereference, find_loop,
}
use ginject.Trie.Finding.{find_loop_moved}
use ginject.Trie.Tidy.{IsTidy, AreGlobs, IsHeld, get_child-IsTidy}
use ginject.Trie.Preserved.{children-AreTidy}

first_glob-IsHeld :
    (seg route : Bytes) (gs : List Bytes) (cs : Children)
    → AreGlobs gs cs
    → first_glob seg gs ≡ some route
    → IsHeld route cs
unfolding first_glob
first_glob-IsHeld seg route [] cs h e = absurd (ground arith)
first_glob-IsHeld seg route (g ∷ gs) cs (held, fresh, h) e =
    elim (Bool-cases (match_wildcard seg g)) [
      | inl n ↦ let same : g ≡ route = ground arith in subst (λ x. IsHeld x cs) same held
      | inr n ↦ first_glob-IsHeld seg route gs cs h (ground arith)
    ]

glob_children-AreGlobs : (t : Trie) → IsTidy t → AreGlobs (glob_children t) (children t)
unfolding glob_children children
glob_children-AreGlobs (node e r cs gs) (g, h) = g

-- Where a round of the loop may end: at a tidy child, or nowhere.
abbrev IsFine : Move → Type 0
IsFine (moved c wild vals) = IsTidy c
IsFine no_match = Unit
IsFine nil_child = ⊥

glob_move-IsFine :
    (seg : Bytes) (t : Trie) (wild : Option Trie) (vals : List Bytes)
    → IsTidy t
    → IsFine (glob_move (first_glob seg (glob_children t)) t wild vals)
glob_move-IsFine seg t wild vals h = elim (Option-cases (first_glob seg (glob_children t))) [
  | inl n ↦ rw n tt
  | inr (route, n) ↦
      let (c, e) =
        first_glob-IsHeld seg route (glob_children t) (children t) (glob_children-AreGlobs t h) n in
      let e' : glob_move (some route) t wild vals ≡ moved c wild vals = ground arith in
      rw (n, e') (get_child-IsTidy route (children t) c (children-AreTidy t h) e)
]

star_move-IsFine :
    (seg : Bytes) (t : Trie) (wild : Option Trie) (vals : List Bytes)
    → IsTidy t
    → IsFine (star_move (get_child star (children t)) seg t wild vals)
star_move-IsFine seg t wild vals h = elim (Option-cases (get_child star (children t))) [
  | inl n ↦ rw n (glob_move-IsFine seg t wild vals h)
  | inr (c, n) ↦ rw n (get_child-IsTidy star (children t) c (children-AreTidy t h) n)
]

param_move-IsFine :
    (sp : Bool) (seg : Bytes) (t : Trie) (wild : Option Trie) (vals : List Bytes)
    → IsTidy t
    → IsFine (param_move (if sp then get_child dollar (children t) else none) seg t wild vals)
param_move-IsFine false seg t wild vals h = star_move-IsFine seg t wild vals h
param_move-IsFine true seg t wild vals h = elim (Option-cases (get_child dollar (children t))) [
  | inl n ↦ rw n (star_move-IsFine seg t wild vals h)
  | inr (c, n) ↦ rw n (get_child-IsTidy dollar (children t) c (children-AreTidy t h) n)
]

move-IsFine :
    (sp : Bool) (seg : Bytes) (t : Trie) (wild : Option Trie) (vals : List Bytes)
    → IsTidy t
    → IsFine (move sp seg t wild vals)
unfolding move
move-IsFine sp seg t wild vals h = elim (Option-cases (get_child seg (children t))) [
  | inl n ↦
      let other = if sp then get_child dollar (children t) else none in
      let e : move sp seg t wild vals ≡ param_move other seg t wild vals = ground arith in
      rw e (param_move-IsFine sp seg t wild vals h)
  | inr (c, n) ↦
      let e : move sp seg t wild vals ≡ moved c (star_end t wild) vals = ground arith in
      rw e (get_child-IsTidy seg (children t) c (children-AreTidy t h) n)
]

-- A walk that took no nil child.
abbrev pub IsSafe : Walk → Type 0
IsSafe (walked matched wild vals) = Unit
IsSafe nil_dereference = ⊥

if-IsSafe : (b : Bool) (v w : Walk) → IsSafe v → IsSafe w → IsSafe (if b then v else w)
if-IsSafe true v w h k = h
if-IsSafe false v w h k = k

Move-cases :
    (m : Move)
    → ((c : Trie) × (w : Option Trie) × (vs : List Bytes) × (m ≡ moved c w vs))
      ⊎ ((m ≡ no_match) ⊎ (m ≡ nil_child))
Move-cases (moved c w vs) = inl (c, w, vs, refl)
Move-cases no_match = inr (inl refl)
Move-cases nil_child = inr (inr refl)

find_loop_stopped :
    (sp : Bool) (seg : Bytes) (last : Bool) (segs : List (Bytes × Bool)) (t : Trie)
    (wild : Option Trie) (vals : List Bytes)
    → move sp seg t wild vals ≡ no_match
    → find_loop sp ((seg, last) ∷ segs) t wild vals ≡ walked none wild vals
unfolding find_loop
find_loop_stopped sp seg last segs t wild vals e = ground arith

pub find_loop-IsSafe :
    (sp : Bool) (segs : List (Bytes × Bool)) (t : Trie) (wild : Option Trie) (vals : List Bytes)
    → IsTidy t
    → IsSafe (find_loop sp segs t wild vals)
find_loop-IsSafe sp [] t wild vals h = unfold find_loop in tt
find_loop-IsSafe sp ((seg, last) ∷ segs) t wild vals h =
    let fine = move-IsFine sp seg t wild vals h in
    elim (Move-cases (move sp seg t wild vals)) [
      | inl (c, w, vs, e) ↦
          let tidy : IsTidy c = subst IsFine e fine in
          rw (find_loop_moved sp seg last segs t c wild w vals vs e) (
            if-IsSafe last (walked (some c) (star_end c w) vs) (find_loop sp segs c w vs) tt
              (find_loop-IsSafe sp segs c w vs tidy))
      | inr (inl e) ↦ rw (find_loop_stopped sp seg last segs t wild vals e) tt
      | inr (inr e) ↦ absurd (subst IsFine e fine)
    ]
