-- ===== src/Trie/Tidy.antt =====
-- internal/ds/trie.go: `globChildren` next to the children that it names.
use ginject.Prelude.{
  ◌≡◌, refl, ◌∙◌, ◌≢◌, subst, inl, inr, none, some, List, [], ◌∷◌, ◌++◌, arith, Bool-cases,
}
use ginject.Prelude.Members.{All}
use ginject.Text.{Bytes, str_eq, str_eq_iff}
use ginject.Trie.{
  Trie, node, Children, leaf, child, get_child, set_child, delete_child, remove_glob_child,
}
use ginject.Trie.Entries.{get_child-set_child, get_child-delete_child}

abbrev pub IsHeld : Bytes → Children → Type 0
IsHeld g cs = (c : Trie) × (get_child g cs ≡ some c)

-- The names are children, and each is there once.
abbrev pub AreGlobs : List Bytes → Children → Type 0
AreGlobs [] cs = Unit
AreGlobs (g ∷ gs) cs = IsHeld g cs × All (λ h. h ≢ g) gs × AreGlobs gs cs

abbrev mutual
  pub IsTidy : Trie → Type 0
  IsTidy (node e r cs gs) = AreGlobs gs cs × AreTidy cs

  pub AreTidy : Children → Type 0
  AreTidy leaf = Unit
  AreTidy (child key t cs) = IsTidy t × AreTidy cs

pub AreGlobs-map :
    (gs : List Bytes) (cs ds : Children)
    → ((g : Bytes) → IsHeld g cs → IsHeld g ds)
    → AreGlobs gs cs
    → AreGlobs gs ds
AreGlobs-map [] cs ds f h = h
AreGlobs-map (g ∷ gs) cs ds f (held, fresh, h) = (f g held, fresh, AreGlobs-map gs cs ds f h)

pub IsHeld-set_child :
    (k g : Bytes) (t : Trie) (cs : Children) → IsHeld g cs → IsHeld g (set_child k t cs)
IsHeld-set_child k g t cs (c, e) = elim (Bool-cases (str_eq k g)) [
  | inl n ↦ (t, get_child-set_child k g t cs ∙ rw n refl)
  | inr n ↦ (c, get_child-set_child k g t cs ∙ rw n e)
]

IsHeld-set_self : (k : Bytes) (t : Trie) (cs : Children) → IsHeld k (set_child k t cs)
IsHeld-set_self k t cs = (t, ground (arith, get_child-set_child k k t cs, str_eq_iff k k))

All-append_last :
    (g seg : Bytes) (gs : List Bytes)
    → seg ≢ g
    → All (λ h. h ≢ g) gs
    → All (λ h. h ≢ g) (gs ++ seg ∷ [])
All-append_last g seg [] n h = (n, tt)
All-append_last g seg (x ∷ gs) n (p, h) = (p, All-append_last g seg gs n h)

pub AreGlobs-append :
    (gs : List Bytes) (seg : Bytes) (t : Trie) (cs : Children)
    → get_child seg cs ≡ none
    → AreGlobs gs cs
    → AreGlobs (gs ++ seg ∷ []) (set_child seg t cs)
AreGlobs-append [] seg t cs n h = (IsHeld-set_self seg t cs, tt, tt)
AreGlobs-append (g ∷ gs) seg t cs n ((c, e), fresh, h) = (
  IsHeld-set_child seg g t cs (c, e),
  All-append_last g seg gs (λ same. cc) fresh,
  AreGlobs-append gs seg t cs n h,
)

IsHeld-delete_child :
    (k g : Bytes) (cs : Children) → g ≢ k → IsHeld g cs → IsHeld g (delete_child k cs)
IsHeld-delete_child k g cs n (c, e) =
    (c, ground (arith, get_child-delete_child k g cs, str_eq_iff k g))

AreGlobs-delete_child :
    (gs : List Bytes) (k : Bytes) (cs : Children)
    → All (λ h. h ≢ k) gs
    → AreGlobs gs cs
    → AreGlobs gs (delete_child k cs)
AreGlobs-delete_child [] k cs n h = h
AreGlobs-delete_child (g ∷ gs) k cs (n, ns) (held, fresh, h) =
    (IsHeld-delete_child k g cs n held, fresh, AreGlobs-delete_child gs k cs ns h)

All-remove_glob_child :
    (g k : Bytes) (gs : List Bytes)
    → All (λ h. h ≢ g) gs
    → All (λ h. h ≢ g) (remove_glob_child gs k)
unfolding remove_glob_child
All-remove_glob_child g k [] h = h
All-remove_glob_child g k (x ∷ gs) (p, h) = elim (Bool-cases (str_eq x k)) [
  | inl e ↦ rw e h
  | inr e ↦ rw e (p, All-remove_glob_child g k gs h)
]

pub AreGlobs-remove :
    (gs : List Bytes) (k : Bytes) (cs : Children)
    → AreGlobs gs cs
    → AreGlobs (remove_glob_child gs k) (delete_child k cs)
unfolding remove_glob_child
AreGlobs-remove [] k cs h = h
AreGlobs-remove (g ∷ gs) k cs (held, fresh, h) = elim (Bool-cases (str_eq g k)) [
  | inl e ↦ rw e (
      AreGlobs-delete_child gs k cs (subst (λ x. All (λ h. h ≢ x) gs) ((str_eq_iff g k).0 e) fresh)
        h)
  | inr e ↦ rw e (
    IsHeld-delete_child k g cs (ground (arith, str_eq_iff g k)) held,
    All-remove_glob_child g k gs fresh,
    AreGlobs-remove gs k cs h,
  )
]

pub get_child-IsTidy :
    (k : Bytes) (cs : Children) (c : Trie) → AreTidy cs → get_child k cs ≡ some c → IsTidy c
unfolding get_child
get_child-IsTidy k leaf c h e = absurd (ground arith)
get_child-IsTidy k (child j t cs) c (h, hs) e = elim (Bool-cases (str_eq j k)) [
  | inl n ↦ let same : t ≡ c = ground arith in subst IsTidy same h
  | inr n ↦ get_child-IsTidy k cs c hs (ground arith)
]

pub AreTidy-set_child :
    (k : Bytes) (t : Trie) (cs : Children) → IsTidy t → AreTidy cs → AreTidy (set_child k t cs)
unfolding set_child
AreTidy-set_child k t leaf h hs = (h, hs)
AreTidy-set_child k t (child j u cs) h (p, hs) = elim (Bool-cases (str_eq j k)) [
  | inl n ↦ rw n (h, hs)
  | inr n ↦ rw n (p, AreTidy-set_child k t cs h hs)
]

pub AreTidy-delete_child : (k : Bytes) (cs : Children) → AreTidy cs → AreTidy (delete_child k cs)
unfolding delete_child
AreTidy-delete_child k leaf hs = hs
AreTidy-delete_child k (child j u cs) (p, hs) = elim (Bool-cases (str_eq j k)) [
  | inl n ↦ rw n (AreTidy-delete_child k cs hs)
  | inr n ↦ rw n (p, AreTidy-delete_child k cs hs)
]
