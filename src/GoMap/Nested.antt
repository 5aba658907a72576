-- ===== src/GoMap/Nested.antt =====
-- Maps of maps, `map[string]map[string]V`, as the indexes of the program keep them: an inner map is
-- made at its first entry and dropped with its last.
use ginject.Prelude.{
  ◌≡◌, refl, inl, inr, true, false, Option, none, some, [], ◌∷◌, arith, if◌then◌else◌, Bool-cases,
}
use ginject.Text.{Bytes, str_eq}
use ginject.GoMap.{GoMap, lookup, insert, erase, is_empty, lookup-insert, lookup-erase}
use ginject.GoMap.Distinct.{Distinct, insert-Distinct, erase-Distinct}

module _ {ℓ} {V : Type ℓ} where
  -- A missing inner map reads as an empty one.
  abbrev pub or_empty : Option (GoMap V) → GoMap V
  or_empty none = []
  or_empty (some m) = m

  -- `m[key]`, a nil map where the key is missing.
  abbrev pub inner : Bytes → GoMap (GoMap V) → GoMap V
  inner key m = or_empty (lookup key m)

  -- `if m[key] == nil { m[key] = make(…) }; m[key][id] = v`
  unfoldable pub put : Bytes → Bytes → V → GoMap (GoMap V) → GoMap (GoMap V)
  put key id v m = insert key (insert id v (inner key m)) m

  -- `delete(m[key], id); if len(m[key]) == 0 { delete(m, key) }`
  unfoldable pub drop : Bytes → Bytes → GoMap (GoMap V) → GoMap (GoMap V)
  drop key id m =
      let left = erase id (inner key m) in if is_empty left then erase key m else insert key left m

  pub inner-put :
      (key id : Bytes) (v : V) (m : GoMap (GoMap V)) (key' : Bytes)
      → inner key' (put key id v m)
        ≡ (if str_eq key key' then insert id v (inner key m) else inner key' m)
  unfolding put
  inner-put key id v m key' = ground (arith, lookup-insert key key' (insert id v (inner key m)) m)

  is_empty→nil : (m : GoMap V) → is_empty m ≡ true → m ≡ []
  unfolding is_empty
  is_empty→nil [] h = refl
  is_empty→nil (e ∷ m) h = absurd (ground arith)

  pub inner-drop :
      (key id : Bytes) (m : GoMap (GoMap V)) (key' : Bytes)
      → inner key' (drop key id m)
        ≡ (if str_eq key key' then erase id (inner key m) else inner key' m)
  unfolding drop
  inner-drop key id m key' = elim (Bool-cases (is_empty (erase id (inner key m)))) [
    | inl e ↦
        rw e (ground (arith, lookup-erase key key' m, is_empty→nil (erase id (inner key m)) e))
    | inr e ↦ rw e (ground (arith, lookup-insert key key' (erase id (inner key m)) m))
  ]

  -- No inner map is empty, all keys differ.
  pub record IsTidy (m : GoMap (GoMap V)) : Type ℓ where
    pub outer : Distinct m
    pub inners : (key : Bytes) → Distinct (inner key m)
    pub filled : (key : Bytes) (n : GoMap V) → lookup key m ≡ some n → is_empty n ≡ false

  is_empty-insert : (k : Bytes) (v : V) (m : GoMap V) → is_empty (insert k v m) ≡ false
  unfolding is_empty insert
  is_empty-insert k v [] = refl
  is_empty-insert k v ((j, w) ∷ m) = ground arith

  pub put-IsTidy :
      (key id : Bytes) (v : V) (m : GoMap (GoMap V)) → IsTidy m → IsTidy (put key id v m)
  unfolding put
  put-IsTidy key id v m t = record {
    outer = insert-Distinct key (insert id v (inner key m)) m t.outer;
    inners = λ key'.
        rw (lookup-insert key key' (insert id v (inner key m)) m)
          (elim (Bool-cases (str_eq key key')) [
            | inl e ↦ rw e (insert-Distinct id v (inner key m) (t.inners key))
            | inr e ↦ rw e (t.inners key')
          ]);
    filled = λ key' n h. ground (
      arith,
      lookup-insert key key' (insert id v (inner key m)) m,
      t.filled key' n,
      is_empty-insert id v (inner key m),
    );
  }

  pub drop-IsTidy : (key id : Bytes) (m : GoMap (GoMap V)) → IsTidy m → IsTidy (drop key id m)
  unfolding drop
  drop-IsTidy key id m t = elim (Bool-cases (is_empty (erase id (inner key m)))) [
    | inl none_left ↦ rw none_left (record {
      outer = erase-Distinct key m t.outer;
      inners = λ key'.
          rw (lookup-erase key key' m) (elim (Bool-cases (str_eq key key')) [
            | inl e ↦ rw e tt
            | inr e ↦ rw e (t.inners key')
          ]);
      filled = λ key' n h. ground (arith, lookup-erase key key' m, t.filled key' n);
    })
    | inr some_left ↦ rw some_left (record {
      outer = insert-Distinct key (erase id (inner key m)) m t.outer;
      inners = λ key'.
          rw (lookup-insert key key' (erase id (inner key m)) m)
            (elim (Bool-cases (str_eq key key')) [
              | inl e ↦ rw e (erase-Distinct id (inner key m) (t.inners key))
              | inr e ↦ rw e (t.inners key')
            ]);
      filled = λ key' n h.
          ground (arith, lookup-insert key key' (erase id (inner key m)) m, t.filled key' n);
    })
  ]
