-- ===== src/GoMap/Distinct.antt =====
-- Maps whose keys differ, as those of Go do.
use ginject.Prelude.{◌≡◌, inl, inr, none, some, [], ◌∷◌, arith, Bool-cases, refl}
use ginject.Prelude.Members.{In}
use ginject.Text.{Bytes, str_eq, str_eq_iff, str_eq_refl}
use ginject.GoMap.{GoMap, lookup, insert, erase, values, lookup-insert, lookup-erase}

module _ {ℓ} {V : Type ℓ} where
  abbrev pub Distinct : GoMap V → Type ℓ
  Distinct [] = Unit
  Distinct ((k, v) ∷ m) = (lookup k m ≡ none) × Distinct m

  pub insert-Distinct : (k : Bytes) (v : V) (m : GoMap V) → Distinct m → Distinct (insert k v m)
  unfolding insert
  insert-Distinct k v [] d = (unfold lookup in refl, tt)
  insert-Distinct k v ((j, w) ∷ m) (fresh, d) = elim (Bool-cases (str_eq j k)) [
    | inl e ↦ rw e (rw ((str_eq_iff j k).0 e) at fresh, d)
    | inr e ↦ rw e (
      rw (lookup-insert k j v m) (ground (arith, str_eq_iff j k, str_eq_iff k j)),
      insert-Distinct k v m d,
    )
  ]

  pub erase-Distinct : (k : Bytes) (m : GoMap V) → Distinct m → Distinct (erase k m)
  unfolding erase
  erase-Distinct k [] d = tt
  erase-Distinct k ((j, w) ∷ m) (fresh, d) = elim (Bool-cases (str_eq j k)) [
    | inl e ↦ rw e (erase-Distinct k m d)
    | inr e ↦ rw e (rw (lookup-erase k j m) (ground arith), erase-Distinct k m d)
  ]

module _ {V : Type 0} where
  -- A value that the iteration meets is stored under some key.
  pub In-values→lookup :
      (v : V) (m : GoMap V) → Distinct m → In v (values m) → (k : Bytes) × (lookup k m ≡ some v)
  unfolding values lookup
  In-values→lookup v [] d h = elim h [ ]
  In-values→lookup v ((j, w) ∷ m) d (inl e) = (j, rw (str_eq_refl j, e))
  In-values→lookup v ((j, w) ∷ m) (fresh, d) (inr h) =
      let (k, e) = In-values→lookup v m d h in (k, ground (arith, str_eq_iff j k))

  pub lookup→In-values : (k : Bytes) (v : V) (m : GoMap V) → lookup k m ≡ some v → In v (values m)
  unfolding values lookup
  lookup→In-values k v [] h = absurd (ground arith)
  lookup→In-values k v ((j, w) ∷ m) h = elim (Bool-cases (str_eq j k)) [
    | inl e ↦ inl (ground arith)
    | inr e ↦ inr (lookup→In-values k v m (ground arith))
  ]
