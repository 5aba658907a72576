-- ===== src/Broker/Index.antt =====
-- The indexes of a broker: the key and the id under which a subscription stands, and the inner
-- maps that are emptied.
use ginject.Prelude.{
  ◌≡◌, refl, inl, inr, Option, none, some, [], ◌∷◌, arith, if◌then◌else◌, Bool-cases,
}
use ginject.Text.{Bytes, str_eq, str_eq_iff}
use ginject.GoMap.{GoMap, lookup, insert, erase, is_empty, lookup-insert, lookup-erase}
use ginject.GoMap.Distinct.{Distinct, insert-Distinct, erase-Distinct}
use ginject.GoMap.Nested.{inner, put, drop, inner-put, inner-drop, IsTidy, put-IsTidy, drop-IsTidy}
use ginject.Pattern.{Kind, global, complex, new_pattern}
use ginject.Broker.{Subscription, ComplexGroup, group_or_new, without_sub}

module _ {H : Type 0} where
  abbrev pub IsMade : Subscription H → Type 0
  IsMade s = s.pattern ≡ new_pattern s.topic

  -- A subscription at the place `key`, `id` of an index for one kind of pattern.
  abbrev pub AtHome : Kind → (Subscription H → Bytes) → Bytes → Bytes → Subscription H → Type 0
  AtHome k key_of key id s =
      (s.id ≡ id) × (s.pattern ≡ new_pattern s.topic) × (s.pattern.kind ≡ k) × (key_of s ≡ key)

  pub record IsIndex (k : Kind) (key_of : Subscription H → Bytes)
      (m : GoMap (GoMap (Subscription H))) : Type 0 where
    pub tidy : IsTidy m
    pub home :
        (key id : Bytes) (s : Subscription H)
        → lookup id (inner key m) ≡ some s
        → AtHome k key_of key id s

  pub record IsBucket (m : GoMap (Subscription H)) : Type 0 where
    pub distinct : Distinct m
    pub home :
        (id : Bytes) (s : Subscription H) → lookup id m ≡ some s → AtHome global (λ _. []) [] id s

  -- The groups of complex patterns, each seen as its map of subscriptions.
  unfoldable pub subs_of : GoMap (ComplexGroup H) → GoMap (GoMap (Subscription H))
  subs_of [] = []
  subs_of ((topic, group) ∷ m) = (topic, group.subs_by_id) ∷ subs_of m

  pub put-IsIndex :
      (k : Kind) (key_of : Subscription H → Bytes) (m : GoMap (GoMap (Subscription H)))
      (sub : Subscription H)
      → IsMade sub
      → sub.pattern.kind ≡ k
      → IsIndex k key_of m
      → IsIndex k key_of (put (key_of sub) sub.id sub m)
  put-IsIndex k key_of m sub made is_k v = record {
    tidy = put-IsTidy (key_of sub) sub.id sub m v.tidy;
    home = λ key id s h. ground (
      arith,
      inner-put (key_of sub) sub.id sub m key,
      lookup-insert sub.id id sub (inner (key_of sub) m),
      str_eq_iff (key_of sub) key,
      str_eq_iff sub.id id,
      v.home key id s,
    );
  }

  pub drop-IsIndex :
      (k : Kind) (key_of : Subscription H → Bytes) (m : GoMap (GoMap (Subscription H)))
      (at id : Bytes)
      → IsIndex k key_of m
      → IsIndex k key_of (drop at id m)
  drop-IsIndex k key_of m at id v = record {
    tidy = drop-IsTidy at id m v.tidy;
    home = λ key id' s h. ground (
      arith,
      inner-drop at id m key,
      lookup-erase id id' (inner at m),
      str_eq_iff at key,
      v.home key id' s,
    );
  }

  pub lookup-subs_of :
      (t : Bytes) (m : GoMap (ComplexGroup H))
      → lookup t (subs_of m) ≡ elim (lookup t m) [ none ↦ none | some g ↦ some g.subs_by_id ]
  unfolding lookup subs_of
  lookup-subs_of t [] = refl
  lookup-subs_of t ((t', g) ∷ m) = ground (arith, lookup-subs_of t m)

  subs_of-insert :
      (t : Bytes) (g : ComplexGroup H) (m : GoMap (ComplexGroup H))
      → subs_of (insert t g m) ≡ insert t g.subs_by_id (subs_of m)
  unfolding insert subs_of
  subs_of-insert t g [] = refl
  subs_of-insert t g ((t', g') ∷ m) = ground (arith, subs_of-insert t g m)

  subs_of-erase :
      (t : Bytes) (m : GoMap (ComplexGroup H)) → subs_of (erase t m) ≡ erase t (subs_of m)
  unfolding erase subs_of
  subs_of-erase t [] = refl
  subs_of-erase t ((t', g') ∷ m) = ground (arith, subs_of-erase t m)

  -- Adding to the groups is adding to the maps of subscriptions.
  pub subs_of-add :
      (sub : Subscription H) (m : GoMap (ComplexGroup H))
      → (let group = group_or_new sub.pattern (lookup sub.topic m) in
          subs_of
            (insert sub.topic (record group { subs_by_id = insert sub.id sub group.subs_by_id }) m))
        ≡ put sub.topic sub.id sub (subs_of m)
  unfolding put
  subs_of-add sub m = ground (
    arith,
    lookup-subs_of sub.topic m,
    subs_of-insert sub.topic
        (let group = group_or_new sub.pattern (lookup sub.topic m) in
          record group { subs_by_id = insert sub.id sub group.subs_by_id })
        m,
  )

  -- And removing from a group is removing from its map.
  pub subs_of-remove :
      (sub : Subscription H) (g : ComplexGroup H) (m : GoMap (ComplexGroup H))
      → lookup sub.topic m ≡ some g
      → subs_of (
          if is_empty (erase sub.id g.subs_by_id)
          then erase sub.topic m
          else insert sub.topic (record g { subs_by_id = erase sub.id g.subs_by_id }) m)
        ≡ drop sub.topic sub.id (subs_of m)
  unfolding drop
  subs_of-remove sub g m h = ground (
    arith,
    lookup-subs_of sub.topic m,
    subs_of-erase sub.topic m,
    subs_of-insert sub.topic (record g { subs_by_id = erase sub.id g.subs_by_id }) m,
  )

  pub insert-IsBucket :
      (m : GoMap (Subscription H)) (sub : Subscription H)
      → IsMade sub
      → sub.pattern.kind ≡ global
      → IsBucket m
      → IsBucket (insert sub.id sub m)
  insert-IsBucket m sub made is_global v = record {
    distinct = insert-Distinct sub.id sub m v.distinct;
    home =
        λ id s h. ground (arith, lookup-insert sub.id id sub m, str_eq_iff sub.id id, v.home id s);
  }

  pub erase-IsBucket :
      (m : GoMap (Subscription H)) (id : Bytes) → IsBucket m → IsBucket (erase id m)
  erase-IsBucket m id v = record {
    distinct = erase-Distinct id m v.distinct;
    home = λ id' s h. ground (arith, lookup-erase id id' m, v.home id' s);
  }

  pub without_sub-IsIndex :
      (sub : Subscription H) (m : GoMap (ComplexGroup H)) (o : Option (ComplexGroup H))
      → lookup sub.topic m ≡ o
      → IsIndex complex (λ s. s.topic) (subs_of m)
      → IsIndex complex (λ s. s.topic) (subs_of (without_sub sub o m))
  without_sub-IsIndex sub m none e v = v
  without_sub-IsIndex sub m (some g) e v =
      rw (subs_of-remove sub g m e)
        (drop-IsIndex complex (λ s. s.topic) (subs_of m) sub.topic sub.id v)

  -- What a group keeps of its pattern when a subscription leaves.
  pub lookup-without_sub :
      (sub : Subscription H) (m : GoMap (ComplexGroup H)) (o : Option (ComplexGroup H))
      → lookup sub.topic m ≡ o
      → (topic : Bytes) (group : ComplexGroup H) → lookup topic (without_sub sub o m) ≡ some group
      → (old : ComplexGroup H) × (lookup topic m ≡ some old) × (group.pattern ≡ old.pattern)
  lookup-without_sub sub m none e topic group h = (group, h, refl)
  lookup-without_sub sub m (some g) e topic group h = elim (Bool-cases (str_eq sub.topic topic)) [
    | inl same ↦ (g, rw (← (str_eq_iff sub.topic topic).0 same) e, ground (arith, left, erased))
    | inr differs ↦ (group, ground (arith, left, erased), refl)
  ]
    where
      erased :
          lookup topic (erase sub.topic m)
          ≡ (if str_eq sub.topic topic then none else lookup topic m)
      erased = lookup-erase sub.topic topic m

      left :
          lookup topic (insert sub.topic (record g { subs_by_id = erase sub.id g.subs_by_id }) m)
          ≡ (if str_eq sub.topic topic
              then some (record g { subs_by_id = erase sub.id g.subs_by_id })
              else lookup topic m)
      left = lookup-insert sub.topic topic (record g { subs_by_id = erase sub.id g.subs_by_id }) m

  pub empty-IsIndex : (k : Kind) (key_of : Subscription H → Bytes) → IsIndex k key_of []
  unfolding lookup
  empty-IsIndex k key_of = record {
    tidy = record { outer = tt; inners = λ key. tt; filled = λ key n h. absurd (ground arith) };
    home = λ key id s h. absurd (ground arith);
  }
