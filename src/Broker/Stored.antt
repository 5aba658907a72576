-- ===== src/Broker/Stored.antt =====
-- The subscriptions that a broker holds, and the buckets and groups that a snapshot reads.
use ginject.Prelude.{◌≡◌, refl, sym, ◌∙◌, inl, inr, true, Option, some, List, [], ◌∷◌, arith, ap}
use ginject.Prelude.Members.{
  In, In-append_left, In-append_right, In-append_cases, In-if_cases, In-if_here, In-if_there,
}
use ginject.Text.{Bytes}
use ginject.GoMap.{GoMap, lookup, values}
use ginject.GoMap.Distinct.{Distinct}
use ginject.GoMap.Nested.{inner}
use ginject.Pattern
use ginject.Pattern.{Pattern, Kind, exact, global, suffix_wildcard, complex, dot, new_pattern}
use ginject.Broker.{
  Subscription, ComplexGroup, MemoryBroker, in_buckets, matched_complex, in_groups,
}
use ginject.Broker.Index.{subs_of, lookup-subs_of}

module _ {H : Type 0} where
  -- What stands at the place of a subscription, in the index of a kind of pattern.
  abbrev pub placed : Kind → Subscription H → MemoryBroker H → Option (Subscription H)
  placed global s b = lookup s.id b.global_by_id
  placed exact s b = lookup s.id (inner s.topic b.exact_by_topic)
  placed suffix_wildcard s b = lookup s.id (inner s.pattern.simple_prefix b.prefix_by_prefix)
  placed complex s b = lookup s.id (inner s.topic (subs_of b.complex_by_topic))

  -- The broker holds the subscription.
  abbrev pub IsStored : Subscription H → MemoryBroker H → Type 0
  IsStored s b = placed s.pattern.kind s b ≡ some s

  pub of_in_buckets :
      (keys : List Bytes) (m : GoMap (GoMap (Subscription H))) (s : Subscription H)
      → In s (in_buckets keys m)
      → (key : Bytes) × In key keys × In s (values (inner key m))
  unfolding in_buckets
  of_in_buckets [] m s h = elim h [ ]
  of_in_buckets (key ∷ keys) m s h =
      elim (In-append_cases s (values (inner key m)) (in_buckets keys m) h) [
        | inl h' ↦ (key, inl refl, h')
        | inr h' ↦ let (key', at, there) = of_in_buckets keys m s h' in (key', inr at, there)
      ]

  pub in_buckets-In :
      (keys : List Bytes) (m : GoMap (GoMap (Subscription H))) (key : Bytes) (s : Subscription H)
      → In key keys
      → In s (values (inner key m))
      → In s (in_buckets keys m)
  unfolding in_buckets
  in_buckets-In [] m key s at h = elim at [ ]
  in_buckets-In (key' ∷ keys) m key s (inl e) h =
      In-append_left s (values (inner key' m)) (in_buckets keys m) (rw (← e) h)
  in_buckets-In (key' ∷ keys) m key s (inr at) h =
      In-append_right s (values (inner key' m)) (in_buckets keys m)
        (in_buckets-In keys m key s at h)

  pub of_in_groups :
      (gs : List (ComplexGroup H)) (s : Subscription H)
      → In s (in_groups gs)
      → (g : ComplexGroup H) × In g gs × In s (values g.subs_by_id)
  unfolding in_groups
  of_in_groups [] s h = elim h [ ]
  of_in_groups (g ∷ gs) s h = elim (In-append_cases s (values g.subs_by_id) (in_groups gs) h) [
    | inl h' ↦ (g, inl refl, h')
    | inr h' ↦ let (g', at, there) = of_in_groups gs s h' in (g', inr at, there)
  ]

  pub in_groups-In :
      (gs : List (ComplexGroup H)) (g : ComplexGroup H) (s : Subscription H)
      → In g gs
      → In s (values g.subs_by_id)
      → In s (in_groups gs)
  unfolding in_groups
  in_groups-In [] g s at h = elim at [ ]
  in_groups-In (g' ∷ gs) g s (inl e) h =
      In-append_left s (values g'.subs_by_id) (in_groups gs) (rw (← e) h)
  in_groups-In (g' ∷ gs) g s (inr at) h =
      In-append_right s (values g'.subs_by_id) (in_groups gs) (in_groups-In gs g s at h)

  pub In-matched→ :
      (topic : Bytes) (m : GoMap (ComplexGroup H)) (g : ComplexGroup H)
      → In g (matched_complex topic m)
      → (Pattern.match g.pattern topic ≡ true) × In g (values m)
  unfolding matched_complex values
  In-matched→ topic [] g h = elim h [ ]
  In-matched→ topic ((t, g') ∷ m) g h =
      elim (In-if_cases (Pattern.match g'.pattern topic) g g' (matched_complex topic m) h) [
        | inl (yes_match, e) ↦ (rw e yes_match, inl e)
        | inr h' ↦ let (matches, at) = In-matched→ topic m g h' in (matches, inr at)
      ]

  pub matched-In :
      (topic : Bytes) (m : GoMap (ComplexGroup H)) (g : ComplexGroup H)
      → Pattern.match g.pattern topic ≡ true
      → In g (values m)
      → In g (matched_complex topic m)
  unfolding matched_complex values
  matched-In topic [] g h at = elim at [ ]
  matched-In topic ((t, g') ∷ m) g h (inl e) =
      rw (← e) (In-if_here (Pattern.match g.pattern topic) g (matched_complex topic m) h)
  matched-In topic ((t, g') ∷ m) g h (inr at) =
      In-if_there (Pattern.match g'.pattern topic) g g' (matched_complex topic m)
        (matched-In topic m g h at)

  pub subs_of-Distinct : (m : GoMap (ComplexGroup H)) → Distinct (subs_of m) → Distinct m
  unfolding subs_of
  subs_of-Distinct [] d = tt
  subs_of-Distinct ((t, g) ∷ m) (fresh, d) =
      (ground (arith, lookup-subs_of t m), subs_of-Distinct m d)

  pub of_placed :
      (k : Kind) (s : Subscription H) (b : MemoryBroker H)
      → s.pattern.kind ≡ k
      → placed k s b ≡ some s
      → IsStored s b
  of_placed k s b is_k e = ap (λ k'. placed k' s b) is_k ∙ e

  pub of_stored :
      (k : Kind) (s : Subscription H) (b : MemoryBroker H)
      → s.pattern.kind ≡ k
      → IsStored s b
      → placed k s b ≡ some s
  of_stored k s b is_k e = sym (ap (λ k'. placed k' s b) is_k) ∙ e
