-- ===== src/Broker/Places.antt =====
-- What `Subscribe` and `Unsubscribe` do to the place of each subscription.
use ginject.Prelude.{◌≡◌, refl, Bool, true, false, ◌&&◌, Option, none, some, arith, if◌then◌else◌}
use ginject.Text.{str_eq, str_eq_iff, str_eq_refl}
use ginject.GoMap.{GoMap, lookup, lookup-insert, lookup-erase}
use ginject.GoMap.Nested.{inner, inner-put, inner-drop}
use ginject.Pattern.{Kind, exact, global, suffix_wildcard, complex}
use ginject.Broker.{
  Subscription, ComplexGroup, MemoryBroker, add_to_bucket, remove_from_bucket, without_sub,
}
use ginject.Broker.Index.{subs_of, lookup-subs_of, subs_of-add, subs_of-remove}
use ginject.Broker.Stored.{placed}

module _ {H : Type 0} where
  -- Two subscriptions with one place: the same kind, key and id.
  unfoldable pub same_place : Kind → Subscription H → Kind → Subscription H → Bool
  same_place global s global t = str_eq s.id t.id
  same_place exact s exact t = str_eq s.topic t.topic && str_eq s.id t.id
  same_place suffix_wildcard s suffix_wildcard t =
      str_eq s.pattern.simple_prefix t.pattern.simple_prefix && str_eq s.id t.id
  same_place complex s complex t = str_eq s.topic t.topic && str_eq s.id t.id
  same_place _ s _ t = false

  pub same_place_refl : (k : Kind) (s : Subscription H) → same_place k s k s ≡ true
  unfolding same_place
  same_place_refl global s = str_eq_refl s.id
  same_place_refl exact s = ground (arith, str_eq_refl s.id, str_eq_refl s.topic)
  same_place_refl suffix_wildcard s =
      ground (arith, str_eq_refl s.id, str_eq_refl s.pattern.simple_prefix)
  same_place_refl complex s = ground (arith, str_eq_refl s.id, str_eq_refl s.topic)

  pub id-same_place :
      (k k' : Kind) (s t : Subscription H) → same_place k s k' t ≡ true → s.id ≡ t.id
  unfolding same_place
  id-same_place global global s t h = (str_eq_iff s.id t.id).0 h
  id-same_place k k' s t h = ground (arith, str_eq_iff s.id t.id)

  pub placed-add_to_bucket :
      (k k' : Kind) (s t : Subscription H) (b : MemoryBroker H)
      → placed k' t (add_to_bucket k s b) ≡ (if same_place k s k' t then some s else placed k' t b)
  unfolding add_to_bucket same_place
  placed-add_to_bucket global global s t b = lookup-insert s.id t.id s b.global_by_id
  placed-add_to_bucket exact exact s t b = ground (
    arith,
    inner-put s.topic s.id s b.exact_by_topic t.topic,
    lookup-insert s.id t.id s (inner s.topic b.exact_by_topic),
    str_eq_iff s.topic t.topic,
  )
  placed-add_to_bucket suffix_wildcard suffix_wildcard s t b = ground (
    arith,
    inner-put s.pattern.simple_prefix s.id s b.prefix_by_prefix t.pattern.simple_prefix,
    lookup-insert s.id t.id s (inner s.pattern.simple_prefix b.prefix_by_prefix),
    str_eq_iff s.pattern.simple_prefix t.pattern.simple_prefix,
  )
  placed-add_to_bucket complex complex s t b = rw (subs_of-add s b.complex_by_topic) (
      ground (
        arith,
        inner-put s.topic s.id s (subs_of b.complex_by_topic) t.topic,
        lookup-insert s.id t.id s (inner s.topic (subs_of b.complex_by_topic)),
        str_eq_iff s.topic t.topic,
      ))
  placed-add_to_bucket _ _ s t b = refl

  placed-without_sub :
      (s t : Subscription H) (m : GoMap (ComplexGroup H)) (o : Option (ComplexGroup H))
      → lookup s.topic m ≡ o
      → lookup t.id (inner t.topic (subs_of (without_sub s o m))) ≡ (
          if str_eq s.topic t.topic && str_eq s.id t.id
          then none
          else lookup t.id (inner t.topic (subs_of m)))
  unfolding lookup
  placed-without_sub s t m none e =
      ground (arith, lookup-subs_of s.topic m, str_eq_iff s.topic t.topic)
  placed-without_sub s t m (some g) e = rw (subs_of-remove s g m e) (
      ground (
        arith,
        inner-drop s.topic s.id (subs_of m) t.topic,
        lookup-erase s.id t.id (inner s.topic (subs_of m)),
        str_eq_iff s.topic t.topic,
      ))

  pub placed-remove_from_bucket :
      (k k' : Kind) (s t : Subscription H) (b : MemoryBroker H)
      → placed k' t (remove_from_bucket k s b)
        ≡ (if same_place k s k' t then none else placed k' t b)
  unfolding remove_from_bucket same_place
  placed-remove_from_bucket global global s t b = lookup-erase s.id t.id b.global_by_id
  placed-remove_from_bucket exact exact s t b = ground (
    arith,
    inner-drop s.topic s.id b.exact_by_topic t.topic,
    lookup-erase s.id t.id (inner s.topic b.exact_by_topic),
    str_eq_iff s.topic t.topic,
  )
  placed-remove_from_bucket suffix_wildcard suffix_wildcard s t b = ground (
    arith,
    inner-drop s.pattern.simple_prefix s.id b.prefix_by_prefix t.pattern.simple_prefix,
    lookup-erase s.id t.id (inner s.pattern.simple_prefix b.prefix_by_prefix),
    str_eq_iff s.pattern.simple_prefix t.pattern.simple_prefix,
  )
  placed-remove_from_bucket complex complex s t b =
      placed-without_sub s t b.complex_by_topic (lookup s.topic b.complex_by_topic) refl
  placed-remove_from_bucket _ _ s t b = refl
