-- ===== src/Broker/Subscribing.antt =====
-- `Subscribe` of memorybroker/memory_broker.go, and who receives after it.
use ginject.Prelude.{
  ◌≡◌, refl, sym, ◌∙◌, ◌≢◌, ◌↔◌, ◌⊎◌, inl, inr, false, none, some, arith, ap, subst, [],
  if◌then◌else◌, Bool-cases,
}
use ginject.Prelude.Members.{In}
use ginject.Text.{Bytes, str_eq_iff}
use ginject.Text.Split.{split}
use ginject.Pattern.{dot, new_pattern}
use ginject.Pattern.Segments.{Matches}
use ginject.Broker.{
  Subscription, MemoryBroker, ok, subscribe_check, new_subscription, subscribe, add_to_bucket,
  remove_from_bucket, recipients,
}
use ginject.Broker.Valid.{IsValid, add_to_bucket-IsValid}
use ginject.Broker.Stored.{IsStored, placed}
use ginject.Broker.Delivery.{In-recipients_iff}
use ginject.Broker.Places.{
  same_place, same_place_refl, id-same_place, placed-add_to_bucket, placed-remove_from_bucket,
}

module _ {H : Type 0} where
  -- No stored subscription has the id: `newID` draws a random UUID.
  abbrev pub IsFresh : Bytes → MemoryBroker H → Type 0
  IsFresh id b = (t : Subscription H) → IsStored t b → t.id ≢ id

  -- Stored subscriptions with one id are one.
  abbrev pub HasUniqueIds : MemoryBroker H → Type 0
  HasUniqueIds b = (s t : Subscription H) → IsStored s b → IsStored t b → s.id ≡ t.id → s ≡ t

  pub IsStored-add_to_bucket :
      (s t : Subscription H) (b : MemoryBroker H)
      → IsFresh s.id b
      → IsStored t (add_to_bucket s.pattern.kind s b) ↔ ((t ≡ s) ⊎ IsStored t b)
  IsStored-add_to_bucket s t b fresh = (to, from)
    where
      placed_after : placed t.pattern.kind t (add_to_bucket s.pattern.kind s b) ≡ (
          if same_place s.pattern.kind s t.pattern.kind t
          then some s
          else placed t.pattern.kind t b)
      placed_after = placed-add_to_bucket s.pattern.kind t.pattern.kind s t b

      to : IsStored t (add_to_bucket s.pattern.kind s b) → (t ≡ s) ⊎ IsStored t b
      to h = elim (Bool-cases (same_place s.pattern.kind s t.pattern.kind t)) [
        | inl e ↦ inl (ground (arith, placed_after))
        | inr e ↦ inr (ground (arith, placed_after))
      ]

      from : ((t ≡ s) ⊎ IsStored t b) → IsStored t (add_to_bucket s.pattern.kind s b)
      from (inl e) =
          subst (λ u. IsStored u (add_to_bucket s.pattern.kind s b)) (sym e)
            (placed-add_to_bucket s.pattern.kind s.pattern.kind s s b
              ∙ (rw (same_place_refl s.pattern.kind s)))
      from (inr h) = elim (Bool-cases (same_place s.pattern.kind s t.pattern.kind t)) [
        | inl e ↦ absurd (fresh t h (sym (id-same_place s.pattern.kind t.pattern.kind s t e)))
        | inr e ↦ ground (arith, placed_after)
      ]

  pub IsStored-remove_from_bucket :
      (s t : Subscription H) (b : MemoryBroker H)
      → HasUniqueIds b
      → IsStored s b
      → IsStored t (remove_from_bucket s.pattern.kind s b) ↔ (IsStored t b × (t ≢ s))
  IsStored-remove_from_bucket s t b unique stored = (to, from)
    where
      placed_after : placed t.pattern.kind t (remove_from_bucket s.pattern.kind s b) ≡ (
          if same_place s.pattern.kind s t.pattern.kind t then none else placed t.pattern.kind t b)
      placed_after = placed-remove_from_bucket s.pattern.kind t.pattern.kind s t b

      gone : ¬ IsStored s (remove_from_bucket s.pattern.kind s b)
      gone h =
          let e =
            placed-remove_from_bucket s.pattern.kind s.pattern.kind s s b
            ∙ ap (λ c. if c then none else placed s.pattern.kind s b)
                (same_place_refl s.pattern.kind s) in
          ground (arith, e, h)

      to : IsStored t (remove_from_bucket s.pattern.kind s b) → IsStored t b × (t ≢ s)
      to h = (
        ground (arith, placed_after),
        λ e. gone (subst (λ u. IsStored u (remove_from_bucket s.pattern.kind s b)) e h),
      )

      from : (IsStored t b × (t ≢ s)) → IsStored t (remove_from_bucket s.pattern.kind s b)
      from (h, differs) = elim (Bool-cases (same_place s.pattern.kind s t.pattern.kind t)) [
        | inl e ↦ absurd (
            differs (unique t s h stored (sym (id-same_place s.pattern.kind t.pattern.kind s t e))))
        | inr e ↦ ground (arith, placed_after)
      ]

  subscribe_opened :
      (id topic : Bytes) (h : H) (b : MemoryBroker H)
      → topic ≢ []
      → b.closed ≡ false
      → subscribe id topic (some h) b ≡ (
        ok (new_subscription id topic h b.identity),
        add_to_bucket (new_pattern topic).kind (new_subscription id topic h b.identity) b,
      )
  unfolding subscribe subscribe_check
  subscribe_opened id topic h b named opened = ground (arith, str_eq_iff topic [])

  -- From an open, well-formed broker and with a fresh id, `Subscribe` under a non-empty topic adds
  -- one receiver and no other: a message is delivered to the new subscription exactly where its
  -- pattern means the message's topic, and to everybody else as before.
  pub In-recipients-subscribe_iff :
      (id topic : Bytes) (h : H) (b : MemoryBroker H) (t : Subscription H) (sent : Bytes)
      → IsValid b
      → IsFresh id b
      → topic ≢ []
      → b.closed ≡ false
      → In t (recipients sent (subscribe id topic (some h) b).1) ↔ (
          ((t ≡ new_subscription id topic h b.identity)
            × Matches (split dot topic) (split dot sent))
          ⊎ In t (recipients sent b))
  unfolding new_subscription
  In-recipients-subscribe_iff id topic h b t sent v fresh named opened =
      rw (subscribe_opened id topic h b named opened) (to, from)
    where
      s : Subscription H
      s = new_subscription id topic h b.identity

      b' : MemoryBroker H
      b' = add_to_bucket (new_pattern topic).kind s b

      stored : IsStored t b' ↔ ((t ≡ s) ⊎ IsStored t b)
      stored = IsStored-add_to_bucket s t b fresh

      before :
          In t (recipients sent b) ↔ (IsStored t b × Matches (split dot t.topic) (split dot sent))
      before = In-recipients_iff sent b v t

      after :
          In t (recipients sent b') ↔ (IsStored t b' × Matches (split dot t.topic) (split dot sent))
      after =
          In-recipients_iff sent b' (add_to_bucket-IsValid (new_pattern topic).kind s b refl refl v)
            t

      to :
          In t (recipients sent b')
          → ((t ≡ s) × Matches (split dot topic) (split dot sent)) ⊎ In t (recipients sent b)
      to r =
          let (placed, m) = after.0 r in
          elim (stored.0 placed) [
            | inl e ↦ inl (
              e,
              subst (λ (u : Subscription H). Matches (split dot u.topic) (split dot sent)) e m,
            )
            | inr old ↦ inr (before.1 (old, m))
          ]

      from :
          (((t ≡ s) × Matches (split dot topic) (split dot sent)) ⊎ In t (recipients sent b))
          → In t (recipients sent b')
      from (inl (e, m)) = after.1 (
        stored.1 (inl e),
        subst (λ (u : Subscription H). Matches (split dot u.topic) (split dot sent)) (sym e) m,
      )
      from (inr r) = let (old, m) = before.0 r in after.1 (stored.1 (inr old), m)
