-- ===== src/Broker/Unsubscribing.antt =====
-- `Unsubscribe` of memorybroker/memory_broker.go, and who receives after it.
use ginject.Prelude.{
  ◌≡◌, refl, ◌∙◌, ◌≢◌, ◌↔◌, none, some, arith, sym, ap, ◌⊎◌, inl, inr, false, true,
}
use ginject.Prelude.Members.{In}
use ginject.Text.{Bytes}
use ginject.Text.Split.{split}
use ginject.Pattern.{dot}
use ginject.Pattern.Segments.{Matches}
use ginject.Broker.{
  Subscription, SubscriptionArg, MemoryBroker, BrokerError, closed_broker, foreign_subscription,
  remove_from_bucket, recipients, nil, other, own, unsubscribe,
}
use ginject.Broker.Valid.{IsValid, remove_from_bucket-IsValid}
use ginject.Broker.Stored.{IsStored}
use ginject.Broker.Delivery.{In-recipients_iff}
use ginject.Broker.Subscribing.{HasUniqueIds, IsStored-remove_from_bucket}

module _ {H : Type 0} where
  unsubscribe_opened :
      (s : Subscription H) (b : MemoryBroker H)
      → s.broker ≡ b.identity
      → b.closed ≡ false
      → unsubscribe (own s) b ≡ (none, remove_from_bucket s.pattern.kind s b)
  unfolding unsubscribe
  unsubscribe_opened s b mine opened = ground arith

  -- In an open, well-formed broker whose ids are unique, `Unsubscribe` of a stored subscription takes
  -- that one receiver away, whatever the topic of a message, and nobody else.
  pub In-recipients-unsubscribe_iff :
      (s : Subscription H) (b : MemoryBroker H) (t : Subscription H) (sent : Bytes)
      → IsValid b
      → HasUniqueIds b
      → IsStored s b
      → s.broker ≡ b.identity
      → b.closed ≡ false
      → In t (recipients sent (unsubscribe (own s) b).1) ↔ (In t (recipients sent b) × (t ≢ s))
  In-recipients-unsubscribe_iff s b t sent v unique stored mine opened =
      rw (unsubscribe_opened s b mine opened) (
        λ r.
            let (placed, m) = after.0 r in
            let (old, differs) = kept.0 placed in (before.1 (old, m), differs),
        λ (r, differs). let (old, m) = before.0 r in after.1 (kept.1 (old, differs), m),
      )
    where
      b' : MemoryBroker H
      b' = remove_from_bucket s.pattern.kind s b

      kept : IsStored t b' ↔ (IsStored t b × (t ≢ s))
      kept = IsStored-remove_from_bucket s t b unique stored

      before :
          In t (recipients sent b) ↔ (IsStored t b × Matches (split dot t.topic) (split dot sent))
      before = In-recipients_iff sent b v t

      after :
          In t (recipients sent b') ↔ (IsStored t b' × Matches (split dot t.topic) (split dot sent))
      after = In-recipients_iff sent b' (remove_from_bucket-IsValid s.pattern.kind s b v) t

  -- `Unsubscribe` succeeds exactly on nil and, on an open broker, on a subscription of another type
  -- and on one of its own. A refusal changes nothing. It refuses with `ErrClosed` exactly a non-nil argument
  -- on a closed broker, and with `ErrForeignSubscription` exactly a subscription of this package that
  -- another broker made, on an open one.
  pub unsubscribe_refusals :
      (arg : SubscriptionArg H) (b : MemoryBroker H)
      → (((unsubscribe arg b).0 ≡ none) ↔ (
          (arg ≡ nil)
          ⊎ ((b.closed ≡ false)
              × ((arg ≡ other)
                  ⊎ ((s : Subscription H) × (arg ≡ own s) × (s.broker ≡ b.identity))))))
        × ((e : BrokerError) → (unsubscribe arg b).0 ≡ some e → (unsubscribe arg b).1 ≡ b)
        × (((unsubscribe arg b).0 ≡ some closed_broker) ↔ ((arg ≢ nil) × (b.closed ≡ true)))
        × (((unsubscribe arg b).0 ≡ some foreign_subscription)
            ↔ ((s : Subscription H) × (arg ≡ own s) × (s.broker ≢ b.identity) × (b.closed ≡ false)))
  unfolding unsubscribe
  unsubscribe_refusals nil b = (
    (λ h. inl refl, λ h. refl),
    λ e h. refl,
    (λ h. absurd (ground arith), λ (not_nil, _). absurd (not_nil refl)),
    (λ h. absurd (ground arith), λ (s, e, _, _). absurd (ground arith)),
  )
  unsubscribe_refusals other b = (
    (
      λ h. inr (ground arith, inl refl),
      λ h. elim h [ inl e ↦ absurd (ground arith) | inr (opened, k) ↦ ground arith ],
    ),
    λ e h. refl,
    (λ h. (λ e. ground arith, ground arith), λ (_, shut). ground arith),
    (λ h. absurd (ground arith), λ (s, e, _, _). absurd (ground arith)),
  )
  unsubscribe_refusals (own s) b = (
    (
      λ h. inr (ground arith, inr (s, refl, ground arith)),
      λ h. elim h [
        | inl e ↦ absurd (ground arith)
        | inr (opened, inl e) ↦ absurd (ground arith)
        | inr (opened, inr (s', e, mine)) ↦
            let same : s' ≡ s = ground arith in
            let mine' : s.broker ≡ b.identity =
              ap (λ (u : Subscription H). u.broker) (sym same) ∙ mine in
            ground arith
      ],
    ),
    λ e h. ground arith,
    (λ h. (λ e. ground arith, ground arith), λ (_, shut). ground arith),
    (
      λ h. (s, refl, λ e. ground arith, ground arith),
      λ (s', e, foreign, opened).
          let same : s' ≡ s = ground arith in
          let foreign' : s.broker ≢ b.identity =
            λ q. foreign (ap (λ (u : Subscription H). u.broker) same ∙ q) in
          ground arith,
    ),
  )
