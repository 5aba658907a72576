-- ===== src/Broker/Reachable.antt =====
-- The brokers that a program can reach from `NewMemoryBroker`: whatever it calls, in whatever order.
use ginject.Prelude.{
  ℕ, ◌≡◌, refl, sym, ◌∙◌, ◌≢◌, ◌↔◌, ◌⊎◌, inl, inr, true, false, Option, none, some, [], arith, ap,
  Bool-cases, ◌==◌,
}
use ginject.Prelude.Members.{In}
use ginject.Text.{Bytes, str_eq}
use ginject.Text.Split.{split}
use ginject.GoMap.{lookup}
use ginject.Pattern.{Kind, dot, new_pattern, exact, global, suffix_wildcard, complex}
use ginject.Pattern.Segments.{Matches}
use ginject.Broker.{
  Subscription, SubscriptionArg, nil, other, own, MemoryBroker, new_memory_broker, add_to_bucket,
  remove_from_bucket, subscribe, subscribe_check, new_subscription, unsubscribe, close, clear,
  recipients,
}
use ginject.Broker.Index.{subs_of}
use ginject.Broker.Valid.{IsValid, empty-IsValid, add_to_bucket-IsValid, remove_from_bucket-IsValid}
use ginject.Broker.Stored.{IsStored, placed}
use ginject.Broker.Places.{placed-remove_from_bucket}
use ginject.Broker.Delivery.{In-recipients_iff}
use ginject.Broker.Subscribing.{IsFresh, HasUniqueIds, IsStored-add_to_bucket}

module _ {H : Type 0} where
  -- One call. The id that `Subscribe` draws is one that no stored subscription has.
  pub data Step : MemoryBroker H → MemoryBroker H → Type 0 where
    subscribes :
        (b : MemoryBroker H) (id topic : Bytes) (handler : Option H)
        → IsFresh id b
        → Step b (subscribe id topic handler b).1
    unsubscribes : (b : MemoryBroker H) (arg : SubscriptionArg H) → Step b (unsubscribe arg b).1
    closes : (b : MemoryBroker H) → Step b (close b)

  pub data Reach (identity : ℕ) : MemoryBroker H → Type 0 where
    start : Reach identity (new_memory_broker identity)
    next : {b b' : MemoryBroker H} → Reach identity b → Step b b' → Reach identity b'

  pub record IsSound (b : MemoryBroker H) : Type 0 where
    pub valid : IsValid b
    pub unique : HasUniqueIds b

  add-IsSound :
      (id topic : Bytes) (h : H) (b : MemoryBroker H)
      → IsFresh id b
      → IsSound b
      → IsSound (add_to_bucket (new_pattern topic).kind (new_subscription id topic h b.identity) b)
  unfolding new_subscription
  add-IsSound id topic h b fresh i = record {
    valid = add_to_bucket-IsValid (new_pattern topic).kind s b refl refl i.valid;
    unique = λ t u ht hu e. elim ((IsStored-add_to_bucket s t b fresh).0 ht) [
      | inl t_new ↦ elim ((IsStored-add_to_bucket s u b fresh).0 hu) [
        | inl u_new ↦ t_new ∙ sym u_new
        | inr u_old ↦ absurd (fresh u u_old (sym e ∙ ap (λ (v : Subscription H). v.id) t_new))
      ]
      | inr t_old ↦ elim ((IsStored-add_to_bucket s u b fresh).0 hu) [
        | inl u_new ↦ absurd (fresh t t_old (e ∙ ap (λ (v : Subscription H). v.id) u_new))
        | inr u_old ↦ i.unique t u t_old u_old e
      ]
    ];
  }
    where
      s : Subscription H
      s = new_subscription id topic h b.identity

  still-IsStored :
      (s t : Subscription H) (b : MemoryBroker H)
      → IsStored t (remove_from_bucket s.pattern.kind s b)
      → IsStored t b
  still-IsStored s t b h =
      ground (arith, placed-remove_from_bucket s.pattern.kind t.pattern.kind s t b)

  remove-IsSound :
      (s : Subscription H) (b : MemoryBroker H)
      → IsSound b
      → IsSound (remove_from_bucket s.pattern.kind s b)
  remove-IsSound s b i = record {
    valid = remove_from_bucket-IsValid s.pattern.kind s b i.valid;
    unique = λ t u ht hu e. i.unique t u (still-IsStored s t b ht) (still-IsStored s u b hu) e;
  }

  -- `Subscribe` leaves the broker alone or adds one subscription.
  subscribe_effect :
      (id topic : Bytes) (handler : Option H) (b : MemoryBroker H)
      → ((subscribe id topic handler b).1 ≡ b)
        ⊎ ((h : H) × ((subscribe id topic handler b).1
              ≡ add_to_bucket (new_pattern topic).kind (new_subscription id topic h b.identity) b))
  unfolding subscribe subscribe_check
  subscribe_effect id topic none b = inl (ground arith)
  subscribe_effect id topic (some h) b = elim (Bool-cases (str_eq topic [])) [
    | inl e ↦ inl (ground arith)
    | inr e ↦ elim (Bool-cases b.closed) [
      | inl e' ↦ inl (ground arith)
      | inr e' ↦ inr (h, ground arith)
    ]
  ]

  unsubscribe_effect :
      (arg : SubscriptionArg H) (b : MemoryBroker H)
      → ((unsubscribe arg b).1 ≡ b)
        ⊎ ((s : Subscription H) × ((unsubscribe arg b).1 ≡ remove_from_bucket s.pattern.kind s b))
  unfolding unsubscribe
  unsubscribe_effect nil b = inl refl
  unsubscribe_effect other b = inl refl
  unsubscribe_effect (own s) b = elim (Bool-cases b.closed) [
    | inl e ↦ inl (ground arith)
    | inr e ↦ elim (Bool-cases (s.broker == b.identity)) [
      | inl e' ↦ inr (s, ground arith)
      | inr e' ↦ inl (ground arith)
    ]
  ]

  close_effect :
      (b : MemoryBroker H) → (close b ≡ b) ⊎ (close b ≡ clear (record b { closed = true }))
  unfolding close
  close_effect b = elim (Bool-cases b.closed) [
    | inl e ↦ inl (ground arith)
    | inr e ↦ inr (ground arith)
  ]

  none_stored : (b : MemoryBroker H) (k : Kind) (s : Subscription H) → placed k s (clear b) ≡ none
  unfolding clear lookup subs_of
  none_stored b global s = refl
  none_stored b exact s = refl
  none_stored b suffix_wildcard s = refl
  none_stored b complex s = refl

  clear-IsSound : (b : MemoryBroker H) → IsSound (clear b)
  unfolding new_memory_broker
  clear-IsSound b = record {
    valid = unfold clear in empty-IsValid b.identity b.closed;
    unique = λ s t hs ht e. absurd (ground (arith, none_stored b s.pattern.kind s));
  }

  Step-IsSound : {b b' : MemoryBroker H} → Step b b' → IsSound b → IsSound b'
  Step-IsSound (subscribes b id topic handler fresh) i =
      elim (subscribe_effect id topic handler b) [
        | inl e ↦ rw e i
        | inr (h, e) ↦ rw e (add-IsSound id topic h b fresh i)
      ]
  Step-IsSound (unsubscribes b arg) i = elim (unsubscribe_effect arg b) [
    | inl e ↦ rw e i
    | inr (s, e) ↦ rw e (remove-IsSound s b i)
  ]
  Step-IsSound (closes b) i = elim (close_effect b) [
    | inl e ↦ rw e i
    | inr e ↦ rw e (clear-IsSound (record b { closed = true }))
  ]

  nowhere :
      (identity : ℕ) (k : Kind) (s : Subscription H)
      → placed k s (new_memory_broker identity) ≢ some s
  unfolding new_memory_broker lookup subs_of
  nowhere identity global s = λ h. cc
  nowhere identity exact s = λ h. cc
  nowhere identity suffix_wildcard s = λ h. cc
  nowhere identity complex s = λ h. cc

  -- Any id is fresh for a new broker.
  pub new-IsFresh : (identity : ℕ) (id : Bytes) → IsFresh id (new_memory_broker {H = H} identity)
  new-IsFresh identity id = λ t h. absurd (nowhere identity t.pattern.kind t h)

  start-IsSound : (identity : ℕ) → IsSound (new_memory_broker {H = H} identity)
  unfolding new_memory_broker
  start-IsSound identity = record {
    valid = empty-IsValid identity false;
    unique = λ s t hs ht e. absurd (nowhere identity s.pattern.kind s hs);
  }

  -- Whatever calls of `Subscribe`, `Unsubscribe` and `Close` a program makes, its broker stays well
  -- formed: every stored subscription is under its own place and no two have one id.
  pub Reach-IsSound : (identity : ℕ) (b : MemoryBroker H) → Reach identity b → IsSound b
  Reach-IsSound identity b start = start-IsSound identity
  Reach-IsSound identity b (next {b = before} r step) =
      Step-IsSound step (Reach-IsSound identity before r)

  -- So in every reachable broker, a message to `topic` goes to a subscription exactly if it is stored
  -- and its pattern means `topic`.
  pub In-recipients_reachable :
      (identity : ℕ) (b : MemoryBroker H) (topic : Bytes) (s : Subscription H)
      → Reach identity b
      → In s (recipients topic b) ↔ (IsStored s b × Matches (split dot s.topic) (split dot topic))
  In-recipients_reachable identity b topic s r =
      In-recipients_iff topic b (Reach-IsSound identity b r).valid s
