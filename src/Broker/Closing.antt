-- ===== src/Broker/Closing.antt =====
-- `Close`, and what a closed broker does; `Publish` runs its snapshot.
use ginject.Prelude.{
  ℕ, ◌≡◌, refl, sym, ap, ◌∙◌, ◌⊎◌, inl, inr, append-nil, append_assoc, ◌≢◌, true, false, none, some,
  arith, List, [], ◌∷◌, ◌++◌, length, length-append, if◌then◌else◌,
}
use ginject.Prelude.Members.{All}
use ginject.Text.{Bytes, str_eq, str_eq_iff}
use ginject.GoMap.{GoMap, lookup, values}
use ginject.GoMap.Nested.{inner}
use ginject.Broker.{
  Message, Handler, Subscription, ComplexGroup, MemoryBroker, empty_topic, closed_broker, err,
  nil_handler, nil, other, subscribe_check, subscribe, unsubscribe, own, recipients, in_buckets,
  matched_complex, in_groups, bucket_total, group_total, prefixes_of, total, close, clear, publish,
  publish_internal, call_all, call_handler, returned, panicked,
}

module _ {H : Type 0} where
  length-values : (m : GoMap (Subscription H)) → length (values m) ≡ length m
  unfolding values
  length-values [] = refl
  length-values (e ∷ m) = omega (arith, length-values m)

  length-in_buckets :
      (keys : List Bytes) (m : GoMap (GoMap (Subscription H)))
      → length (in_buckets keys m) ≡ bucket_total keys m
  unfolding in_buckets bucket_total
  length-in_buckets [] m = refl
  length-in_buckets (key ∷ keys) m = omega (
    arith,
    length-append (values (inner key m)) (in_buckets keys m),
    length-values (inner key m),
    length-in_buckets keys m,
  )

  length-in_groups : (gs : List (ComplexGroup H)) → length (in_groups gs) ≡ group_total gs
  unfolding in_groups group_total
  length-in_groups [] = refl
  length-in_groups (g ∷ gs) = omega (
    arith,
    length-append (values g.subs_by_id) (in_groups gs),
    length-values g.subs_by_id,
    length-in_groups gs,
  )

  -- `total` is the number of the receivers: the slice is allocated at its final size.
  pub length-recipients :
      (topic : Bytes) (b : MemoryBroker H) → length (recipients topic b) ≡ total topic b
  unfolding recipients total
  length-recipients topic b =
      let groups = in_groups (matched_complex topic b.complex_by_topic) in
      let prefixed = in_buckets (prefixes_of topic) b.prefix_by_prefix in
      omega (
        arith,
        length-append (values (inner topic b.exact_by_topic))
            (prefixed ++ (values b.global_by_id ++ groups)),
        length-append prefixed (values b.global_by_id ++ groups),
        length-append (values b.global_by_id) groups,
        length-values (inner topic b.exact_by_topic),
        length-values b.global_by_id,
        length-in_buckets (prefixes_of topic) b.prefix_by_prefix,
        length-in_groups (matched_complex topic b.complex_by_topic),
      )

  in_buckets-nil : (keys : List Bytes) → in_buckets {H = H} keys [] ≡ []
  unfolding in_buckets lookup values
  in_buckets-nil [] = refl
  in_buckets-nil (key ∷ keys) = in_buckets-nil keys

  recipients-clear : (topic : Bytes) (b : MemoryBroker H) → recipients topic (clear b) ≡ []
  unfolding recipients clear matched_complex in_groups lookup values
  recipients-clear topic b = rw (in_buckets-nil (prefixes_of topic))

module _ {P W : Type 0} where
  call_all_empty :
      (subs : List (Subscription (Handler P W))) (msg : Message P) (w : W)
      → length subs ≡ 0
      → w ≡ call_all subs msg w
  unfolding call_all
  call_all_empty [] msg w h = refl
  call_all_empty (s ∷ subs) msg w h = absurd (omega arith)

  publish_internal_lem :
      (topic : Bytes) (payload : P) (now : ℕ) (b : MemoryBroker (Handler P W)) (w : W)
      → publish_internal topic payload now b w
        ≡ call_all
            (recipients topic b)
            (record { topic = topic; payload = payload; timestamp = now })
            w
  unfolding publish_internal
  publish_internal_lem topic payload now b w = ground (
    arith,
    length-recipients topic b,
    call_all_empty (recipients topic b)
        (record { topic = topic; payload = payload; timestamp = now }) w,
  )

  -- The early return at `total == 0` skips nothing.
  publish_open :
      (topic : Bytes) (payload : P) (now : ℕ) (b : MemoryBroker (Handler P W)) (w : W)
      → topic ≢ []
      → b.closed ≡ false
      → publish topic payload now b w ≡ (
        none,
        call_all
            (recipients topic b)
            (record { topic = topic; payload = payload; timestamp = now })
            w,
      )
  unfolding publish
  publish_open topic payload now b w named opened =
      ground (arith, str_eq_iff topic [], publish_internal_lem topic payload now b w)

  -- After `Close` of an open broker nothing is delivered and nothing is stored: a publish is refused
  -- and runs no handler, a subscription is refused, `Unsubscribe` takes nil without an error and
  -- refuses any other argument, none of them changes the broker, no topic has a receiver, and closing
  -- again changes nothing.
  pub close_final :
      (b : MemoryBroker (Handler P W))
      → b.closed ≡ false
      → ((topic : Bytes) (payload : P) (now : ℕ) (w : W)
          → publish topic payload now (close b) w
            ≡ (if str_eq topic [] then (some empty_topic, w) else (some closed_broker, w)))
        × ((id topic : Bytes)
            → subscribe id topic none (close b) ≡ (
                if str_eq topic [] then (err empty_topic, close b) else (err nil_handler, close b)))
        × ((id topic : Bytes) (h : Handler P W)
            → subscribe id topic (some h) (close b) ≡ (
                if str_eq topic []
                then (err empty_topic, close b)
                else (err closed_broker, close b)))
        × (unsubscribe nil (close b) ≡ (none, close b))
        × (unsubscribe other (close b) ≡ (some closed_broker, close b))
        × ((s : Subscription (Handler P W))
            → unsubscribe (own s) (close b) ≡ (some closed_broker, close b))
        × ((topic : Bytes) → recipients topic (close b) ≡ [])
        × (close (close b) ≡ close b)
  unfolding close
  close_final b opened = rw opened (
    λ topic payload now w. unfold publish in refl,
    λ id topic. unfold subscribe subscribe_check in ground arith,
    λ id topic h. unfold subscribe subscribe_check in ground arith,
    unfold unsubscribe in refl,
    unfold unsubscribe in refl,
    λ s. unfold unsubscribe in ground arith,
    λ topic. recipients-clear topic (record b { closed = true }),
    refl,
  )

module _ {P : Type 0} where
  -- A handler that notes who was called with which message, and then returns or panics.
  abbrev pub IsNoting : Subscription (Handler P (List (Bytes × Message P))) → Type 0
  IsNoting s =
      (msg : Message P) (log : List (Bytes × Message P))
      → (s.handler msg log ≡ returned (log ++ (s.id, msg) ∷ []))
        ⊎ (s.handler msg log ≡ panicked (log ++ (s.id, msg) ∷ []))

  abbrev pub notes :
      Message P
      → List (Subscription (Handler P (List (Bytes × Message P))))
      → List (Bytes × Message P)
  notes msg [] = []
  notes msg (s ∷ subs) = (s.id, msg) ∷ notes msg subs

  call_handler-noting :
      (s : Subscription (Handler P (List (Bytes × Message P)))) (msg : Message P)
      (log : List (Bytes × Message P))
      → IsNoting s
      → call_handler s.handler msg log ≡ log ++ (s.id, msg) ∷ []
  unfolding call_handler
  call_handler-noting s msg log h = elim (h msg log) [ inl e ↦ ground arith | inr e ↦ ground arith ]

  call_all-noting :
      (subs : List (Subscription (Handler P (List (Bytes × Message P))))) (msg : Message P)
      (log : List (Bytes × Message P))
      → All IsNoting subs
      → call_all subs msg log ≡ log ++ notes msg subs
  unfolding call_all
  call_all-noting [] msg log h = sym (append-nil log)
  call_all-noting (s ∷ subs) msg log (h, hs) =
      ap (call_all subs msg) (call_handler-noting s msg log h)
      ∙ call_all-noting subs msg (log ++ (s.id, msg) ∷ []) hs
      ∙ append_assoc log ((s.id, msg) ∷ []) (notes msg subs)

  -- `Publish` with a topic on an open broker, whose handlers note who was called with which message
  -- and then return or panic, leaves one note for each receiver of the snapshot, in its order, with
  -- the topic, the payload and the time of the publish: a panic keeps no later handler from running.
  pub publish_runs_recipients :
      (topic : Bytes) (payload : P) (now : ℕ)
      (b : MemoryBroker (Handler P (List (Bytes × Message P)))) (log : List (Bytes × Message P))
      → topic ≢ []
      → b.closed ≡ false
      → All IsNoting (recipients topic b)
      → publish topic payload now b log ≡ (
        none,
        log
            ++ notes
                (record { topic = topic; payload = payload; timestamp = now })
                (recipients topic b),
      )
  publish_runs_recipients topic payload now b log named opened noting =
      publish_open topic payload now b log named opened
      ∙ ap (λ l. (none, l))
          (call_all-noting (recipients topic b)
            (record { topic = topic; payload = payload; timestamp = now }) log noting)
