-- ===== src/Broker/Tests.antt =====
-- The broker run on small inputs, and its theorems at them.
use ginject.Prelude.{
  ℕ, ◌+◌, ◌≡◌, refl, ◌≢◌, ◌↔◌, ◌⊎◌, true, false, none, some, List, inl, inr, [], ◌∷◌, ◌++◌, length,
  if◌then◌else◌,
}
use ginject.Prelude.Members.{In, All}
use ginject.Text.{Bytes, codes, str_eq}
use ginject.Text.Split.{split}
use ginject.Pattern
use ginject.Pattern.{dot, suffix_wildcard}
use ginject.Pattern.Segments.{Matches}
use ginject.Broker.{
  other, nil_handler, Outcome, Message, returned, panicked, Handler, Subscription, MemoryBroker,
  new_memory_broker, new_subscription, subscribe, subscribe_check, unsubscribe, own, close, publish,
  recipients, BrokerError, empty_topic, closed_broker, err, foreign_subscription, bucket_total,
  prefixes_of, group_total, matched_complex, in_buckets, in_groups, total, nil,
}
use ginject.Broker.Divergence.{bare_suffix_delivered}
use ginject.GoMap.{lookup, insert, erase, values, is_empty}
use ginject.GoMap.Nested.{put, drop}
use ginject.Broker.Valid.{IsValid}
use ginject.Broker.Stored.{IsStored}
use ginject.Broker.Reachable.{
  Reach, start, next, subscribes, new-IsFresh, IsSound, Reach-IsSound, In-recipients_reachable,
}
use ginject.Broker.Delivery.{In-recipients_iff}
use ginject.Broker.Closing.{
  length-recipients, IsNoting, notes, publish_runs_recipients, close_final,
}
use ginject.Broker.Subscribing.{In-recipients-subscribe_iff}
use ginject.Broker.Unsubscribing.{In-recipients-unsubscribe_iff, unsubscribe_refusals}

-- What a run of the broker computes through.
runs : Unit {0}
unfolding publish subscribe subscribe_check unsubscribe new_memory_broker new_subscription close
    lookup insert erase values is_empty put drop bucket_total prefixes_of group_total
    matched_complex in_buckets in_groups Pattern.match Pattern.is_nil str_eq
runs = tt

-- A handler that counts, and one that counts and panics.
abbrev counts : Handler ℕ ℕ
counts msg w = returned (w + msg.payload)

abbrev panics : Handler ℕ ℕ
panics msg w = panicked (w + 100)

abbrev fresh_broker : MemoryBroker (Handler ℕ ℕ)
fresh_broker = new_memory_broker 7

abbrev one_sub : MemoryBroker (Handler ℕ ℕ)
one_sub = (subscribe (codes "id1") (codes "user.*") (some counts) fresh_broker).1

abbrev two_subs : MemoryBroker (Handler ℕ ℕ)
two_subs = (subscribe (codes "id2") (codes "*.created") (some panics) one_sub).1

abbrev sub_one : Subscription (Handler ℕ ℕ)
sub_one = new_subscription (codes "id1") (codes "user.*") counts 7

-- A panicking handler is recovered, and both handlers run.
publish_two : publish (codes "user.created") 5 0 two_subs 0 ≡ (none, 105)
unfolding runs
publish_two = refl

publish_deep : publish (codes "user.profile.updated") 5 0 two_subs 0 ≡ (none, 5)
unfolding runs
publish_deep = refl

publish_other : publish (codes "order") 5 0 two_subs 0 ≡ (none, 0)
unfolding runs
publish_other = refl

one_sub-Reach : Reach 7 one_sub
one_sub-Reach = next start (
    subscribes fresh_broker (codes "id1") (codes "user.*") (some counts)
      (new-IsFresh 7 (codes "id1")))

one_sub-IsStored : IsStored sub_one one_sub
unfolding runs
one_sub-IsStored = refl

In-recipients_reachable_example :
    In sub_one (recipients (codes "user.x") one_sub)
    ↔ (IsStored sub_one one_sub × Matches (split dot sub_one.topic) (split dot (codes "user.x")))
In-recipients_reachable_example =
    In-recipients_reachable 7 one_sub (codes "user.x") sub_one one_sub-Reach

named_user : codes "user.*" ≢ []
named_user = λ e. cc

fresh_open : fresh_broker.closed ≡ false
unfolding runs
fresh_open = refl

one_sub-open : one_sub.closed ≡ false
unfolding runs
one_sub-open = refl

fresh-IsValid : IsValid fresh_broker
fresh-IsValid = (Reach-IsSound 7 fresh_broker start).valid

In-recipients-subscribe_example : In sub_one (recipients (codes "user.x") one_sub) ↔ (
    ((sub_one ≡ new_subscription (codes "id1") (codes "user.*") counts fresh_broker.identity)
      × Matches (split dot (codes "user.*")) (split dot (codes "user.x")))
    ⊎ In sub_one (recipients (codes "user.x") fresh_broker))
In-recipients-subscribe_example =
    In-recipients-subscribe_iff (codes "id1") (codes "user.*") counts fresh_broker sub_one
      (codes "user.x") fresh-IsValid (new-IsFresh 7 (codes "id1")) named_user fresh_open

one_sub-mine : sub_one.broker ≡ one_sub.identity
unfolding runs
one_sub-mine = refl

In-recipients-unsubscribe_example :
    In sub_one (recipients (codes "user.x") (unsubscribe (own sub_one) one_sub).1)
    ↔ (In sub_one (recipients (codes "user.x") one_sub) × (sub_one ≢ sub_one))
In-recipients-unsubscribe_example =
    In-recipients-unsubscribe_iff sub_one one_sub sub_one (codes "user.x")
      (Reach-IsSound 7 one_sub one_sub-Reach).valid (Reach-IsSound 7 one_sub one_sub-Reach).unique
      one_sub-IsStored one_sub-mine one_sub-open

abbrev foreign : Subscription (Handler ℕ ℕ)
foreign = record sub_one { broker = 8 }

unsubscribe_refusals_example :
    (((unsubscribe (own foreign) one_sub).0 ≡ none) ↔ (
      (own foreign ≡ nil)
      ⊎ ((one_sub.closed ≡ false)
          × ((own foreign ≡ other)
              ⊎ ((s : Subscription (Handler ℕ ℕ)) × (own foreign ≡ own s)
                  × (s.broker ≡ one_sub.identity))))))
    × ((e : BrokerError)
        → (unsubscribe (own foreign) one_sub).0 ≡ some e
        → (unsubscribe (own foreign) one_sub).1 ≡ one_sub)
    × (((unsubscribe (own foreign) one_sub).0 ≡ some closed_broker)
        ↔ ((own foreign ≢ nil) × (one_sub.closed ≡ true)))
    × (((unsubscribe (own foreign) one_sub).0 ≡ some foreign_subscription) ↔ (
        (s : Subscription (Handler ℕ ℕ)) × (own foreign ≡ own s)
        × (s.broker ≢ one_sub.identity)
        × (one_sub.closed ≡ false)))
unsubscribe_refusals_example = unsubscribe_refusals (own foreign) one_sub

length-recipients_example :
    length (recipients (codes "user.created") two_subs) ≡ total (codes "user.created") two_subs
length-recipients_example = length-recipients (codes "user.created") two_subs

two_subs-open : two_subs.closed ≡ false
unfolding runs
two_subs-open = refl

created-named : codes "user.created" ≢ []
created-named = λ e. cc

-- A handler that notes and panics behind one that notes and returns.
abbrev Log : Type 0
Log = List (Bytes × Message ℕ)

abbrev noting : Bytes → (Log → Outcome Log) → Handler ℕ Log
noting id after msg log = after (log ++ (id, msg) ∷ [])

abbrev noted_subs : MemoryBroker (Handler ℕ Log)
noted_subs =
    (subscribe (codes "id2") (codes "user.created") (some (noting (codes "id2") panicked))
      (subscribe (codes "id1") (codes "user.*") (some (noting (codes "id1") returned))
        (new_memory_broker 7)).1).1

noted_subs-IsNoting : All IsNoting (recipients (codes "user.created") noted_subs)
unfolding runs
noted_subs-IsNoting = ((λ msg log. inr refl), ((λ msg log. inl refl), tt))

noted_subs-open : noted_subs.closed ≡ false
unfolding runs
noted_subs-open = refl

publish_runs_recipients_example : publish (codes "user.created") 5 0 noted_subs [] ≡ (
  none,
  notes
      (record { topic = codes "user.created"; payload = 5; timestamp = 0 })
      (recipients (codes "user.created") noted_subs),
)
publish_runs_recipients_example =
    publish_runs_recipients (codes "user.created") 5 0 noted_subs [] created-named noted_subs-open
      noted_subs-IsNoting

close_final_example :
    ((topic : Bytes) (payload : ℕ) (now : ℕ) (w : ℕ)
      → publish topic payload now (close two_subs) w
        ≡ (if str_eq topic [] then (some empty_topic, w) else (some closed_broker, w)))
    × ((id topic : Bytes)
        → subscribe id topic none (close two_subs) ≡ (
            if str_eq topic []
            then (err empty_topic, close two_subs)
            else (err nil_handler, close two_subs)))
    × ((id topic : Bytes) (h : Handler ℕ ℕ)
        → subscribe id topic (some h) (close two_subs) ≡ (
            if str_eq topic []
            then (err empty_topic, close two_subs)
            else (err closed_broker, close two_subs)))
    × (unsubscribe nil (close two_subs) ≡ (none, close two_subs))
    × (unsubscribe other (close two_subs) ≡ (some closed_broker, close two_subs))
    × ((s : Subscription (Handler ℕ ℕ))
        → unsubscribe (own s) (close two_subs) ≡ (some closed_broker, close two_subs))
    × ((topic : Bytes) → recipients topic (close two_subs) ≡ [])
    × (close (close two_subs) ≡ close two_subs)
close_final_example = close_final two_subs two_subs-open

Reach-IsSound_example : IsSound one_sub
Reach-IsSound_example = Reach-IsSound 7 one_sub one_sub-Reach

sub_one-suffix : sub_one.pattern.kind ≡ suffix_wildcard
unfolding runs
sub_one-suffix = refl

bare_suffix_delivered_example :
    In sub_one (recipients (sub_one.pattern.simple_prefix ++ dot ∷ []) one_sub)
    × (Pattern.match sub_one.pattern (sub_one.pattern.simple_prefix ++ dot ∷ []) ≡ false)
bare_suffix_delivered_example =
    bare_suffix_delivered one_sub sub_one (Reach-IsSound 7 one_sub one_sub-Reach).valid
      one_sub-IsStored sub_one-suffix

In-recipients_iff_example :
    In sub_one (recipients (codes "user.x") one_sub)
    ↔ (IsStored sub_one one_sub × Matches (split dot sub_one.topic) (split dot (codes "user.x")))
In-recipients_iff_example =
    In-recipients_iff (codes "user.x") one_sub (Reach-IsSound 7 one_sub one_sub-Reach).valid sub_one
