-- ===== src/Broker.antt =====
-- memorybroker: the in-process topic broker (memory_broker.go, fn.go, subscription.go,
-- complex_group.go, broker.go).
pub mod Prefixes
pub mod Index
pub mod Valid
pub mod Stored
pub mod Delivery
pub mod Places
pub mod Subscribing
pub mod Unsubscribing
pub mod Closing
pub mod Reachable
pub mod Divergence
mod Tests
use ginject.Prelude.{
  ℕ, zero, suc, ◌+◌, Bool, true, false, Option, none, some, List, [], ◌∷◌, ◌++◌, length, take,
  get_elem?, ◌==◌, if◌then◌else◌,
}
use ginject.Text.{Bytes, str_eq}
use ginject.GoMap.{GoMap, lookup, insert, erase, values, is_empty}
use ginject.GoMap.Nested.{inner, put, drop}
use ginject.Pattern
use ginject.Pattern.{Pattern, Kind, exact, global, suffix_wildcard, complex, dot, new_pattern}

pub data BrokerError : Type 0 where
  empty_topic nil_handler closed_broker foreign_subscription : BrokerError

pub data Result (A : Type 0) : Type 0 where
  ok : A → Result A
  err : BrokerError → Result A

-- A handler as it is run on a message, under the `recover` of `callHandler`: the state of the
-- program after it, whether it returned or panicked on the way.
pub data Outcome (W : Type 0) : Type 0 where
  returned : W → Outcome W
  panicked : W → Outcome W

pub record Message (P : Type 0) : Type 0 where
  pub topic : Bytes
  pub payload : P
  pub timestamp : ℕ

abbrev pub Handler : Type 0 → Type 0 → Type 0
Handler P W = Message P → W → Outcome W

-- `broker` is the identity of the broker that made the subscription.
pub record Subscription (H : Type 0) : Type 0 where
  pub id : Bytes
  pub topic : Bytes
  pub pattern : Pattern
  pub handler : H
  pub broker : ℕ

-- The argument of `Unsubscribe`: nil, a `Subscription` of another type, or one of this package.
pub data SubscriptionArg (H : Type 0) : Type 0 where
  nil : SubscriptionArg H
  other : SubscriptionArg H
  own : Subscription H → SubscriptionArg H

pub record ComplexGroup (H : Type 0) : Type 0 where
  pub pattern : Pattern
  pub subs_by_id : GoMap (Subscription H)

pub record MemoryBroker (H : Type 0) : Type 0 where
  pub identity : ℕ
  pub exact_by_topic : GoMap (GoMap (Subscription H))
  pub prefix_by_prefix : GoMap (GoMap (Subscription H))
  pub global_by_id : GoMap (Subscription H)
  pub complex_by_topic : GoMap (ComplexGroup H)
  pub closed : Bool

unfoldable pub new_memory_broker : {H : Type 0} → ℕ → MemoryBroker H
new_memory_broker identity = record {
  identity = identity;
  exact_by_topic = [];
  prefix_by_prefix = [];
  global_by_id = [];
  complex_by_topic = [];
  closed = false;
}

-- `topic[i] == '.'`
unfoldable pub is_dot_at : Bytes → ℕ → Bool
is_dot_at topic i = elim (get_elem? topic i) [ none ↦ false | some c ↦ c == dot ]

-- The loop of `forEachPrefixOf`, from `i - 1` down to 0: the prefixes in the order of the calls.
unfoldable pub prefix_loop : ℕ → Bytes → List Bytes
unfolding is_dot_at
prefix_loop zero topic = []
prefix_loop (suc i) topic =
    let rest = prefix_loop i topic in if is_dot_at topic i then take i topic ∷ rest else rest

unfoldable pub prefixes_of : Bytes → List Bytes
unfolding prefix_loop
prefixes_of topic = prefix_loop (length topic) topic

module _ {H : Type 0} where
  -- The subscriptions in the buckets of some keys, bucket after bucket.
  unfoldable pub in_buckets : List Bytes → GoMap (GoMap (Subscription H)) → List (Subscription H)
  in_buckets [] m = []
  in_buckets (key ∷ keys) m = values (inner key m) ++ in_buckets keys m

  -- The groups of complex patterns that match, in the order of the iteration.
  unfoldable pub matched_complex : Bytes → GoMap (ComplexGroup H) → List (ComplexGroup H)
  matched_complex topic [] = []
  matched_complex topic ((key, group) ∷ m) =
      let rest = matched_complex topic m in
      if Pattern.match group.pattern topic then group ∷ rest else rest

  unfoldable pub in_groups : List (ComplexGroup H) → List (Subscription H)
  in_groups [] = []
  in_groups (group ∷ groups) = values group.subs_by_id ++ in_groups groups

  -- The snapshot that `publishInternal` takes under the read lock.
  unfoldable pub recipients : Bytes → MemoryBroker H → List (Subscription H)
  recipients topic b =
      values (inner topic b.exact_by_topic)
      ++ (in_buckets (prefixes_of topic) b.prefix_by_prefix
          ++ (values b.global_by_id ++ in_groups (matched_complex topic b.complex_by_topic)))

  unfoldable pub bucket_total : List Bytes → GoMap (GoMap (Subscription H)) → ℕ
  bucket_total [] m = 0
  bucket_total (key ∷ keys) m = length (inner key m) + bucket_total keys m

  unfoldable pub group_total : List (ComplexGroup H) → ℕ
  group_total [] = 0
  group_total (group ∷ groups) = length group.subs_by_id + group_total groups

  -- `total`, counted before the snapshot is allocated.
  unfoldable pub total : Bytes → MemoryBroker H → ℕ
  total topic b =
      length (inner topic b.exact_by_topic)
      + length b.global_by_id
      + bucket_total (prefixes_of topic) b.prefix_by_prefix
      + group_total (matched_complex topic b.complex_by_topic)

  -- `if m[topic] == nil { m[topic] = &complexGroup{…} }`
  abbrev pub group_or_new : Pattern → Option (ComplexGroup H) → ComplexGroup H
  group_or_new pat none = record { pattern = pat; subs_by_id = [] }
  group_or_new pat (some group) = group

  -- The switch of `Subscribe` on the kind of the pattern.
  unfoldable pub add_to_bucket : Kind → Subscription H → MemoryBroker H → MemoryBroker H
  add_to_bucket global sub b = record b { global_by_id = insert sub.id sub b.global_by_id }
  add_to_bucket suffix_wildcard sub b = record b {
    prefix_by_prefix = put sub.pattern.simple_prefix sub.id sub b.prefix_by_prefix;
  }
  add_to_bucket exact sub b = record b {
    exact_by_topic = put sub.topic sub.id sub b.exact_by_topic;
  }
  add_to_bucket complex sub b =
      let group = group_or_new sub.pattern (lookup sub.topic b.complex_by_topic) in
      record b {
        complex_by_topic =
            insert sub.topic (record group { subs_by_id = insert sub.id sub group.subs_by_id })
              b.complex_by_topic;
      }

  -- `if cg := m[sub.topic]; cg != nil { … }`
  abbrev pub without_sub :
      Subscription H → Option (ComplexGroup H) → GoMap (ComplexGroup H) → GoMap (ComplexGroup H)
  without_sub sub none m = m
  without_sub sub (some group) m =
      let left = erase sub.id group.subs_by_id in
      if is_empty left
      then erase sub.topic m
      else insert sub.topic (record group { subs_by_id = left }) m

  unfoldable pub remove_from_bucket : Kind → Subscription H → MemoryBroker H → MemoryBroker H
  remove_from_bucket global sub b = record b { global_by_id = erase sub.id b.global_by_id }
  remove_from_bucket suffix_wildcard sub b = record b {
    prefix_by_prefix = drop sub.pattern.simple_prefix sub.id b.prefix_by_prefix;
  }
  remove_from_bucket exact sub b = record b {
    exact_by_topic = drop sub.topic sub.id b.exact_by_topic;
  }
  remove_from_bucket complex sub b = record b {
    complex_by_topic = without_sub sub (lookup sub.topic b.complex_by_topic) b.complex_by_topic;
  }

  -- The checks of `Subscribe` before the lock.
  unfoldable pub subscribe_check : Bytes → Option H → MemoryBroker H → Option BrokerError
  unfolding str_eq
  subscribe_check topic handler b = if str_eq topic [] then some empty_topic else elim handler [
    | none ↦ some nil_handler
    | some h ↦ if b.closed then some closed_broker else none
  ]

  -- The part of `Subscribe` under the lock, with its second look at `closed`.
  unfoldable pub register :
      Subscription H → MemoryBroker H → Result (Subscription H) × MemoryBroker H
  unfolding add_to_bucket
  register sub b =
      if b.closed then (err closed_broker, b) else (ok sub, add_to_bucket sub.pattern.kind sub b)

  unfoldable pub new_subscription : Bytes → Bytes → H → ℕ → Subscription H
  unfolding new_pattern
  new_subscription id topic handler broker = record {
    id = id;
    topic = topic;
    pattern = new_pattern topic;
    handler = handler;
    broker = broker;
  }

  -- `Subscribe`; `id` is what `newID` draws.
  unfoldable pub subscribe :
      Bytes → Bytes → Option H → MemoryBroker H → Result (Subscription H) × MemoryBroker H
  unfolding register new_subscription
  subscribe id topic none b = elim (subscribe_check topic none b) [
    | none ↦ (err nil_handler, b)
    | some e ↦ (err e, b)
  ]
  subscribe id topic (some h) b = elim (subscribe_check topic (some h) b) [
    | some e ↦ (err e, b)
    | none ↦ register (new_subscription id topic h b.identity) b
  ]

  unfoldable pub unsubscribe :
      SubscriptionArg H → MemoryBroker H → Option BrokerError × MemoryBroker H
  unfolding remove_from_bucket
  unsubscribe nil b = (none, b)
  unsubscribe other b = (if b.closed then some closed_broker else none, b)
  unsubscribe (own sub) b =
      if sub.broker == b.identity
      then (if b.closed
          then (some closed_broker, b)
          else (none, remove_from_bucket sub.pattern.kind sub b))
      else (if b.closed then some closed_broker else some foreign_subscription, b)

  -- `Close` up to the wait: it tells whether the broker was open.
  unfoldable pub close_flag : MemoryBroker H → Bool × MemoryBroker H
  close_flag b = if b.closed then (false, b) else (true, record b { closed = true })

  -- `Close` after the wait.
  unfoldable pub clear : MemoryBroker H → MemoryBroker H
  clear b = record b {
    exact_by_topic = [];
    prefix_by_prefix = [];
    global_by_id = [];
    complex_by_topic = [];
  }

  unfoldable pub close : MemoryBroker H → MemoryBroker H
  unfolding close_flag clear
  close b = let (was_open, b') = close_flag b in if was_open then clear b' else b'

module _ {P W : Type 0} where
  -- `callHandler`: a panic is recovered, what the handler did before it stays done.
  unfoldable pub call_handler : Handler P W → Message P → W → W
  call_handler h msg w = elim (h msg w) [ returned w' ↦ w' | panicked w' ↦ w' ]

  unfoldable pub call_all : List (Subscription (Handler P W)) → Message P → W → W
  unfolding call_handler
  call_all [] msg w = w
  call_all (sub ∷ subs) msg w = call_all subs msg (call_handler sub.handler msg w)

  unfoldable pub publish_internal : Bytes → P → ℕ → MemoryBroker (Handler P W) → W → W
  unfolding total recipients call_all
  publish_internal topic payload now b w =
      if total topic b == 0
      then w
      else call_all (recipients topic b)
          (record { topic = topic; payload = payload; timestamp = now }) w

  unfoldable pub publish : Bytes → P → ℕ → MemoryBroker (Handler P W) → W → Option BrokerError × W
  unfolding publish_internal str_eq
  publish topic payload now b w =
      if str_eq topic []
      then (some empty_topic, w)
      else if b.closed
      then (some closed_broker, w)
      else (none, publish_internal topic payload now b w)
