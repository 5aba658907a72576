-- ===== src/Broker/Valid.antt =====
-- The well-formedness of a broker's four indexes, and the calls that change them.
use ginject.Prelude.{ℕ, ◌≡◌, refl, ◌∙◌, Bool, some, arith}
use ginject.Text.{Bytes, str_eq_iff}
use ginject.GoMap.{lookup, insert, lookup-insert}
use ginject.Pattern.{Kind, exact, global, suffix_wildcard, complex, new_pattern}
use ginject.Broker.{
  Subscription, ComplexGroup, MemoryBroker, new_memory_broker, group_or_new, add_to_bucket,
  remove_from_bucket,
}
use ginject.Broker.Index.{
  IsMade, IsIndex, IsBucket, subs_of, subs_of-add, put-IsIndex, drop-IsIndex, insert-IsBucket,
  erase-IsBucket, without_sub-IsIndex, lookup-without_sub, empty-IsIndex,
}

module _ {H : Type 0} where
  pub record IsValid (b : MemoryBroker H) : Type 0 where
    pub exact_index : IsIndex exact (λ s. s.topic) b.exact_by_topic
    pub prefix_index : IsIndex suffix_wildcard (λ s. s.pattern.simple_prefix) b.prefix_by_prefix
    pub global_bucket : IsBucket b.global_by_id
    pub complex_index : IsIndex complex (λ s. s.topic) (subs_of b.complex_by_topic)
    pub group_pattern :
        (topic : Bytes) (group : ComplexGroup H)
        → lookup topic b.complex_by_topic ≡ some group
        → group.pattern ≡ new_pattern topic

  -- `Subscribe`'s switch keeps a broker well formed.
  pub add_to_bucket-IsValid :
      (k : Kind) (sub : Subscription H) (b : MemoryBroker H)
      → IsMade sub
      → sub.pattern.kind ≡ k
      → IsValid b
      → IsValid (add_to_bucket k sub b)
  unfolding add_to_bucket
  add_to_bucket-IsValid global sub b made is_k v = record {
    exact_index = v.exact_index;
    prefix_index = v.prefix_index;
    global_bucket = insert-IsBucket b.global_by_id sub made is_k v.global_bucket;
    complex_index = v.complex_index;
    group_pattern = v.group_pattern;
  }
  add_to_bucket-IsValid exact sub b made is_k v = record {
    exact_index = put-IsIndex exact (λ s. s.topic) b.exact_by_topic sub made is_k v.exact_index;
    prefix_index = v.prefix_index;
    global_bucket = v.global_bucket;
    complex_index = v.complex_index;
    group_pattern = v.group_pattern;
  }
  add_to_bucket-IsValid suffix_wildcard sub b made is_k v = record {
    exact_index = v.exact_index;
    prefix_index =
        put-IsIndex suffix_wildcard (λ s. s.pattern.simple_prefix) b.prefix_by_prefix sub made is_k
          v.prefix_index;
    global_bucket = v.global_bucket;
    complex_index = v.complex_index;
    group_pattern = v.group_pattern;
  }
  add_to_bucket-IsValid complex sub b made is_k v = record {
    exact_index = v.exact_index;
    prefix_index = v.prefix_index;
    global_bucket = v.global_bucket;
    complex_index = rw (subs_of-add sub b.complex_by_topic) (
        put-IsIndex complex (λ s. s.topic) (subs_of b.complex_by_topic) sub made is_k
          v.complex_index);
    group_pattern = λ topic group h. ground (
      arith,
      lookup-insert sub.topic topic
          (let group' = group_or_new sub.pattern (lookup sub.topic b.complex_by_topic) in
            record group' { subs_by_id = insert sub.id sub group'.subs_by_id })
          b.complex_by_topic,
      str_eq_iff sub.topic topic,
      v.group_pattern topic group,
      v.group_pattern sub.topic (group_or_new sub.pattern (lookup sub.topic b.complex_by_topic)),
    );
  }

  pub remove_from_bucket-IsValid :
      (k : Kind) (sub : Subscription H) (b : MemoryBroker H)
      → IsValid b
      → IsValid (remove_from_bucket k sub b)
  unfolding remove_from_bucket
  remove_from_bucket-IsValid global sub b v = record {
    exact_index = v.exact_index;
    prefix_index = v.prefix_index;
    global_bucket = erase-IsBucket b.global_by_id sub.id v.global_bucket;
    complex_index = v.complex_index;
    group_pattern = v.group_pattern;
  }
  remove_from_bucket-IsValid exact sub b v = record {
    exact_index = drop-IsIndex exact (λ s. s.topic) b.exact_by_topic sub.topic sub.id v.exact_index;
    prefix_index = v.prefix_index;
    global_bucket = v.global_bucket;
    complex_index = v.complex_index;
    group_pattern = v.group_pattern;
  }
  remove_from_bucket-IsValid suffix_wildcard sub b v = record {
    exact_index = v.exact_index;
    prefix_index =
        drop-IsIndex suffix_wildcard (λ s. s.pattern.simple_prefix) b.prefix_by_prefix
          sub.pattern.simple_prefix sub.id v.prefix_index;
    global_bucket = v.global_bucket;
    complex_index = v.complex_index;
    group_pattern = v.group_pattern;
  }
  remove_from_bucket-IsValid complex sub b v = record {
    exact_index = v.exact_index;
    prefix_index = v.prefix_index;
    global_bucket = v.global_bucket;
    complex_index =
        without_sub-IsIndex sub b.complex_by_topic (lookup sub.topic b.complex_by_topic) refl
          v.complex_index;
    group_pattern = λ topic group h.
        let (old, found, same) =
          lookup-without_sub sub b.complex_by_topic (lookup sub.topic b.complex_by_topic) refl topic
            group h in
        same ∙ v.group_pattern topic old found;
  }

  -- A broker whose indexes are empty is well formed.
  pub empty-IsValid :
      (identity : ℕ) (c : Bool) → IsValid (record (new_memory_broker identity) { closed = c })
  unfolding new_memory_broker lookup subs_of
  empty-IsValid identity c = record {
    exact_index = empty-IsIndex exact (λ s. s.topic);
    prefix_index = empty-IsIndex suffix_wildcard (λ s. s.pattern.simple_prefix);
    global_bucket = record { distinct = tt; home = λ id s h. absurd (ground arith) };
    complex_index = empty-IsIndex complex (λ s. s.topic);
    group_pattern = λ topic group h. absurd (ground arith);
  }
