-- ===== src/Broker/Delivery.antt =====
-- Who receives a message: the snapshot of `publishInternal` against the stored subscriptions and
-- the meaning of their patterns.
use ginject.Prelude.{
  ◌≡◌, refl, sym, ◌∙◌, ap₂, ◌↔◌, ◌⊎◌, inl, inr, none, some, ◌∷◌, ◌++◌, arith, Option-cases, ap,
}
use ginject.Prelude.Members.{In, In-append_left, In-append_right, In-append_cases}
use ginject.Text.{Bytes}
use ginject.Text.Split.{split}
use ginject.GoMap.{GoMap, lookup, values}
use ginject.GoMap.Distinct.{In-values→lookup, lookup→In-values}
use ginject.GoMap.Nested.{inner}
use ginject.Pattern
use ginject.Pattern.{Pattern, Kind, exact, global, suffix_wildcard, complex, dot, new_pattern}
use ginject.Pattern.Segments.{Matches}
use ginject.Pattern.Refinement.{match_iff_of_ne_suffix, exact_iff, global-Matches, suffix_iff}
use ginject.Broker.{
  Subscription, ComplexGroup, MemoryBroker, in_buckets, matched_complex, in_groups, recipients,
  prefixes_of,
}
use ginject.Broker.Stored.{
  IsStored, of_in_buckets, in_buckets-In, of_in_groups, in_groups-In, In-matched→, matched-In,
  subs_of-Distinct, of_placed, of_stored,
}
use ginject.Broker.Prefixes.{In-prefixes_of_iff}
use ginject.Broker.Index.{subs_of, lookup-subs_of}
use ginject.Broker.Valid.{IsValid}

module _ {H : Type 0} where
  module _ (topic : Bytes) (b : MemoryBroker H) (v : IsValid b) (s : Subscription H) where
    abbrev Delivers : Type 0
    Delivers = IsStored s b × Matches (split dot s.topic) (split dot topic)

    from_exact : In s (values (inner topic b.exact_by_topic)) → Delivers
    from_exact h =
        let (id, found) =
          In-values→lookup s (inner topic b.exact_by_topic) (v.exact_index.tidy.inners topic) h in
        let (e_id, made, is_k, at_key) = v.exact_index.home topic id s found in
        (
          of_placed exact s b is_k
              (ap₂ (λ i t. lookup i (inner t b.exact_by_topic)) e_id at_key ∙ found),
          (exact_iff s.topic topic (sym (ap (λ p. p.kind) made) ∙ is_k)).1 at_key,
        )

    from_prefix : In s (in_buckets (prefixes_of topic) b.prefix_by_prefix) → Delivers
    from_prefix h =
        let (key, at, h') = of_in_buckets (prefixes_of topic) b.prefix_by_prefix s h in
        let (id, found) =
          In-values→lookup s (inner key b.prefix_by_prefix) (v.prefix_index.tidy.inners key) h' in
        let (e_id, made, is_k, at_key) = v.prefix_index.home key id s found in
        let (r, e) = (In-prefixes_of_iff topic key).0 at in
        (
          of_placed suffix_wildcard s b is_k
              (ap₂ (λ i t. lookup i (inner t b.prefix_by_prefix)) e_id at_key ∙ found),
          (suffix_iff s.topic topic (sym (ap (λ p. p.kind) made) ∙ is_k)).1 (
            r,
            e ∙ ap (λ p. p ++ (dot ∷ r)) (sym at_key ∙ ap (λ (p : Pattern). p.simple_prefix) made),
          ),
        )

    from_global : In s (values b.global_by_id) → Delivers
    from_global h =
        let (id, found) = In-values→lookup s b.global_by_id v.global_bucket.distinct h in
        let (e_id, made, is_k, _) = v.global_bucket.home id s found in
        (
          of_placed global s b is_k (ap (λ i. lookup i b.global_by_id) e_id ∙ found),
          global-Matches s.topic topic (sym (ap (λ p. p.kind) made) ∙ is_k),
        )

    from_complex : In s (in_groups (matched_complex topic b.complex_by_topic)) → Delivers
    from_complex h =
        let m = b.complex_by_topic in
        let tidy = v.complex_index.tidy in
        let (g, at, h') = of_in_groups (matched_complex topic m) s h in
        let (matches, at') = In-matched→ topic m g at in
        let (t, found) = In-values→lookup g m (subs_of-Distinct m tidy.outer) at' in
        let same : inner t (subs_of m) ≡ g.subs_by_id = ground (arith, lookup-subs_of t m) in
        let (id, found') = In-values→lookup s g.subs_by_id (rw same at (tidy.inners t)) h' in
        let (e_id, made, is_k, at_key) =
          v.complex_index.home t id s (ap (lookup id) same ∙ found') in
        let kind : (new_pattern s.topic).kind ≡ complex = sym (ap (λ p. p.kind) made) ∙ is_k in
        let own_pattern : g.pattern ≡ new_pattern s.topic =
          v.group_pattern t g found ∙ ap new_pattern (sym at_key) in
        (
          of_placed complex s b is_k (
              ap₂ (λ i t'. lookup i (inner t' (subs_of m))) e_id at_key
              ∙ ap (lookup id) same
              ∙ found'),
          (match_iff_of_ne_suffix s.topic topic (λ e. cc)).0
              (sym (ap (λ p. Pattern.match p topic) own_pattern) ∙ matches),
        )

    to_exact :
        s.pattern.kind ≡ exact
        → IsStored s b
        → Matches (split dot s.topic) (split dot topic)
        → In s (values (inner topic b.exact_by_topic))
    to_exact is_k stored m =
        let found = of_stored exact s b is_k stored in
        let (_, made, _, _) = v.exact_index.home s.topic s.id s found in
        let same = (exact_iff s.topic topic (sym (ap (λ p. p.kind) made) ∙ is_k)).0 m in
        lookup→In-values s.id s (inner topic b.exact_by_topic)
          (sym (ap (λ t. lookup s.id (inner t b.exact_by_topic)) same) ∙ found)

    to_prefix :
        s.pattern.kind ≡ suffix_wildcard
        → IsStored s b
        → Matches (split dot s.topic) (split dot topic)
        → In s (in_buckets (prefixes_of topic) b.prefix_by_prefix)
    to_prefix is_k stored m =
        let key = s.pattern.simple_prefix in
        let found = of_stored suffix_wildcard s b is_k stored in
        let (_, made, _, _) = v.prefix_index.home key s.id s found in
        let (r, e) = (suffix_iff s.topic topic (sym (ap (λ p. p.kind) made) ∙ is_k)).0 m in
        in_buckets-In (prefixes_of topic) b.prefix_by_prefix key s
          ((In-prefixes_of_iff topic key).1
            (r, e ∙ ap (λ (p : Pattern). p.simple_prefix ++ (dot ∷ r)) (sym made)))
          (lookup→In-values s.id s (inner key b.prefix_by_prefix) found)

    to_global : s.pattern.kind ≡ global → IsStored s b → In s (values b.global_by_id)
    to_global is_k stored =
        lookup→In-values s.id s b.global_by_id (of_stored global s b is_k stored)

    to_complex :
        s.pattern.kind ≡ complex
        → IsStored s b
        → Matches (split dot s.topic) (split dot topic)
        → In s (in_groups (matched_complex topic b.complex_by_topic))
    to_complex is_k stored m =
        let found = of_stored complex s b is_k stored in
        let (_, made, _, _) = v.complex_index.home s.topic s.id s found in
        in_group found made (Option-cases (lookup s.topic b.complex_by_topic))
      where
        groups : GoMap (ComplexGroup H)
        groups = b.complex_by_topic

        in_group :
            lookup s.id (inner s.topic (subs_of groups)) ≡ some s
            → s.pattern ≡ new_pattern s.topic
            → (lookup s.topic groups ≡ none)
              ⊎ ((g : ComplexGroup H) × (lookup s.topic groups ≡ some g))
            → In s (in_groups (matched_complex topic groups))
        in_group found made (inl e) =
            absurd (unfold lookup in ground (arith, lookup-subs_of s.topic groups))
        in_group found made (inr (g, e)) =
            let same : inner s.topic (subs_of groups) ≡ g.subs_by_id =
              ground (arith, lookup-subs_of s.topic groups) in
            let own_pattern : g.pattern ≡ new_pattern s.topic = v.group_pattern s.topic g e in
            let kind : (new_pattern s.topic).kind ≡ complex = sym (ap (λ p. p.kind) made) ∙ is_k in
            in_groups-In (matched_complex topic groups) g s
              (matched-In topic groups g
                (ap (λ p. Pattern.match p topic) own_pattern
                  ∙ (match_iff_of_ne_suffix s.topic topic (λ e'. cc)).1 m)
                (lookup→In-values s.topic g groups e))
              (lookup→In-values s.id s g.subs_by_id (sym (ap (lookup s.id) same) ∙ found))

    recipients→ : In s (recipients topic b) → Delivers
    unfolding recipients
    recipients→ h = elim (In-append_cases s (values (inner topic b.exact_by_topic)) _ h) [
      | inl h₁ ↦ from_exact h₁
      | inr h₁ ↦ elim (In-append_cases s (in_buckets (prefixes_of topic) b.prefix_by_prefix) _ h₁) [
        | inl h₂ ↦ from_prefix h₂
        | inr h₂ ↦ elim (In-append_cases s (values b.global_by_id) _ h₂) [
          | inl h₃ ↦ from_global h₃
          | inr h₃ ↦ from_complex h₃
        ]
      ]
    ]

    →recipients :
        (k : Kind)
        → s.pattern.kind ≡ k
        → IsStored s b
        → Matches (split dot s.topic) (split dot topic)
        → In s (recipients topic b)
    unfolding recipients
    →recipients exact e stored m =
        In-append_left s (values (inner topic b.exact_by_topic)) _ (to_exact e stored m)
    →recipients suffix_wildcard e stored m =
        In-append_right s (values (inner topic b.exact_by_topic)) _ (
          In-append_left s (in_buckets (prefixes_of topic) b.prefix_by_prefix) _
            (to_prefix e stored m))
    →recipients global e stored m = In-append_right s (values (inner topic b.exact_by_topic)) _ (
        In-append_right s (in_buckets (prefixes_of topic) b.prefix_by_prefix) _
          (In-append_left s (values b.global_by_id) _ (to_global e stored)))
    →recipients complex e stored m = In-append_right s (values (inner topic b.exact_by_topic)) _ (
        In-append_right s (in_buckets (prefixes_of topic) b.prefix_by_prefix) _
          (In-append_right s (values b.global_by_id) _ (to_complex e stored m)))

  -- In a well-formed broker, the snapshot that is delivered to on a publish to `topic` holds exactly
  -- the stored subscriptions whose pattern means `topic`, segment by segment.
  pub In-recipients_iff :
      (topic : Bytes) (b : MemoryBroker H)
      → IsValid b
      → (s : Subscription H)
      → In s (recipients topic b) ↔ (IsStored s b × Matches (split dot s.topic) (split dot topic))
  In-recipients_iff topic b v s =
      (recipients→ topic b v s, λ (stored, m). →recipients topic b v s s.pattern.kind refl stored m)
