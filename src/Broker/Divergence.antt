-- ===== src/Broker/Divergence.antt =====
-- The broker's index of prefixes next to `Pattern.Match`, on topics that end in a dot.
use ginject.Prelude.{◌≡◌, sym, ◌∙◌, ap, false, inl, inr, [], ◌∷◌, ◌++◌, Bool-cases}
use ginject.Prelude.Members.{In}
use ginject.Text.{Bytes}
use ginject.Pattern
use ginject.Pattern.{Pattern, suffix_wildcard, dot, new_pattern}
use ginject.Pattern.Refinement.{match-new_pattern_iff, suffix_iff}
use ginject.Broker.{Subscription, MemoryBroker, recipients}
use ginject.Broker.Valid.{IsValid}
use ginject.Broker.Stored.{IsStored, of_stored}
use ginject.Broker.Delivery.{In-recipients_iff}

-- A message to `prefix.`, with nothing after the dot, is delivered to every stored subscription
-- under `prefix.*`, although `Match` of that pattern says that the topic does not match.
pub bare_suffix_delivered :
    {H : Type 0} (b : MemoryBroker H) (s : Subscription H)
    → IsValid b
    → IsStored s b
    → s.pattern.kind ≡ suffix_wildcard
    → In s (recipients (s.pattern.simple_prefix ++ dot ∷ []) b)
      × (Pattern.match s.pattern (s.pattern.simple_prefix ++ dot ∷ []) ≡ false)
bare_suffix_delivered b s v stored is_suffix = (
  (In-recipients_iff sent b v s).1
      (stored, (suffix_iff s.topic sent kind).1 ([], ap (λ p. p.simple_prefix ++ dot ∷ []) made)),
  ap (λ p. Pattern.match p sent) made ∙ not_matched,
)
  where
    sent : Bytes
    sent = s.pattern.simple_prefix ++ dot ∷ []

    made : s.pattern ≡ new_pattern s.topic
    made =
        (v.prefix_index.home s.pattern.simple_prefix s.id s
          (of_stored suffix_wildcard s b is_suffix stored)).1

    kind : (new_pattern s.topic).kind ≡ suffix_wildcard
    kind = sym (ap (λ p. p.kind) made) ∙ is_suffix

    not_matched : Pattern.match (new_pattern s.topic) sent ≡ false
    not_matched = elim (Bool-cases (Pattern.match (new_pattern s.topic) sent)) [
      | inr e ↦ e
      | inl e ↦ absurd (
          ((match-new_pattern_iff s.topic sent).0 e).1
            (kind, ap (λ p. p.simple_prefix ++ dot ∷ []) made))
    ]
