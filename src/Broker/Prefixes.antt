-- ===== src/Broker/Prefixes.antt =====
-- `forEachPrefixOf` of memorybroker/fn.go.
use ginject.Prelude.{
  ℕ, zero, suc, ◌<◌, ◌≡◌, refl, inl, inr, ◌↔◌, true, [], ◌∷◌, ◌++◌, length, take, length-append,
  arith, ap,
}
use native.Mathlib.Decide.{ℕ_discrete}
use ginject.Prelude.Members.{In, In-if_cases, In-if_here, In-if_there}
use ginject.Text.{Bytes}
use ginject.Pattern.{dot}
use ginject.Broker.{is_dot_at, prefix_loop, prefixes_of}

-- At a dot the topic is what stands before it, the dot and a rest.
dot_splits :
    (topic : Bytes) (i : ℕ)
    → is_dot_at topic i ≡ true
    → (r : Bytes) × (topic ≡ take i topic ++ (dot ∷ r))
unfolding is_dot_at
dot_splits [] i h = absurd (ground arith)
dot_splits (c ∷ topic) zero h = (topic, ap (λ b. b ∷ topic) (ground arith))
dot_splits (c ∷ topic) (suc i) h = let (r, e) = dot_splits topic i h in (r, ap (◌∷◌ c) e)

split_at_dot :
    (p r : Bytes)
    → (is_dot_at (p ++ (dot ∷ r)) (length p) ≡ true) × (take (length p) (p ++ (dot ∷ r)) ≡ p)
unfolding is_dot_at
split_at_dot [] r = (refl, refl)
split_at_dot (c ∷ p) r = ((split_at_dot p r).0, ap (◌∷◌ c) (split_at_dot p r).1)

In-prefix_loop→ :
    (n : ℕ) (topic p : Bytes) → In p (prefix_loop n topic) → (r : Bytes) × (topic ≡ p ++ (dot ∷ r))
unfolding prefix_loop
In-prefix_loop→ zero topic p h = elim h [ ]
In-prefix_loop→ (suc i) topic p h =
    elim (In-if_cases (is_dot_at topic i) p (take i topic) (prefix_loop i topic) h) [
      | inl (e, e') ↦ rw e' (dot_splits topic i e)
      | inr h' ↦ In-prefix_loop→ i topic p h'
    ]

prefix_loop-In :
    (n : ℕ) (topic p r : Bytes) → length p < n → topic ≡ p ++ (dot ∷ r) → In p (prefix_loop n topic)
unfolding prefix_loop
prefix_loop-In zero topic p r lt e = elim lt [ ]
prefix_loop-In (suc i) topic p r lt e = elim (ℕ_discrete (length p) i) [
  | yes here ↦
      let at_dot : is_dot_at topic i ≡ true = rw (e, ← here) (split_at_dot p r).0 in
      let taken : take i topic ≡ p = rw (e, ← here) (split_at_dot p r).1 in
      rw taken (In-if_here (is_dot_at topic i) p (prefix_loop i topic) at_dot)
  | no later ↦
      In-if_there (is_dot_at topic i) p (take i topic) (prefix_loop i topic)
        (prefix_loop-In i topic p r (omega arith) e)
]

-- `forEachPrefixOf` visits exactly the strings that a dot follows in the topic.
pub In-prefixes_of_iff :
    (topic p : Bytes) → In p (prefixes_of topic) ↔ ((r : Bytes) × (topic ≡ p ++ (dot ∷ r)))
unfolding prefixes_of
In-prefixes_of_iff topic p = (
  In-prefix_loop→ (length topic) topic p,
  λ (r, e).
      prefix_loop-In (length topic) topic p r
        (omega (arith, ap (length {A = _}) e, length-append p (dot ∷ r))) e,
)
