-- ===== src/Storage/Segments/Numbered.antt =====
-- modules/storage/engine.go: the numbers of the segments, and finding a segment by its number.
use ginject.Prelude.{
  ℕ, ◌+◌, ◌<◌, ◌≡◌, refl, inl, inr, ◌&&◌, none, some, List, [], ◌∷◌, ◌++◌, arith, ltb, length,
  Bool-cases,
}
use ginject.Prelude.Members.{All}
use ginject.Text.{Bytes}
use ginject.Storage.Segments.{
  max_seg_size, SegFile, Engine, segs, empty_engine, new_segment, seg_by_id, appended, rotated,
}

pub seg_by_id-append :
    (id : ℕ) (ss ts : List SegFile) (s : SegFile)
    → seg_by_id id ss ≡ some s
    → seg_by_id id (ss ++ ts) ≡ some s
unfolding seg_by_id
seg_by_id-append id [] ts s h = absurd (ground arith)
seg_by_id-append id (x ∷ ss) ts s h = ground (arith, seg_by_id-append id ss ts s)

pub seg_by_id-append_absent :
    (id : ℕ) (ss ts : List SegFile)
    → seg_by_id id ss ≡ none
    → seg_by_id id (ss ++ ts) ≡ seg_by_id id ts
unfolding seg_by_id
seg_by_id-append_absent id [] ts h = refl
seg_by_id-append_absent id (x ∷ ss) ts h = ground (arith, seg_by_id-append_absent id ss ts)

-- The segments have numbers below the next one, and the current one's is its own.
pub record IsNumbered (e : Engine) : Type 0 where
  pub older_below : All (λ (s : SegFile). s.id < e.next_seg) e.older
  pub current_below : e.current.id < e.next_seg
  pub own : seg_by_id e.current.id e.older ≡ none

pub empty_engine-IsNumbered : IsNumbered empty_engine
unfolding seg_by_id
empty_engine-IsNumbered = record { older_below = tt; current_below = omega arith; own = refl }

absent_next :
    (id : ℕ) (ss : List SegFile) → All (λ (s : SegFile). s.id < id) ss → seg_by_id id ss ≡ none
unfolding seg_by_id
absent_next id [] h = refl
absent_next id (s ∷ ss) (h, hs) = ground (arith, absent_next id ss hs)

All-append : (P : SegFile → Type 0) (ss ts : List SegFile) → All P ss → All P ts → All P (ss ++ ts)
All-append P [] ts h k = k
All-append P (s ∷ ss) ts (p, h) k = (p, All-append P ss ts h k)

All-map :
    (P Q : SegFile → Type 0) (ss : List SegFile) → ((s : SegFile) → P s → Q s) → All P ss → All Q ss
All-map P Q [] f h = h
All-map P Q (s ∷ ss) f (p, h) = (f s p, All-map P Q ss f h)

segs-below : (e : Engine) → IsNumbered e → All (λ (s : SegFile). s.id < e.next_seg) (segs e)
segs-below e n = All-append _ e.older _ n.older_below (n.current_below, tt)

new_segment-IsNumbered : (e : Engine) → IsNumbered e → IsNumbered (new_segment e)
unfolding new_segment
new_segment-IsNumbered e n = record {
  older_below = All-map _ _ (segs e) (λ s p. omega arith) (segs-below e n);
  current_below = omega arith;
  own = absent_next e.next_seg (segs e) (segs-below e n);
}

pub rotated-IsNumbered : (size : ℕ) (e : Engine) → IsNumbered e → IsNumbered (rotated size e)
unfolding rotated
rotated-IsNumbered size e n =
    elim (Bool-cases
      (ltb max_seg_size (length e.current.content + size) && ltb 0 (length e.current.content))) [
        | inl h ↦ rw h (new_segment-IsNumbered e n)
        | inr h ↦ rw h n
      ]

pub appended-IsNumbered :
    (bytes : Bytes) (e : Engine) → IsNumbered e → IsNumbered (appended bytes e)
appended-IsNumbered bytes e n = record {
  older_below = n.older_below;
  current_below = n.current_below;
  own = n.own;
}
