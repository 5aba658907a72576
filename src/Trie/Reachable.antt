-- ===== src/Trie/Reachable.antt =====
-- internal/ds/trie.go: the tries that `Insert` and `Remove` reach, and `Find` on them.
use ginject.Prelude.{ℕ, ◌≢◌, Bool, none, []}
use ginject.Text.{Bytes}
use ginject.Trie.{Trie, new_trie, insert, remove}
use ginject.Trie.Search.{Walk, walked, nil_dereference, find_loop, panicked, result_of, find}
use ginject.Str.{segments_of}
use ginject.Trie.Tidy.{IsTidy}
use ginject.Trie.Preserved.{insert_loop-IsTidy, remove_segments-IsTidy}
use ginject.Trie.Moves.{IsSafe, find_loop-IsSafe}

-- The tries that the calls make of an empty one.
pub data Reach : Trie → Type 0 where
  start : Reach new_trie
  inserted : {t : Trie} (raw path : Bytes) (sep : ℕ) → Reach t → Reach (insert raw path sep t)
  removed : {t : Trie} (path : Bytes) (sep : ℕ) → Reach t → Reach (remove path sep t).1

Reach-IsTidy : {t : Trie} → Reach t → IsTidy t
unfolding new_trie insert remove
Reach-IsTidy start = (tt, tt)
Reach-IsTidy (inserted {t = t} raw path sep r) =
    insert_loop-IsTidy raw (segments_of path sep) t (Reach-IsTidy r)
Reach-IsTidy (removed {t = t} path sep r) =
    remove_segments-IsTidy (segments_of path sep) t (Reach-IsTidy r)

result_of-ne-panicked : (w : Walk) → IsSafe w → result_of w ≢ panicked
result_of-ne-panicked (walked matched wild vals) h = λ e. cc
result_of-ne-panicked nil_dereference h = absurd h

-- `Find` takes no nil child of a trie that was made by `Insert` and `Remove`, on any path.
pub find-ne-panicked :
    {t : Trie} (path : Bytes) (sep : ℕ) (supports_params : Bool)
    → Reach t
    → find path sep supports_params t ≢ panicked
unfolding find
find-ne-panicked {t = t} path sep sp r =
    let walk = find_loop sp (segments_of path sep) t none [] in
    result_of-ne-panicked walk
      (find_loop-IsSafe sp (segments_of path sep) t none [] (Reach-IsTidy r))
