-- ===== src/Pattern/Tests.antt =====
-- Patterns of the documentation's table, and the refinement at one of them.
use ginject.Prelude.{◌≡◌, refl, ◌↔◌, true, false}
use ginject.Text.{codes}
use ginject.Text.Split.{split}
use ginject.Pattern.{dot, new_pattern, match, is_nil}
use ginject.Pattern.Segments.{Matches}
use ginject.Pattern.Refinement.{IsBareSuffix, match-new_pattern_iff}

suffix_deep : match (new_pattern (codes "user.*")) (codes "user.profile.updated") ≡ true
unfolding match new_pattern
suffix_deep = refl

suffix_without_dot : match (new_pattern (codes "user.*")) (codes "user") ≡ false
unfolding match new_pattern
suffix_without_dot = refl

inner_star : match (new_pattern (codes "tenant.*.user.*")) (codes "tenant.1.user.a.b") ≡ true
unfolding match new_pattern is_nil
inner_star = refl

star_one_segment : match (new_pattern (codes "*.created")) (codes "a.b.created") ≡ false
unfolding match new_pattern is_nil
star_one_segment = refl

match-new_pattern_example : (match (new_pattern (codes "user.*")) (codes "user.a") ≡ true) ↔ (
    Matches (split dot (codes "user.*")) (split dot (codes "user.a"))
    × (¬ IsBareSuffix (codes "user.*") (codes "user.a")))
match-new_pattern_example = match-new_pattern_iff (codes "user.*") (codes "user.a")
