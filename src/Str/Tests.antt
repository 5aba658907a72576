-- ===== src/Str/Tests.antt =====
-- Routes as `Enclose` writes them and `Segment` cuts them.
use ginject.Prelude.{◌≡◌, refl, true, false, [], ◌∷◌}
use ginject.Text.{codes}
use ginject.Text.Split.{split}
use ginject.Str.{is_ascii_space, enclose, segments_of}
use ginject.Str.Enclosing.{enclose-enclose}
use ginject.Str.Segmenting.{flagged, segments_of-cons}

enclosed_route : enclose (codes "users//**/ $ ") b'/' ≡ codes "/users/*/$/"
unfolding enclose
enclosed_route = refl

enclosed_blank : enclose (codes "  ") b'/' ≡ []
unfolding enclose
enclosed_blank = refl

cut_route : segments_of (codes "/users/$/") b'/' ≡ (codes "users", false) ∷ (codes "$", true) ∷ []
unfolding segments_of
cut_route = refl

cut_open_route : segments_of (codes "/users/$") b'/' ≡ (codes "users", false) ∷ []
unfolding segments_of
cut_open_route = refl

enclose-enclose_example :
    enclose (enclose (codes "a//b *") b'/') b'/' ≡ enclose (codes "a//b *") b'/'
unfolding is_ascii_space
enclose-enclose_example = enclose-enclose b'/' refl (λ e. cc) (codes "a//b *")

segments_of-cons_example :
    segments_of (b'/' ∷ codes "users/$/") b'/' ≡ flagged (split b'/' (codes "users/$/"))
segments_of-cons_example = segments_of-cons (codes "users/$/") b'/'
