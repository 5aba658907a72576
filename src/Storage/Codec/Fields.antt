-- ===== src/Storage/Codec/Fields.antt =====
-- Fields of fixed and of stated length in a string of bytes, as modules/storage/record.go reads them.
use native.Mathlib.Omega.{pow_step}
use ginject.Prelude.{
  ℕ, zero, suc, ◌+◌, ◌-◌, ◌*◌, ◌/◌, ◌^◌, ◌<◌, ◌≡◌, refl, sym, ◌∙◌, ap, ◌++◌, arith, length, drop,
}
use ginject.Text.{Bytes}
use ginject.Text.Cut.{drop-drop, drop-append, take-append}
use ginject.Storage.Codec.{put_uint, uint, slice}

pub length-put_uint : (n v : ℕ) → length (put_uint n v) ≡ n
unfolding put_uint
length-put_uint zero v = refl
length-put_uint (suc n) v = ap suc (length-put_uint n (v / 256))

pub uint-put_uint : (n v : ℕ) (rest : Bytes) → v < 256 ^ n → uint n (put_uint n v ++ rest) ≡ v
unfolding put_uint uint
uint-put_uint zero v rest h = omega arith
uint-put_uint (suc n) v rest h =
    let e : 256 ^ suc n ≡ 256 * 256 ^ n = pow_step 256 n in
    omega (arith, uint-put_uint n (v / 256) rest (omega (arith, e)))

-- What stands behind a field.
pub drop-field :
    (s field rest : Bytes) (off n m : ℕ)
    → drop off s ≡ field ++ rest
    → length field ≡ n
    → m ≡ off + n
    → drop m s ≡ rest
drop-field s field rest off n m h k e =
    sym (drop-drop n off m s (omega arith))
    ∙ ap (drop n) h
    ∙ ap (λ j. drop j (field ++ rest)) (sym k)
    ∙ drop-append field rest

pub slice-field :
    (s field rest : Bytes) (off n m : ℕ)
    → drop off s ≡ field ++ rest
    → length field ≡ n
    → m ≡ off + n
    → slice s off m ≡ field
slice-field s field rest off n m h k e =
    let size : m - off ≡ length field = omega arith in rw (size, h) (take-append field rest)
