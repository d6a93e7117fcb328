-- ===== src/Protocol/Codec/Groups.antt =====
-- The variable byte integer of protocol/codec.go: what is written, and that it is read back.
use shark_mqtt.Prelude.{
  ℕ, zero, suc, ◌+◌, ◌*◌, ◌/◌, ◌%◌, ◌^◌, ◌≤◌, ◌<◌, ◌≡◌, ap, ◌∙◌, [], ◌∷◌, ◌++◌, Str, length, ltb,
  if◌then◌else◌, arith, append_assoc,
}
use mathlib.Core.WellFounded.{Acc}
use native.Mathlib.Nat.{div-add-mod, mul-le-mul_right}
use shark_mqtt.Prelude.Bytes.{low_bits, top_bit, set_top_bit}
use shark_mqtt.Protocol.Codec.{ok, var_int_loop, write_var_int, read_var_int_from, read_var_int}

-- The groups of seven bits of `v`, the lowest first, for `v` below 128 ^ (k + 1).
unfoldable pub groups : ℕ → ℕ → Str
groups zero v = v ∷ []
groups (suc k) v =
    let rest = groups k (v / 128) in if ltb v 128 then v ∷ [] else (v % 128 + 128) ∷ rest

pub var_int_loop-groups :
    (k : ℕ) (out : Str) (v : ℕ) (w : Acc ◌<◌ v)
    → v < 128 ^ suc k
    → var_int_loop out v w ≡ out ++ groups k v
unfolding var_int_loop groups
var_int_loop-groups zero out v (Acc.intro _ smaller) h = ground arith
var_int_loop-groups (suc k) out v (Acc.intro _ smaller) h =
    let head : Str = (v % 128 + 128) ∷ [] in
    grind (
      arith,
      set_top_bit (v % 128),
      λ (w : Acc ◌<◌ (v / 128)). var_int_loop-groups k (out ++ head) (v / 128) w (omega arith),
      append_assoc out head (groups k (v / 128)),
    )

pub length-groups : (k v : ℕ) → (1 ≤ length (groups k v)) × (length (groups k v) ≤ k + 1)
unfolding groups
length-groups zero v = omega arith
length-groups (suc k) v = ground (arith, length-groups k (v / 128))

-- The lowest group and the others, times `m`.
pub split_group : (v m : ℕ) → v * m ≡ v % 128 * m + v / 128 * (m * 128)
split_group v m = omega (arith, ap (λ (t : ℕ). t * m) (div-add-mod v 128))

last_byte :
    (rounds w val m : ℕ) (r : Str)
    → w < 128
    → val + w * m < 2 ^ 32
    → read_var_int_from (suc rounds) val m (w ∷ r) ≡ ok (val + w * m) r
unfolding read_var_int_from
last_byte rounds w val m r hw fits = ground (arith, low_bits w, top_bit w)

inner_byte :
    (rounds g val m : ℕ) (r : Str)
    → g < 128
    → val + g * m < 2 ^ 32
    → m * 128 < 2 ^ 32
    → read_var_int_from (suc rounds) val m ((g + 128) ∷ r)
      ≡ read_var_int_from rounds (val + g * m) (m * 128) r
unfolding read_var_int_from
inner_byte rounds g val m r hg fits hm = ground (arith, low_bits (g + 128), top_bit (g + 128))

-- Before a further byte the multiplier has not wrapped.
multiplier_fits : (w val m : ℕ) → 128 ≤ w → val + w * m < 2 ^ 32 → m * 128 < 2 ^ 32
multiplier_fits w val m h fits = omega (arith, mul-le-mul_right m h)

read-groups :
    (k w val m : ℕ) (r : Str)
    → w < 128 ^ suc k
    → val + w * m < 2 ^ 32
    → read_var_int_from (suc k) val m (groups k w ++ r) ≡ ok (val + w * m) r
unfolding groups
read-groups zero w val m r hw fits = last_byte 0 w val m r hw fits
read-groups (suc k) w val m r hw fits = ground (
  arith,
  last_byte (suc k) w val m r,
  split_group w m,
  multiplier_fits w val m,
  inner_byte (suc k) (w % 128) val m (groups k (w / 128) ++ r),
  read-groups k (w / 128) (val + w % 128 * m) (m * 128) r (omega arith),
)

-- `readVarInt` reads back every number below 2^28 that `writeVarInt` wrote, and leaves what follows.
pub read_var_int-write :
    (v : ℕ) (r : Str) → v < 128 ^ 4 → read_var_int (write_var_int v ++ r) ≡ ok v r
unfolding read_var_int write_var_int
read_var_int-write v r h =
    rw (var_int_loop-groups 3 [] v _ h)
      (read-groups 3 v 0 1 r h (omega arith) ∙ ap (λ n. ok n r) (omega arith))
