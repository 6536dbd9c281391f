-- ===== src/Ethercat/Pdo/Words.antt =====
-- Words in the byte arrays of src/Ethercat_setting.cpp.
use franka_kistar_r_exp_gwb.Common.{
  ℕ, ◌+◌, ◌*◌, ◌-◌, ◌/◌, ◌%◌, ◌≡◌, ◌&&◌, Array, arith, update, for_range_inv, ltb, leb, ◌==◌,
  if◌then◌else◌,
}
use franka_kistar_r_exp_gwb.Common.Int.{ℤ, pos, negsuc, ◌≤ℤ◌}
use franka_kistar_r_exp_gwb.Ethercat.Pdo.{word, set_word, to_uint16, to_int16, copy_to}

split_word : (v : ℕ) → v % 256 + 256 * (v / 256 % 256) ≡ v % 65536
split_word v = omega arith

-- Writing a word changes that word only.
pub word-set_word :
    (k v j : ℕ) (b : Array ℕ) → word (set_word k v b) j ≡ (if j == k then v % 65536 else word b j)
word-set_word k v j b = ground (arith, split_word v)

-- An `int16_t` survives the way through its bit pattern.
pub to_int16-to_uint16 : (z : ℤ) → negsuc 32767 ≤ℤ z → z ≤ℤ pos 32767 → to_int16 (to_uint16 z) ≡ z
to_int16-to_uint16 (pos n) lo hi = ground arith
to_int16-to_uint16 (negsuc n) lo hi = ground arith

pub copy_to_lem :
    {A : Type 0} (n offset : ℕ) (src dst : Array A) (k : ℕ)
    → copy_to n offset src dst k
      ≡ (if leb offset k && ltb k (offset + n) then src (k - offset) else dst k)
unfolding copy_to
copy_to_lem n offset src dst k =
    for_range_inv (λ i d. update d (offset + i) (src i))
      (λ i d. d k ≡ (if leb offset k && ltb k (offset + i) then src (k - offset) else dst k)) n 0 n
      dst (ground arith) (λ i d h. ground arith) (omega arith)
