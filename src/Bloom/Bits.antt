-- ===== src/Bloom/Bits.antt =====
-- The bits of one byte, by evaluation at every byte.
use Prim.Native.Nat.{ℕ, ◌^◌, ◌<◌, bit_and, bit_or}
use just_kit.Prelude.{
  all_from, all_from_sound, ◌≡◌, refl, Bool, true, false, ◌||◌, arith, ltb, ltb→lt, ◌==◌,
  if◌then◌else◌,
}

-- Bit `j` of a byte.
abbrev pub bit : ℕ → ℕ → Bool
bit b j = if bit_and b (2 ^ j) == 0 then false else true

same : Bool → Bool → Bool
same true b = b
same false true = false
same false false = true

same→eq : (a b : Bool) → same a b ≡ true → a ≡ b
unfolding same
same→eq true b h = cc
same→eq false true h = cc
same→eq false false h = refl

or_test : ℕ → ℕ → ℕ → Bool
or_test i j b = same (bit (bit_or b (2 ^ i)) j) ((j == i) || bit b j)

or_table : all_from 8 0 (λ i. all_from 8 0 (λ j. all_from 256 0 (or_test i j))) ≡ true
unfolding or_test same
or_table = refl

width_table : all_from 8 0 (λ i. all_from 256 0 (λ b. ltb (bit_or b (2 ^ i)) 256)) ≡ true
width_table = refl

pub bit_or_lem :
    (b i j : ℕ) → b < 256 → i < 8 → j < 8 → bit (bit_or b (2 ^ i)) j ≡ (j == i) || bit b j
unfolding or_test
bit_or_lem b i j p q r =
    let at_i =
      all_from_sound 8 0 (λ i. all_from 8 0 (λ j. all_from 256 0 (or_test i j))) i or_table
        (omega arith) (omega arith) in
    let at_j =
      all_from_sound 8 0 (λ j. all_from 256 0 (or_test i j)) j at_i (omega arith) (omega arith) in
    same→eq _ _ (all_from_sound 256 0 (or_test i j) b at_j (omega arith) (omega arith))

pub bit_or-lt : (b i : ℕ) → b < 256 → i < 8 → bit_or b (2 ^ i) < 256
bit_or-lt b i p q =
    let at_i =
      all_from_sound 8 0 (λ i. all_from 256 0 (λ b. ltb (bit_or b (2 ^ i)) 256)) i width_table
        (omega arith) (omega arith) in
    ltb→lt _ _
      (all_from_sound 256 0 (λ b. ltb (bit_or b (2 ^ i)) 256) b at_i (omega arith) (omega arith))

zero_table : all_from 8 0 (λ j. same (bit 0 j) false) ≡ true
unfolding same
zero_table = refl

pub bit_zero : (j : ℕ) → j < 8 → bit 0 j ≡ false
bit_zero j p =
    same→eq _ _
      (all_from_sound 8 0 (λ j. same (bit 0 j) false) j zero_table (omega arith) (omega arith))
