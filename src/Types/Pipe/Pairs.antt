-- ===== src/Types/Pipe/Pairs.antt =====
-- The two ends of a pipe are told apart by the lowest bit.
use Prim.Native.Nat.{bit_xor-bitwise, digits, differ}
use ckb_vm_deterministic_sch.Prelude.{
  ℕ, zero, suc, ◌+◌, ◌-◌, ◌*◌, ◌/◌, ◌%◌, ◌≤◌, ◌<◌, ◌≡◌, refl, true, bit_xor, arith, u64_mod,
}
use ckb_vm_deterministic_sch.Types.Pipe.{create, other_pipe, is_read, is_write}

differ-zero : (y : ℕ) → differ y 0 ≡ y
differ-zero zero = refl
differ-zero (suc y) = refl

abbrev xor_digits : ℕ → ℕ → ℕ → ℕ
xor_digits n a b = digits (λ b. b) differ n a b

xor_digits-zero : (n a : ℕ) → a ≤ n → xor_digits n a 0 ≡ a
xor_digits-zero zero zero h = refl
xor_digits-zero zero (suc a) h = absurd (omega arith)
xor_digits-zero (suc n) zero h = refl
xor_digits-zero (suc n) (suc a) h =
    omega (arith, xor_digits-zero n (suc a / 2) (omega arith), differ-zero (suc a % 2))

differ-one : (y : ℕ) → y < 2 → differ y 1 ≡ 1 - y
differ-one zero h = refl
differ-one (suc zero) h = refl
differ-one (suc (suc y)) h = absurd (omega arith)

bit_xor-one : (a : ℕ) → bit_xor a 1 ≡ a / 2 * 2 + (1 - a % 2)
bit_xor-one zero = refl
bit_xor-one (suc a) = omega (
  arith,
  bit_xor-bitwise (suc a) 1,
  xor_digits-zero a (suc a / 2) (omega arith),
  differ-one (suc a % 2) (omega arith),
)

-- The other end: the odd neighbour of an even id, the even neighbour of an odd one.
pub other_pipe_lem : (pipe : ℕ) → other_pipe pipe ≡ pipe / 2 * 2 + (1 - pipe % 2)
unfolding other_pipe
other_pipe_lem pipe = bit_xor-one pipe

-- The other end's other end is the pipe itself, and reads where the pipe writes.
pub other_pipe-involution :
    (pipe : ℕ)
    → (other_pipe (other_pipe pipe) ≡ pipe)
      × (is_read (other_pipe pipe) ≡ is_write pipe)
      × (is_write (other_pipe pipe) ≡ is_read pipe)
unfolding is_read is_write
other_pipe-involution pipe = (
  omega (arith, other_pipe_lem (other_pipe pipe), other_pipe_lem pipe),
  ground (arith, other_pipe_lem pipe),
  ground (arith, other_pipe_lem pipe),
)

-- At an even slot below the end of `u64`, `create` makes a read end and a write end that are each
-- other's other end, and moves on to the next even slot, above both.
pub create_lem :
    (slot : ℕ)
    → slot % 2 ≡ 0
    → slot + 2 < u64_mod
    → (is_read (create slot).0 ≡ true)
      × (is_write (create slot).1 ≡ true)
      × (other_pipe (create slot).0 ≡ (create slot).1)
      × (other_pipe (create slot).1 ≡ (create slot).0)
      × ((create slot).2 % 2 ≡ 0)
      × ((create slot).0 < (create slot).2)
      × ((create slot).1 < (create slot).2)
unfolding create is_read is_write
create_lem slot h fits = (
  ground arith,
  ground arith,
  omega (arith, other_pipe_lem slot),
  omega (arith, other_pipe_lem ((slot + 1) % u64_mod)),
  omega arith,
  omega arith,
  omega arith,
)
