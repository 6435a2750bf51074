-- ===== src/Syscalls/Text.antt =====
-- The loops of src/syscalls.rs over guest memory: `load_c_string`, the loop of `debug`, the loops
-- over `argv` and `pipes` in `spawn`; and `String::from_utf8` as a test.
use ckb_vm_deterministic_sch.Prelude.{
  ℕ, zero, suc, ◌*◌, ◌-◌, ◌^◌, Bool, ◌&&◌, ◌||◌, List, [], ◌∷◌, ◌==◌, ltb, leb, if◌then◌else◌,
  add64,
}
use ckb_vm_deterministic_sch.Outcome.{Exec, pure, lift, diverge, assert, ◌>>=◌, ◌>>◌}
use ckb_vm_deterministic_sch.Types.{Bytes}
use ckb_vm_deterministic_sch.Engine.{Engine}

module _ (e : Engine) where
  -- Fuel bounds the number of bytes read.
  unfoldable pub read_c_string : ℕ → ℕ → Exec e.Machine Bytes
  read_c_string zero addr = lift diverge
  read_c_string (suc fuel) addr = do
    byte ← e.load8 addr
    let rest = read_c_string fuel (add64 addr 1)
    if byte == 0 then pure [] else do buffer ← rest; pure (byte ∷ buffer)

  -- No read at or above `memory_size` succeeds, so this much fuel is enough.
  unfoldable pub load_c_string : ℕ → Exec e.Machine Bytes
  unfolding read_c_string
  load_c_string addr = read_c_string (suc e.memory_size) addr

  -- `for _ in 0..argc`
  unfoldable pub read_argv : ℕ → ℕ → Exec e.Machine (List Bytes)
  read_argv zero argv_addr = pure []
  read_argv (suc argc) argv_addr = do
    target_addr ← e.load64 argv_addr
    cstr ← load_c_string target_addr
    let rest = read_argv argc (add64 argv_addr 8)
    argv ← rest
    pure (cstr ∷ argv)

  -- `Vec::with_capacity(argc)` panics if the elements would take more than `isize::MAX` bytes.
  unfoldable pub load_argv : ℕ → ℕ → Exec e.Machine (List Bytes)
  unfolding read_argv assert
  load_argv argc argv_addr = do
    assert (leb (argc * e.bytes_size) (2 ^ 63 - 1))
    read_argv argc argv_addr

  -- The `loop` of `spawn` that collects pipe ids up to a zero.
  unfoldable pub read_pipes : ℕ → ℕ → Exec e.Machine (List ℕ)
  read_pipes zero pipes_addr = lift diverge
  read_pipes (suc fuel) pipes_addr = do
    pipe ← e.load64 pipes_addr
    let rest = read_pipes fuel (add64 pipes_addr 8)
    if pipe == 0 then pure [] else do pipes ← rest; pure (pipe ∷ pipes)

  unfoldable pub load_pipes : ℕ → Exec e.Machine (List ℕ)
  unfolding read_pipes
  load_pipes pipes_addr =
      if pipes_addr == 0 then pure [] else read_pipes (suc e.memory_size) pipes_addr

abbrev in_range : ℕ → ℕ → ℕ → Bool
in_range lo hi b = leb lo b && leb b hi

-- After the first byte of a character: how many bytes follow, and the range of the next one.
abbrev followers : ℕ → ℕ
followers b = if ltb b 0x80 then 0 else if ltb b 0xe0 then 1 else if ltb b 0xf0 then 2 else 3

abbrev lowest : ℕ → ℕ
lowest b = if b == 0xe0 then 0xa0 else if b == 0xf0 then 0x90 else 0x80

abbrev highest : ℕ → ℕ
highest b = if b == 0xed then 0x9f else if b == 0xf4 then 0x8f else 0xbf

-- Whether the rest of a text is UTF-8, `n` bytes into a character being due in `lo..=hi`.
unfoldable pub is_utf8_from : ℕ → ℕ → ℕ → Bytes → Bool
is_utf8_from n lo hi [] = n == 0
is_utf8_from zero lo hi (b ∷ bs) =
    (ltb b 0x80 || in_range 0xc2 0xf4 b) && is_utf8_from (followers b) (lowest b) (highest b) bs
is_utf8_from (suc n) lo hi (b ∷ bs) = in_range lo hi b && is_utf8_from n 0x80 0xbf bs

unfoldable pub is_utf8 : Bytes → Bool
unfolding is_utf8_from
is_utf8 bs = is_utf8_from 0 0 0 bs
