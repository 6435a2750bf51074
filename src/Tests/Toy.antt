-- ===== src/Tests/Toy.antt =====
-- A machine that stands for ckb-vm in the tests: registers and memory as tables, and a run that
-- makes one system call and then exits with zero.
use ckb_vm_deterministic_sch.Engine.Laws.{
  IsRunner, After, IsBounded, HasWords, IsServing, Returns, IsTotal,
}
use ckb_vm_deterministic_sch.Prelude.{
  ◌^◌, ◌%◌, u64_mod, arith, ℕ, suc, ◌+◌, inl, inr, Bool-cases, Option, none, some, [], ◌∷◌, ltb,
  if◌then◌else◌, length,
}
use ckb_vm_deterministic_sch.Outcome.{Outcome, ok, err, panic, diverge, mem_out_of_bound, Exec}
use ckb_vm_deterministic_sch.Table.{Table, lookup, insert}
use ckb_vm_deterministic_sch.Types.{Bytes}
use ckb_vm_deterministic_sch.Engine.{Engine, Source, v2}

pub record ToyMachine : Type 0 where
  pub registers : Table ℕ
  pub memory : Table ℕ
  pub spent : ℕ

abbrev pub toy_size : ℕ
toy_size = 4096

abbrev pub get_or_zero : Option ℕ → ℕ
get_or_zero none = 0
get_or_zero (some v) = v

-- Cells of any width, at one address each.
abbrev pub read : ℕ → Exec ToyMachine ℕ
read a m =
    (if ltb a toy_size then ok (get_or_zero (lookup a m.memory)) else err mem_out_of_bound, m)

abbrev pub read64 : ℕ → Exec ToyMachine ℕ
read64 a m = (
  if ltb a toy_size then ok (get_or_zero (lookup a m.memory) % u64_mod) else err mem_out_of_bound,
  m,
)

abbrev pub write : ℕ → ℕ → Exec ToyMachine (Unit {0})
write a v m =
    if ltb a toy_size
    then (ok tt, record m { memory = insert a v m.memory })
    else (err mem_out_of_bound, m)

abbrev pub read_all : ℕ → ℕ → Table ℕ → Bytes
read_all a ℕ.zero m = []
read_all a (suc n) m = get_or_zero (lookup a m) ∷ read_all (suc a) n m

abbrev pub write_all : ℕ → Bytes → Table ℕ → Table ℕ
write_all a [] m = m
write_all a (b ∷ bs) m = write_all (suc a) bs (insert a b m)

abbrev pub exit_zero : {A : Type 0} → Outcome A → Outcome ℕ
exit_zero (ok a) = ok 0
exit_zero (err x) = err x
exit_zero panic = panic
exit_zero diverge = diverge

abbrev pub toy : Engine
toy = record {
  Machine = ToyMachine;
  Snapshot = ToyMachine;
  Tracker = Unit {0};
  Metadata = Unit {0};
  Pause = Unit {0};
  new_pause = tt;
  select_version = some v2;
  new_machine = λ _ _. record { registers = []; memory = []; spent = 0 };
  new_tracker = tt;
  register = λ m r. get_or_zero (lookup r m.registers) % 2 ^ 64;
  set_register = λ r v m. record m { registers = insert r v m.registers };
  exit_code = λ m. 0;
  cycles = λ m. m.spent;
  set_cycles = λ c m. record m { spent = c };
  set_max_cycles = λ c m. m;
  set_pause = λ _ m. m;
  add_cycles_no_checking = λ c m. (ok tt, record m { spent = m.spent + c });
  load8 = read;
  load64 = read64;
  load_bytes = λ a n m. (ok (read_all a n m.memory), m);
  store8 = write;
  store64 = write;
  store_bytes = λ a bytes m. (ok tt, record m { memory = write_all a bytes m.memory });
  init_pages = λ a size flags bytes offset m. (ok tt, m);
  executable_freezed = 3;
  memory_size = toy_size;
  bytes_size = 32;
  from_i8 = λ code. code;
  parse_elf = λ bytes m. ok tt;
  load_program_with_metadata = λ bytes meta args m. (ok (length bytes), m);
  mark_program = λ meta piece offset t. (ok tt, t);
  track_pages = λ a size piece offset t. (ok tt, t);
  store_piece = λ source a piece offset size t. (ok (0, 0), t);
  make_snapshot = λ _ m. (ok m, m);
  resume = λ source snapshot t. (ok tt, (t.0, snapshot));
  run = λ handler t. let (r, t') = handler t in (exit_zero r, t');
}

write-Returns : (a v : ℕ) (m : ToyMachine) → Returns (write a v m)
write-Returns a v m = elim (Bool-cases (ltb a toy_size)) [
  | inl fits ↦ rw fits (record { at = tt })
  | inr out ↦ rw out (record { at = tt })
]

read-Returns : (a : ℕ) (m : ToyMachine) → Returns (read a m)
read-Returns a m = elim (Bool-cases (ltb a toy_size)) [
  | inl fits ↦ rw fits (record { at = tt })
  | inr out ↦ rw out (record { at = tt })
]

read64-Returns : (a : ℕ) (m : ToyMachine) → Returns (read64 a m)
read64-Returns a m = elim (Bool-cases (ltb a toy_size)) [
  | inl fits ↦ rw fits (record { at = tt })
  | inr out ↦ rw out (record { at = tt })
]

pub toy-IsTotal : IsTotal toy
toy-IsTotal = record {
  load8 = read-Returns;
  load64 = read64-Returns;
  init_pages = λ a size flags bytes offset m. record { at = tt };
  track_pages = λ a size piece offset t. record { at = tt };
  store_piece = λ source a piece offset size t. record { at = tt };
  store8 = write-Returns;
  store64 = write-Returns;
  load_bytes = λ a n m. record { at = tt };
  store_bytes = λ a bytes m. record { at = tt };
  make_snapshot = λ _ m. record { at = tt };
  parse_elf = λ bytes m. tt;
  load_program_with_metadata = λ bytes meta args m. record { at = tt };
  mark_program = λ meta piece offset t. record { at = tt };
  add_cycles_no_checking = λ c m. record { at = tt };
  resume = λ source snapshot t. record { at = tt };
}

-- A transaction whose program is eight bytes long, and that has no other data.
abbrev pub toy_source : Source
toy_source piece offset size = ok (1 ∷ 2 ∷ 3 ∷ 4 ∷ 5 ∷ 6 ∷ 7 ∷ 8 ∷ [], 8)

abbrev pub idle : ToyMachine
idle = record { registers = []; memory = []; spent = 0 }

pub toy_source-IsServing : IsServing toy_source
toy_source-IsServing piece offset size = tt

pub toy-HasWords : HasWords toy
toy-HasWords = record { load64 = λ a m v h. ground (arith, h) }

pub toy-IsBounded : IsBounded toy
toy-IsBounded = record {
  size = omega arith;
  load8 = λ a m v h. ground (arith, h);
  load64 = λ a m v h. ground (arith, h);
}

exit_zero-After :
    {X A : Type 0} (P Q : X → Type 0) (r : Outcome A × (X × ToyMachine))
    → After P Q r
    → After P Q (exit_zero r.0, r.1)
exit_zero-After P Q (ok a, s) h = h
exit_zero-After P Q (err x, s) h = h
exit_zero-After P Q (panic, s) h = h
exit_zero-After P Q (diverge, s) h = h

pub toy-IsRunner : IsRunner toy
toy-IsRunner = record {
  keeps = λ handler P Q weaken step x m h. exit_zero-After P Q (handler (x, m)) (step x m h);
}
