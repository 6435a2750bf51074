-- ===== src/Tests/Calls.antt =====
-- System calls on the small machine.
use ckb_vm_deterministic_sch.Types.Piece.{try_from, input}
use ckb_vm_deterministic_sch.Table.{lookup}
use ckb_vm_deterministic_sch.Engine.{Engine}
use ckb_vm_deterministic_sch.Tests.Toy.{
  toy-IsTotal, toy-IsBounded, toy_source-IsServing, toy, toy_source, toy-HasWords,
}
use ckb_vm_deterministic_sch.Syscalls.Returns.{ecall-IsSettled, ecall_overflow}
use ckb_vm_deterministic_sch.Outcome.Ensures.{IsSettled}
use ckb_vm_deterministic_sch.Outcome.{panic, err, external}
use ckb_vm_deterministic_sch.Prelude.{refl, arith, ◌^◌, ◌≡◌, ◌⊎◌, [], ◌∷◌, ◌++◌}
use ckb_vm_deterministic_sch.Types.{Message}
use ckb_vm_deterministic_sch.Syscalls.{ecall}
use ckb_vm_deterministic_sch.Syscalls.Access.{Sys}
use ckb_vm_deterministic_sch.Syscalls.Speech.{sender, IsChecked}
use ckb_vm_deterministic_sch.Syscalls.Messages.{ecall-says}

-- VM 3 asks for a pipe.
abbrev asking : Sys toy
asking = (
  record { context = record { id = 3; base_cycles = 50; tracker = tt }; message_box = [] },
  record { registers = (10, 0x40) ∷ (17, 2604) ∷ []; memory = []; spent = 5 },
)

ecall-says_example :
    let after = ecall toy toy_source asking in
    (after.1.0.context.id ≡ asking.0.context.id)
    × ((after.1.0.message_box ≡ asking.0.message_box)
        ⊎ ((msg : Message) × (after.1.0.message_box ≡ asking.0.message_box ++ msg ∷ [])
            × (sender msg ≡ asking.0.context.id)
            × IsChecked msg
            × (after.0 ≡ err (external "YIELD"))))
ecall-says_example = ecall-says toy toy_source toy-HasWords asking

ecall-IsSettled_example : IsSettled (ecall toy toy_source asking).0
unfolding lookup
ecall-IsSettled_example =
    ecall-IsSettled toy toy_source toy-IsTotal toy-IsBounded toy_source-IsServing asking
      (λ _. omega arith)

-- a machine whose vectors take so much room that one argument is too many
abbrev wide : Engine
wide = record toy { bytes_size = 2 ^ 63 }

-- VM 3 spawns the program of the first input, with one argument.
abbrev spawning : Sys wide
spawning = (
  record { context = record { id = 3; base_cycles = 50; tracker = tt }; message_box = [] },
  record { registers = (10, 0) ∷ (11, 1) ∷ (13, 1) ∷ (17, 2601) ∷ []; memory = []; spent = 5 },
)

ecall_overflow_example : (ecall wide toy_source spawning).0 ≡ panic
unfolding lookup try_from
ecall_overflow_example = ecall_overflow wide toy_source spawning (input 0) refl refl (omega arith)
