-- ===== src/Engine/Laws.antt =====
-- What is assumed of the foreign operations: each returns, with a value or an error, and a word is
-- below 2^64.
use ckb_vm_deterministic_sch.Prelude.{Bool, ◌+◌, Option, ◌<◌, ◌≡◌, u64_mod, List, ℕ}
use ckb_vm_deterministic_sch.Outcome.{Exec, ok, Outcome}
use ckb_vm_deterministic_sch.Outcome.Ensures.{IsSettled, Ends, Ends-via}
use ckb_vm_deterministic_sch.Types.{Bytes}
use ckb_vm_deterministic_sch.Types.Piece.{DataPieceId}
use ckb_vm_deterministic_sch.Engine.{Engine, Source}

-- Neither a panic nor an endless loop.
abbrev pub Returns {ℓ} : {S A : Type ℓ} → Outcome A × S → Type 0
Returns r = Ends (λ _ _. Unit {0}) (λ _. Unit {0}) r

-- A source of data that returns, with the data or an error.
abbrev pub IsServing : Source → Type 0
IsServing source = (piece : DataPieceId) (offset size : ℕ) → IsSettled (source piece offset size)

pub record IsTotal (e : Engine) : Type 0 where
  pub store8 : (a v : ℕ) (m : e.Machine) → Returns (e.store8 a v m)
  pub store64 : (a v : ℕ) (m : e.Machine) → Returns (e.store64 a v m)
  pub load8 : (a : ℕ) (m : e.Machine) → Returns (e.load8 a m)
  pub load64 : (a : ℕ) (m : e.Machine) → Returns (e.load64 a m)
  pub init_pages :
      (a size flags : ℕ) (bytes : Option Bytes) (offset : ℕ) (m : e.Machine)
      → Returns (e.init_pages a size flags bytes offset m)
  pub track_pages :
      (a size : ℕ) (piece : DataPieceId) (offset : ℕ) (t : e.Tracker × e.Machine)
      → Returns (e.track_pages a size piece offset t)
  pub store_piece :
      (source : Source) (a : ℕ) (piece : DataPieceId) (offset size : ℕ) (t : e.Tracker × e.Machine)
      → Returns (e.store_piece source a piece offset size t)
  pub load_bytes : (a n : ℕ) (m : e.Machine) → Returns (e.load_bytes a n m)
  pub store_bytes : (a : ℕ) (bytes : Bytes) (m : e.Machine) → Returns (e.store_bytes a bytes m)
  pub make_snapshot : (t : e.Tracker) (m : e.Machine) → Returns (e.make_snapshot t m)
  pub parse_elf : (bytes : Bytes) (m : e.Machine) → IsSettled (e.parse_elf bytes m)
  pub load_program_with_metadata :
      (bytes : Bytes) (meta : e.Metadata) (args : List Bytes) (m : e.Machine)
      → Returns (e.load_program_with_metadata bytes meta args m)
  pub mark_program :
      (meta : e.Metadata) (piece : DataPieceId) (offset : ℕ) (t : e.Tracker × e.Machine)
      → Returns (e.mark_program meta piece offset t)
  pub add_cycles_no_checking : (c : ℕ) (m : e.Machine) → Returns (e.add_cycles_no_checking c m)
  pub resume :
      (source : Source) (snapshot : e.Snapshot) (t : e.Tracker × e.Machine)
      → Returns (e.resume source snapshot t)

-- `load64` gives a `u64`.
pub record HasWords (e : Engine) : Type 0 where
  pub load64 : (a : ℕ) (m : e.Machine) (v : ℕ) → (e.load64 a m).0 ≡ ok v → v < u64_mod

-- No read at or above the end of memory succeeds, and memory ends below 2^64 - 8.
pub record IsBounded (e : Engine) : Type 0 where
  pub size : e.memory_size + 8 < u64_mod
  pub load8 : (a : ℕ) (m : e.Machine) (v : ℕ) → (e.load8 a m).0 ≡ ok v → a < e.memory_size
  pub load64 : (a : ℕ) (m : e.Machine) (v : ℕ) → (e.load64 a m).0 ≡ ok v → a < e.memory_size

pub Returns-via :
    {S T A : Type 0} (r : Outcome A × S) (f : S → T)
    → Returns r
    → Returns {S = T} {A = A} (r.0, f r.1)
Returns-via r f h = Ends-via r f h (λ _ _ _. tt) (λ _ _. tt)

-- `P` after a value, and `Q` after anything else, of what stands beside the machine.
abbrev pub After : {X M A : Type 0} → (X → Type 0) → (X → Type 0) → Outcome A × (X × M) → Type 0
After P Q (ok _, (x, _)) = P x
After P Q (_, (x, _)) = Q x

-- A run calls the handler any number of times, up to its first failure, and reaches what stands
-- beside the machine in no other way.
pub record IsRunner (e : Engine) : Type 1 where
  pub keeps :
      {X : Type 0} (handler : Exec (X × e.Machine) Bool) (P Q : X → Type 0)
      → ((x : X) → P x → Q x)
      → ((x : X) (m : e.Machine) → P x → After P Q (handler (x, m)))
      → (x : X) (m : e.Machine) → P x
      → After P Q (e.run handler (x, m))
