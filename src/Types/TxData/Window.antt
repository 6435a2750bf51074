-- ===== src/Types/TxData/Window.antt =====
-- What a request for a part of a piece returns.
use ckb_vm_deterministic_sch.Prelude.{
  ℕ, zero, suc, ◌-◌, ◌≤◌, ◌<◌, ◌≡◌, refl, ap, List, [], ◌∷◌, ◌++◌, length, length-take, length-drop,
  take, drop, min, arith,
}
use ckb_vm_deterministic_sch.Outcome.{ok}
use ckb_vm_deterministic_sch.Types.{Bytes}
use ckb_vm_deterministic_sch.Types.Piece.{DataPieceId}
use ckb_vm_deterministic_sch.Types.TxData.{TxData, window, load_data, load_whole}

take-append-drop {ℓ} : {A : Type ℓ} (n : ℕ) (xs : List A) → take n xs ++ drop n xs ≡ xs
take-append-drop zero xs = refl
take-append-drop (suc n) [] = refl
take-append-drop (suc n) (x ∷ xs) = ap (λ r. x ∷ r) (take-append-drop n xs)

take-append-rest {ℓ} :
    {A : Type ℓ} (n : ℕ) (xs : List A) → take n xs ++ drop (length (take n xs)) xs ≡ xs
take-append-rest zero xs = refl
take-append-rest (suc n) [] = refl
take-append-rest (suc n) (x ∷ xs) = ap (λ r. x ∷ r) (take-append-rest n xs)

abbrev pub start_of : ℕ → Bytes → ℕ
start_of offset bytes = min offset (length bytes)

length-window :
    (offset size : ℕ) (bytes : Bytes)
    → (length (window offset size bytes).0 ≤ length bytes - start_of offset bytes)
      × (size ≡ 0 → length (window offset size bytes).0 ≡ (window offset size bytes).1)
      × (0 < size → length (window offset size bytes).0 ≡ min (window offset size bytes).1 size)
unfolding window
length-window offset size bytes =
    let rest = length-drop (start_of offset bytes) bytes in
    let all = length bytes - start_of offset bytes in
    let cut = λ (n : ℕ). length-take n (drop (start_of offset bytes) bytes) in
    ground (arith, rest, cut (min all size), cut all)

window-append :
    (offset size : ℕ) (bytes : Bytes)
    → let part = (window offset size bytes).0 in
      let rest = drop (start_of offset bytes) bytes in part ++ drop (length part) rest ≡ rest
unfolding window
window-append offset size bytes = take-append-rest _ (drop (start_of offset bytes) bytes)

-- The bytes that `load_data` returns stand in the piece right after the offset, nothing is read
-- past the end, and the second result counts what the piece has from the offset on. A length of
-- zero asks for all of it, another length for so many bytes at most.
pub load_data-window :
    {Cell : Type 0} (tx : TxData Cell) (id : DataPieceId) (offset size : ℕ) (bytes : Bytes)
    → load_whole tx id ≡ ok bytes
    → (r : Bytes × ℕ) × (load_data tx id offset size ≡ ok r)
      × (r.1 ≡ length bytes - offset)
      × (take (start_of offset bytes) bytes
            ++ (r.0 ++ drop (length r.0) (drop (start_of offset bytes) bytes))
          ≡ bytes)
      × (size ≡ 0 → length r.0 ≡ r.1)
      × (0 < size → length r.0 ≡ min r.1 size)
unfolding load_data
load_data-window tx id offset size bytes found = (
  window offset size bytes,
  rw (found),
  unfold window in omega arith,
  rw (window-append offset size bytes) (take-append-drop (start_of offset bytes) bytes),
  (length-window offset size bytes).1,
  (length-window offset size bytes).2,
)
