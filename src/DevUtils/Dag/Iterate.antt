-- ===== src/DevUtils/Dag/Iterate.antt =====
-- The iterators over the vectors of src/dev_utils/dag.rs: `into_iter`, and `next` until its end.
use ckb_vm_deterministic_sch.Prelude.{
  ℕ, zero, suc, ◌+◌, ◌^◌, ◌≤◌, ◌<◌, ◌≡◌, refl, ap, sym, ◌∙◌, subst, inl, inr, Option, none, some,
  List, [], ◌∷◌, leb, if◌then◌else◌, length, get_elem?, arith, leb→le, Bool, true, false, ◌⊎◌,
  get_elem?-lt,
}
use ckb_vm_deterministic_sch.Types.{Bytes}
use ckb_vm_deterministic_sch.DevUtils.Layout.{Numbers, Check, fine, refuse, crash, ◌>>=◌, unpack}
use ckb_vm_deterministic_sch.DevUtils.Layout.Fields.{
  fixvec_item, fixvec_get, offset_count, dynvec_item, dynvec_get,
}
use ckb_vm_deterministic_sch.DevUtils.Layout.Build.{expected_parts, build_fixvec, build_dynvec}
use ckb_vm_deterministic_sch.DevUtils.Layout.Written.{IsCodec, Yields}
use ckb_vm_deterministic_sch.DevUtils.Layout.Passes.{AllSized}
use ckb_vm_deterministic_sch.DevUtils.Layout.Gets.{
  get_elem?-none, dynvec_get-built, fixvec_get-built,
}

-- the items from an index on, so many
unfoldable pub next_items : (ℕ → Check Bytes) → ℕ → ℕ → Check (List Bytes)
next_items item zero idx = fine []
next_items item (suc left) idx =
    item idx >>= λ x. next_items item left (suc idx) >>= λ xs. fine (x ∷ xs)

abbrev pub iterated : Check ℕ → (ℕ → Check Bytes) → Check (List Bytes)
iterated count item = count >>= λ len. next_items item len 0

module _ (num : Numbers) where
  unfoldable pub pipe_indices_iter : Bytes → Check (List Bytes)
  pipe_indices_iter slice = iterated (unpack num slice) (λ i. fixvec_item 8 i slice)

  unfoldable pub bytes_iter : Bytes → Check (List Bytes)
  bytes_iter slice = iterated (unpack num slice) (λ i. fixvec_item 1 i slice)

  unfoldable pub pipes_iter : Bytes → Check (List Bytes)
  pipes_iter slice = iterated (offset_count num slice) (λ i. dynvec_item num i slice)

  unfoldable pub writes_iter : Bytes → Check (List Bytes)
  writes_iter slice = iterated (offset_count num slice) (λ i. dynvec_item num i slice)

  unfoldable pub spawns_iter : Bytes → Check (List Bytes)
  spawns_iter slice = iterated (offset_count num slice) (λ i. dynvec_item num i slice)

-- `get` of a vector, of its length and of an access that does not check the index
abbrev got : Check ℕ → (ℕ → Check Bytes) → ℕ → Check (Option Bytes)
got count item i = count >>= λ len. if leb len i then fine none else item i >>= λ x. fine (some x)

checked :
    (past : Bool) (c : Check Bytes) (o : Option Bytes)
    → (if past then fine none else c >>= λ x. fine (some x)) ≡ fine o
    → ((past ≡ true) × (o ≡ none)) ⊎ ((x : Bytes) × (c ≡ fine x) × (o ≡ some x))
checked true c o h = inl (refl, (cc))
checked false (fine x) o h = inr (x, refl, (cc))
checked false (refuse e) o h = absurd (cc)
checked false crash o h = absurd (cc)

module _ (item : ℕ → Check Bytes) where
  next_items-all :
      (items : List Bytes) (idx : ℕ)
      → ((i : ℕ) (x : Bytes) → get_elem? items i ≡ some x → item (idx + i) ≡ fine x)
      → next_items item (length items) idx ≡ fine items
  unfolding next_items
  next_items-all [] idx h = refl
  next_items-all (x ∷ items) idx h =
      let first : item idx ≡ fine x = subst (λ k. item k ≡ fine x) (omega arith) (h 0 x refl) in
      let rest =
        next_items-all items (suc idx)
          (λ i y found. subst (λ k. item k ≡ fine y) (omega arith) (h (suc i) y found)) in
      rw (first, rest) refl

  got-item :
      (len i : ℕ) (o : Option Bytes)
      → got (fine len) item i ≡ fine o
      → ((leb len i ≡ true) × (o ≡ none)) ⊎ ((x : Bytes) × (item i ≡ fine x) × (o ≡ some x))
  got-item len i o h = checked (leb len i) (item i) o h

  iterated_lem :
      (count : Check ℕ) (items : List Bytes)
      → ((i : ℕ) → got count item i ≡ fine (get_elem? items i))
      → iterated count item ≡ fine items
  iterated_lem (refuse x) items h = absurd (let e = h 0 in cc)
  iterated_lem crash items h = absurd (let e = h 0 in cc)
  iterated_lem (fine len) items h =
      let long : length items ≤ len = elim (got-item len len _ (h len)) [
        | inl (past, nothing) ↦ get_elem?-none items len nothing
        | inr (x, found, there) ↦ absurd (let e = h len in ground arith)
      ] in
      let short : len ≤ length items = elim (got-item len (length items) _ (h (length items))) [
        | inl (past, nothing) ↦ leb→le len (length items) past
        | inr (x, found, there) ↦ absurd (omega (arith, get_elem?-lt items (length items) there))
      ] in
      let sized : length items ≡ len = omega arith in
      rw (sym sized) (
        next_items-all items 0 (λ i x found. elim (got-item len i _ (h i)) [
          | inl (past, nothing) ↦ absurd (cc)
          | inr (y, item_eq, there) ↦
              let same : y ≡ x = cc in
              subst (λ k. item k ≡ fine x) (omega arith) (item_eq ∙ ap fine same)
        ]))

module _ (num : Numbers) (codec : IsCodec num) where
  -- An iterator over a written vector yields the items that it was written from, in their order.
  pub pipe_indices_iter-built :
      (items : List Bytes)
      → AllSized 8 items
      → length items < 2 ^ 32
      → Yields (pipe_indices_iter num (build_fixvec num items)) items
  unfolding pipe_indices_iter fixvec_get
  pipe_indices_iter-built items sized fits = record {
    at = iterated_lem _ _ items (λ i. (fixvec_get-built num codec 8 items i sized fits).at);
  }

  pub dynvec_iter-built :
      (items : List Bytes)
      → expected_parts items < 2 ^ 32
      → Yields (pipes_iter num (build_dynvec num items)) items
        × Yields (writes_iter num (build_dynvec num items)) items
        × Yields (spawns_iter num (build_dynvec num items)) items
  unfolding pipes_iter writes_iter spawns_iter dynvec_get
  dynvec_iter-built items fits =
      let all = iterated_lem _ _ items (λ i. (dynvec_get-built num codec items i fits).at) in
      (record { at = all }, record { at = all }, record { at = all })
