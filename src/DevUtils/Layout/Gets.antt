-- ===== src/DevUtils/Layout/Gets.antt =====
-- `get` of a written vector gives back its items.
use mathlib.Core.List.{append_assoc, append-nil}
use ckb_vm_deterministic_sch.Prelude.{
  ℕ, zero, suc, ◌+◌, ◌^◌, ◌≤◌, ◌<◌, ◌≡◌, refl, sym, ap, subst, ◌∙◌, none, some, List, [], ◌∷◌, ◌++◌,
  ◌==◌, leb, sub64, length, get_elem?, arith, length-append, Option-cases, inl, inr,
}
use ckb_vm_deterministic_sch.Types.{Bytes}
use ckb_vm_deterministic_sch.DevUtils.Layout.{Numbers, fine, number_at}
use ckb_vm_deterministic_sch.DevUtils.Layout.Fields.{
  fixvec_item, fixvec_get, offset_count, dynvec_item, dynvec_get,
}
use ckb_vm_deterministic_sch.DevUtils.Layout.Build.{
  concat, expected_parts, pack, build_fixvec, build_table, build_dynvec,
}
use ckb_vm_deterministic_sch.DevUtils.Layout.Written.{
  IsCodec, Yields, Yields-bind, Yields-then, Yields-else, slice_at-part, length-concat, length-pack,
  unpack-part,
}
use ckb_vm_deterministic_sch.DevUtils.Layout.Trips.{dynvec_some}
use ckb_vm_deterministic_sch.DevUtils.Layout.Passes.{AllSized, sum-sized}
use ckb_vm_deterministic_sch.DevUtils.Layout.Parts.{
  concat-append, here, offset_at, offset_after, count-cons, count-built, last_slice, ahead,
  parts_split, length-ahead,
}

pub get_elem?-none : {A : Type 0} (l : List A) (i : ℕ) → get_elem? l i ≡ none → length l ≤ i
get_elem?-none [] i h = omega arith
get_elem?-none (x ∷ l) zero h = cc
get_elem?-none (x ∷ l) (suc i) h = omega (arith, get_elem?-none l i h)

-- An item, with what stands before and after it.
record Found {A : Type 0} (l : List A) (i : ℕ) (x : A) : Type 0 where
  before : List A
  after : List A
  split : l ≡ before ++ x ∷ after
  at : length before ≡ i

get_elem?-Found : {A : Type 0} (l : List A) (i : ℕ) (x : A) → get_elem? l i ≡ some x → Found l i x
get_elem?-Found [] i x h = cc
get_elem?-Found (y ∷ l) zero x h =
    let same : y ≡ x = cc in
    record { before = []; after = l; split = ap (λ z. z ∷ l) same; at = refl }
get_elem?-Found (y ∷ l) (suc i) x h =
    let f = get_elem?-Found l i x h in
    record {
      before = y ∷ f.before;
      after = f.after;
      split = ap (λ m. y ∷ m) f.split;
      at = ap suc f.at;
    }

AllSized-split :
    (n : ℕ) (before : List Bytes) (x : Bytes) (after : List Bytes)
    → AllSized n (before ++ x ∷ after)
    → AllSized n before × (length x ≡ n)
AllSized-split n [] x after h = (tt, h.0)
AllSized-split n (b ∷ before) x after h =
    let rest = AllSized-split n before x after h.1 in ((h.0, rest.0), rest.1)

module _ (num : Numbers) (codec : IsCodec num) where
  dynvec_item-built :
      (before : List Bytes) (x : Bytes) (after : List Bytes)
      → expected_parts (before ++ x ∷ after) < 2 ^ 32
      → Yields (dynvec_item num (length before) (build_table num (before ++ x ∷ after))) x
  unfolding dynvec_item expected_parts
  dynvec_item-built before x [] fits =
      let items = before ++ x ∷ [] in
      let built = build_table num items in
      let start = here num codec before (x ∷ []) in
      Yields-bind _ _ start
        (subst (λ p. Yields (number_at num p built) start) (omega arith)
          (offset_at num codec before x [] fits))
        (Yields-bind _ _ (length items) (count-built num codec before x [] fits) (
          Yields-then (length before == sub64 (length items) 1) _ _
            (ground (arith, fits, length-append before (x ∷ []))) (last_slice num codec before x)))
  dynvec_item-built before x (y ∷ after) fits =
      let parts = x ∷ y ∷ after in
      let items = before ++ parts in
      let built = build_table num items in
      let start = here num codec before parts in
      Yields-bind _ _ start
        (subst (λ p. Yields (number_at num p built) start) (omega arith)
          (offset_at num codec before x (y ∷ after) fits))
        (Yields-bind _ _ (length items) (count-built num codec before x (y ∷ after) fits) (
          Yields-else (length before == sub64 (length items) 1) _ _
            (ground (arith, fits, length-append before parts))
            (Yields-bind _ _ (start + length x)
              (subst (λ p. Yields (number_at num p built) (start + length x)) (omega arith)
                (offset_after num codec before x y after fits))
              (slice_at-part _ _ (ahead num codec before parts) x (concat (y ∷ after)) _
                (parts_split num codec before parts) (length-ahead num codec before parts) refl))))

  dynvec_get-nonempty :
      (z : Bytes) (zs : List Bytes) (i : ℕ)
      → expected_parts (z ∷ zs) < 2 ^ 32
      → Yields (dynvec_get num i (build_table num (z ∷ zs))) (get_elem? (z ∷ zs) i)
  unfolding dynvec_get
  dynvec_get-nonempty z zs i fits =
      Yields-bind _ _ (length (z ∷ zs)) (count-cons num codec z zs fits)
        (elim (Option-cases (get_elem? (z ∷ zs) i)) [
          | inl out ↦
              Yields-then (leb (length (z ∷ zs)) i) _ _
                (ground (arith, get_elem?-none (z ∷ zs) i out)) (record { at = ap fine (sym out) })
          | inr (x, found) ↦
              let f = get_elem?-Found (z ∷ zs) i x found in
              let item =
                dynvec_item-built f.before x f.after
                  (subst (λ l. expected_parts l < 2 ^ 32) f.split fits) in
              Yields-else (leb (length (z ∷ zs)) i) _ _
                (ground (arith, ap length f.split, length-append f.before (x ∷ f.after), f.at))
                (Yields-bind _ _ x
                  (subst (λ k. Yields (dynvec_item num k (build_table num (z ∷ zs))) x) f.at
                    (subst (λ l. Yields (dynvec_item num (length f.before) (build_table num l)) x)
                      (sym f.split) item))
                  (record { at = ap fine (sym found) }))
        ])

  get_empty : (i : ℕ) → Yields (dynvec_get num i (pack num 4)) none
  unfolding dynvec_get offset_count
  get_empty i =
      Yields-bind _ _ 0
        (Yields-bind _ _ 4
          (unpack-part num codec 4 [] (pack num 4) (sym (append-nil (pack num 4))) (omega arith))
          (record { at = refl }))
        (Yields-then (leb 0 i) _ _ (ground arith) (record { at = refl }))

  -- The items of a written vector are those that it was written from, and there is none past its end.
  pub dynvec_get-built :
      (items : List Bytes) (i : ℕ)
      → expected_parts items < 2 ^ 32
      → Yields (dynvec_get num i (build_dynvec num items)) (get_elem? items i)
  unfolding build_dynvec
  dynvec_get-built [] i fits = get_empty i
  dynvec_get-built (z ∷ zs) i fits =
      subst (λ b. Yields (dynvec_get num i b) (get_elem? (z ∷ zs) i))
        (sym (dynvec_some num codec z zs)) (dynvec_get-nonempty z zs i fits)

  fixvec_item-built :
      (n : ℕ) (before : List Bytes) (x : Bytes) (after : List Bytes)
      → AllSized n (before ++ x ∷ after)
      → Yields (fixvec_item n (length before) (build_fixvec num (before ++ x ∷ after))) x
  unfolding fixvec_item build_fixvec
  fixvec_item-built n before x after sized =
      let head = pack num (length (before ++ x ∷ after)) in
      let sizes = AllSized-split n before x after sized in
      slice_at-part _ _ (head ++ concat before) x (concat after) _
        (ap (λ b. head ++ b) (concat-append before (x ∷ after))
          ∙ sym (append_assoc head (concat before) (concat (x ∷ after))))
        (omega (
          arith,
          length-append head (concat before),
          length-pack num codec (length (before ++ x ∷ after)),
          length-concat before,
          sum-sized n before sizes.0,
        ))
        (omega (arith, sizes.1))

  -- The same of a vector of items of a fixed size.
  pub fixvec_get-built :
      (item_size : ℕ) (items : List Bytes) (i : ℕ)
      → AllSized item_size items
      → length items < 2 ^ 32
      → Yields (fixvec_get num item_size i (build_fixvec num items)) (get_elem? items i)
  unfolding fixvec_get build_fixvec
  fixvec_get-built item_size items i sized fits =
      Yields-bind _ _ (length items)
        (unpack-part num codec (length items) (concat items) _ refl fits)
        (elim (Option-cases (get_elem? items i)) [
          | inl out ↦
              Yields-then (leb (length items) i) _ _ (ground (arith, get_elem?-none items i out))
                (record { at = ap fine (sym out) })
          | inr (x, found) ↦
              let f = get_elem?-Found items i x found in
              Yields-else (leb (length items) i) _ _
                (ground (arith, ap length f.split, length-append f.before (x ∷ f.after), f.at))
                (Yields-bind _ _ x
                  (subst (λ k. Yields (fixvec_item item_size k (build_fixvec num items)) x) f.at
                    (subst
                      (λ l. Yields (fixvec_item item_size (length f.before) (build_fixvec num l)) x)
                      (sym f.split)
                      (fixvec_item-built item_size f.before x f.after
                        (subst (AllSized item_size) f.split sized))))
                  (record { at = ap fine (sym found) }))
        ])
