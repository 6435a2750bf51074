-- ===== src/Scheduler/Instances/Ensure.antt =====
-- `ensure_vms_instantiated` does what its name says.
use ckb_vm_deterministic_sch.Prelude.{
  ℕ, ◌≤◌, ◌≡◌, refl, true, false, not, ◌⊎◌, inl, inr, List, [], ◌∷◌, ◌++◌, reverse, arith, length,
  length-append, length-reverse, mem, keep_if, ltb, Bool-cases,
}
use ckb_vm_deterministic_sch.Prelude.Distinct.{
  IsDistinct, mem-append, mem-reverse, mem-keep_if, keep_if-IsDistinct, append-IsDistinct,
  reverse-IsDistinct, length-le_of_distinct, length-keep_if,
}
use ckb_vm_deterministic_sch.Outcome.Ensures.{
  Ends, Ends-pure, Ends-bind, Ends-bind_gets, Ends-bind_assert, Ends-weaken,
}
use ckb_vm_deterministic_sch.Table.{contains, keys}
use ckb_vm_deterministic_sch.Table.Laws.{mem-keys, length-keys, IsDistinct-keys}
use ckb_vm_deterministic_sch.Engine.{Engine, Source}
use ckb_vm_deterministic_sch.Engine.Laws.{IsTotal}
use ckb_vm_deterministic_sch.Scheduler.State.{State, max_instantiated_vms}
use ckb_vm_deterministic_sch.Scheduler.Instances.{
  make_instances, instantiate, ensure_vms_instantiated,
}
use ckb_vm_deterministic_sch.Scheduler.Instances.Placement.{
  IsPlaced, Moved, Moved-refl, Moved-trans, is_known,
}
use ckb_vm_deterministic_sch.Scheduler.Instances.Exchange.{
  Asleep, Awake, Asleep-mem, fill_lem, exchange_lem,
}

-- The VMs that may be suspended for `ids`.
abbrev suspendable : {e : Engine} → List ℕ → State e → List ℕ
suspendable ids s = keep_if (λ k. not (mem k ids)) (keys s.instantiated)

-- The requested VMs are instantiated, by moves only.
pub record Instantiated {e : Engine} (ids : List ℕ) (s s' : State e) : Type 0 where
  pub moved : Moved s s'
  pub arrived : (k : ℕ) → mem k ids ≡ true → contains k s'.instantiated ≡ true

module _ {e : Engine} where
  Awake-of_distinct :
      (s : State e) (l : List ℕ)
      → IsDistinct l
      → ((k : ℕ) → mem k l ≡ true → contains k s.instantiated ≡ true)
      → Awake s l
  Awake-of_distinct s [] d h = tt
  Awake-of_distinct s (x ∷ l) d h =
      (h x (ground arith), d.0, Awake-of_distinct s l d.1 (λ k m. h k (ground arith)))

  Asleep-of_distinct :
      (s : State e) (l : List ℕ)
      → IsDistinct l
      → ((k : ℕ) → mem k l ≡ true → contains k s.suspended ≡ true)
      → Asleep s l
  Asleep-of_distinct s [] d h = tt
  Asleep-of_distinct s (x ∷ l) d h =
      (h x (ground arith), d.0, Asleep-of_distinct s l d.1 (λ k m. h k (ground arith)))

  Asleep-IsDistinct : (s : State e) (l : List ℕ) → Asleep s l → IsDistinct l
  Asleep-IsDistinct s [] a = tt
  Asleep-IsDistinct s (x ∷ l) a = (a.1, Asleep-IsDistinct s l a.2)

  suspendable-Awake : (s : State e) (ids : List ℕ) → IsPlaced s → Awake s (suspendable ids s)
  suspendable-Awake s ids p =
      Awake-of_distinct s _
        (keep_if-IsDistinct _ (keys s.instantiated) (IsDistinct-keys s.instantiated p.sorted))
        λ k m. ground (
          arith,
          m,
          mem-keep_if k (λ k. not (mem k ids)) (keys s.instantiated),
          mem-keys k s.instantiated,
        )

  -- The assertion of `ensure_vms_instantiated`: there are enough VMs to suspend.
  suspendable-enough :
      (s : State e) (ids left : List ℕ)
      → IsPlaced s
      → Asleep s left
      → ((k : ℕ) → mem k left ≡ true → mem k ids ≡ true)
      → length ids ≤ max_instantiated_vms
      → max_instantiated_vms ≤ length s.instantiated
      → length left ≤ length (suspendable ids s)
  suspendable-enough s ids left p a w few full =
      let requested = keep_if (λ k. mem k ids) (keys s.instantiated) in
      let in_requested = λ (k : ℕ). mem-keep_if k (λ k. mem k ids) (keys s.instantiated) in
      let distinct =
        append-IsDistinct requested left
          (keep_if-IsDistinct _ (keys s.instantiated) (IsDistinct-keys s.instantiated p.sorted))
          (Asleep-IsDistinct s left a)
          (λ k m. ground (
            arith,
            m,
            in_requested k,
            mem-keys k s.instantiated,
            p.apart k,
            Asleep-mem s left k a,
          )) in
      let bound =
        length-le_of_distinct (requested ++ left) ids distinct
          (λ k m. ground (arith, m, mem-append k requested left, in_requested k, w k)) in
      omega (
        arith,
        bound,
        length-append requested left,
        length-keep_if (λ k. mem k ids) (keys s.instantiated),
        length-keys s.instantiated,
      )

module _ (e : Engine) (source : Source) (t : IsTotal e) where
  make_instances_lem :
      (ids left : List ℕ) (s : State e)
      → IsPlaced s
      → Asleep s left
      → ((k : ℕ) → mem k left ≡ true → mem k ids ≡ true)
      → length ids ≤ max_instantiated_vms
      → (left ≡ []) ⊎ (max_instantiated_vms ≤ length s.instantiated)
      → ((k : ℕ) → mem k ids ≡ true → mem k left ≡ false → contains k s.instantiated ≡ true)
      → Ends (λ _ s'. Instantiated ids s s') (λ s'. Moved s s') (make_instances e source ids left s)
  unfolding make_instances
  make_instances_lem ids [] s p a w few full there =
      Ends-pure _ _ (record { moved = Moved-refl s p; arrived = λ k m. there k m refl })
  make_instances_lem ids (id ∷ left) s p a w few (inl none_left) there = cc
  make_instances_lem ids (id ∷ left) s p a w few (inr full) there =
      let enough = suspendable-enough s ids (id ∷ left) p a w few full in
      let flipped =
        Asleep-of_distinct s (reverse (id ∷ left))
          (reverse-IsDistinct (id ∷ left) (Asleep-IsDistinct s (id ∷ left) a))
          (λ k m. Asleep-mem s (id ∷ left) k a (ground (arith, m, mem-reverse k (id ∷ left)))) in
      Ends-bind_gets _ _ s (
        Ends-bind_assert _ _ s (ground (arith, enough)) (
          Ends-weaken _
            (exchange_lem e source t (suspendable ids s) (reverse (id ∷ left)) s p
              (suspendable-Awake s ids p) flipped
              (omega (arith, length-reverse (id ∷ left), enough)))
            (λ _ s' x. record {
              moved = x.moved;
              arrived = λ k m. elim (Bool-cases (mem k (id ∷ left))) [
                | inl waited ↦ x.arrived k (ground (arith, waited, mem-reverse k (id ∷ left)))
                | inr came ↦
                    x.kept k (there k m came) (
                      ground (arith, m, mem-keep_if k (λ k. not (mem k ids)) (keys s.instantiated)))
              ];
            })
            (λ s' m. m)))

  -- Distinct known VMs, four at most, are instantiated: no panic, no lost VM, at most four are
  -- instantiated afterwards, and nothing else changes but the VMs. An error is one of ckb-vm, and
  -- it too loses no VM. Carry says what becomes of the machines and the snapshots.
  pub ensure_vms_instantiated_lem :
      (ids : List ℕ) (s : State e)
      → IsPlaced s
      → IsDistinct ids
      → length ids ≤ max_instantiated_vms
      → ((k : ℕ) → mem k ids ≡ true → is_known k s ≡ true)
      → Ends
          (λ _ s'. Instantiated ids s s')
          (λ s'. Moved s s')
          (ensure_vms_instantiated e source ids s)
  unfolding ensure_vms_instantiated instantiate
  ensure_vms_instantiated_lem ids s p d few known =
      let absent = keep_if (λ k. not (contains k s.instantiated)) ids in
      let in_absent = λ (k : ℕ). mem-keep_if k (λ k. not (contains k s.instantiated)) ids in
      let allowed : ltb max_instantiated_vms (length ids) ≡ false = ground arith in
      let asleep =
        Asleep-of_distinct s (reverse absent)
          (reverse-IsDistinct absent (keep_if-IsDistinct _ ids d))
          (λ k m. ground (arith, m, mem-reverse k absent, in_absent k, known k)) in
      rw allowed (
        Ends-bind_gets _ _ s (
          Ends-bind _ _ s (fill_lem e source t (reverse absent) s p asleep) λ left s1 f.
            Ends-weaken _
              (make_instances_lem ids left s1 f.moved.placed f.waiting
                (λ k m. ground (arith, f.within k m, mem-reverse k absent, in_absent k)) few f.full
                (λ k m n. elim (Bool-cases (contains k s.instantiated)) [
                  | inl old ↦ f.kept k old
                  | inr new ↦
                      f.arrived k (ground (arith, new, m, mem-reverse k absent, in_absent k)) n
                ]))
              (λ _ s2 x. record {
                moved = Moved-trans s s1 s2 f.moved x.moved;
                arrived = x.arrived;
              })
              (λ s2 m. Moved-trans s s1 s2 f.moved m)))
