-- ===== src/Scheduler/Instances/Exchange.antt =====
-- The two loops of `ensure_vms_instantiated`: VMs take free places, and then those of others.
use ckb_vm_deterministic_sch.Prelude.{
  ℕ, ◌≤◌, ◌<◌, ◌≡◌, refl, true, false, ◌⊎◌, inl, inr, List, [], ◌∷◌, arith, length, mem, ltb,
  ltb→lt, Bool-cases,
}
use ckb_vm_deterministic_sch.Outcome.Ensures.{
  Ends, Ends-pure, Ends-bind, Ends-bind_gets, Ends-weaken,
}
use ckb_vm_deterministic_sch.Table.{contains}
use ckb_vm_deterministic_sch.Engine.{Engine, Source}
use ckb_vm_deterministic_sch.Engine.Laws.{IsTotal}
use ckb_vm_deterministic_sch.Scheduler.State.{State, max_instantiated_vms}
use ckb_vm_deterministic_sch.Scheduler.Instances.{fill, exchange}
use ckb_vm_deterministic_sch.Scheduler.Instances.Placement.{
  IsPlaced, Moved, Moved-refl, Moved-trans, Left, Came, suspend_vm_lem, resume_vm_lem,
}

-- Distinct VMs that are all suspended, and that are all instantiated.
abbrev pub Asleep : {e : Engine} → State e → List ℕ → Type 0
Asleep s [] = Unit
Asleep s (id ∷ ids) = (contains id s.suspended ≡ true) × (mem id ids ≡ false) × Asleep s ids

abbrev pub Awake : {e : Engine} → State e → List ℕ → Type 0
Awake s [] = Unit
Awake s (id ∷ ids) = (contains id s.instantiated ≡ true) × (mem id ids ≡ false) × Awake s ids

module _ {e : Engine} where
  pub Asleep-mem :
      (s : State e) (l : List ℕ) (k : ℕ)
      → Asleep s l
      → mem k l ≡ true
      → contains k s.suspended ≡ true
  Asleep-mem s [] k a m = cc
  Asleep-mem s (x ∷ l) k a m = ground (arith, Asleep-mem s l k a.2)

  Awake-mem :
      (s : State e) (l : List ℕ) (k : ℕ)
      → Awake s l
      → mem k l ≡ true
      → contains k s.instantiated ≡ true
  Awake-mem s [] k a m = cc
  Awake-mem s (x ∷ l) k a m = ground (arith, Awake-mem s l k a.2)

  Asleep-Came :
      {id : ℕ} {s s' : State e} (l : List ℕ)
      → Came id s s'
      → mem id l ≡ false
      → Asleep s l
      → Asleep s' l
  Asleep-Came [] c m a = tt
  Asleep-Came {id} (x ∷ l) c m a =
      (ground (arith, c.asleep x), a.1, Asleep-Came l c (ground arith) a.2)

  Asleep-Left : {id : ℕ} {s s' : State e} (l : List ℕ) → Left id s s' → Asleep s l → Asleep s' l
  Asleep-Left [] c a = tt
  Asleep-Left (x ∷ l) c a = (c.asleep x a.0, a.1, Asleep-Left l c a.2)

  Awake-Left :
      {id : ℕ} {s s' : State e} (l : List ℕ)
      → Left id s s'
      → mem id l ≡ false
      → Awake s l
      → Awake s' l
  Awake-Left [] c m a = tt
  Awake-Left {id} (x ∷ l) c m a =
      (ground (arith, c.others x), a.1, Awake-Left l c (ground arith) a.2)

  Awake-Came : {id : ℕ} {s s' : State e} (l : List ℕ) → Came id s s' → Awake s l → Awake s' l
  Awake-Came [] c a = tt
  Awake-Came (x ∷ l) c a = (c.others x a.0, a.1, Awake-Came l c a.2)

  -- the end of `fill`
  pub record Filled (l left : List ℕ) (s s' : State e) : Type 0 where
    pub moved : Moved s s'
    pub arrived : (k : ℕ) → mem k l ≡ true → mem k left ≡ false → contains k s'.instantiated ≡ true
    pub kept : (k : ℕ) → contains k s.instantiated ≡ true → contains k s'.instantiated ≡ true
    pub waiting : Asleep s' left
    pub within : (k : ℕ) → mem k left ≡ true → mem k l ≡ true
    pub full : (left ≡ []) ⊎ (max_instantiated_vms ≤ length s'.instantiated)

  -- the end of `exchange`
  pub record Exchanged (victims l : List ℕ) (s s' : State e) : Type 0 where
    pub moved : Moved s s'
    pub arrived : (k : ℕ) → mem k l ≡ true → contains k s'.instantiated ≡ true
    pub kept :
        (k : ℕ)
        → contains k s.instantiated ≡ true
        → mem k victims ≡ false
        → contains k s'.instantiated ≡ true

  fill_step :
      (id : ℕ) (ids left : List ℕ) (s s1 s2 : State e)
      → Came id s s1
      → Filled ids left s1 s2
      → Filled (id ∷ ids) left s s2
  fill_step id ids left s s1 s2 c f = record {
    moved = Moved-trans s s1 s2 c.moved f.moved;
    arrived = λ k m n. ground (arith, c.there, f.kept k, f.arrived k);
    kept = λ k h. f.kept k (c.others k h);
    waiting = f.waiting;
    within = λ k m. ground (arith, f.within k m);
    full = f.full;
  }

  -- One victim has made room for one VM.
  exchange_step :
      (v id : ℕ) (vs ids : List ℕ) (s s1 s2 s3 : State e)
      → IsPlaced s
      → Left v s s1
      → Came id s1 s2
      → contains id s.suspended ≡ true
      → Exchanged vs ids s2 s3
      → mem id vs ≡ false
      → Exchanged (v ∷ vs) (id ∷ ids) s s3
  exchange_step v id vs ids s s1 s2 s3 p l c a x n = record {
    moved = Moved-trans s s1 s3 l.moved (Moved-trans s1 s2 s3 c.moved x.moved);
    arrived = λ k m. ground (arith, x.arrived k, x.kept k, c.there);
    kept = λ k h m. ground (arith, x.kept k, c.others k, l.others k);
  }

  Awake-not-asleep :
      (s : State e) (vs : List ℕ) (id : ℕ)
      → IsPlaced s
      → Awake s vs
      → contains id s.suspended ≡ true
      → mem id vs ≡ false
  Awake-not-asleep s vs id p w a = elim (Bool-cases (mem id vs)) [
    | inl there ↦ ground (arith, Awake-mem s vs id w there, p.apart id)
    | inr absent ↦ absent
  ]

module _ (e : Engine) (source : Source) (t : IsTotal e) where
  pub fill_lem :
      (l : List ℕ) (s : State e)
      → IsPlaced s
      → Asleep s l
      → Ends (λ left s'. Filled l left s s') (λ s'. Moved s s') (fill e source l s)
  unfolding fill
  fill_lem [] s p a = Ends-pure _ _ (record {
    moved = Moved-refl s p;
    arrived = λ k m. cc;
    kept = λ k h. h;
    waiting = tt;
    within = λ k m. m;
    full = inl refl;
  })
  fill_lem (id ∷ ids) s p a =
      Ends-bind_gets _ _ s (elim (Bool-cases (ltb (length s.instantiated) max_instantiated_vms)) [
        | inl room ↦ rw room (
            Ends-bind _ _ s (resume_vm_lem e source t id s p (ltb→lt _ _ room) a.0) λ _ s1 c.
              Ends-weaken _ (fill_lem ids s1 c.moved.placed (Asleep-Came ids c a.1 a.2))
                (λ left s2 f. fill_step id ids left s s1 s2 c f)
                (λ s2 m. Moved-trans s s1 s2 c.moved m))
        | inr full ↦ rw full (
            Ends-pure _ _ (record {
              moved = Moved-refl s p;
              arrived = λ k m n. cc;
              kept = λ k h. h;
              waiting = a;
              within = λ k m. m;
              full = inr (ground arith);
            }))
      ])

  pub exchange_lem :
      (vs l : List ℕ) (s : State e)
      → IsPlaced s
      → Awake s vs
      → Asleep s l
      → length l ≤ length vs
      → Ends (λ _ s'. Exchanged vs l s s') (λ s'. Moved s s') (exchange e source vs l s)
  unfolding exchange
  exchange_lem vs [] s p w a h =
      Ends-pure _ _ (record { moved = Moved-refl s p; arrived = λ k m. cc; kept = λ k i n. i })
  exchange_lem [] (id ∷ l) s p w a h = absurd (omega arith)
  exchange_lem (v ∷ vs) (id ∷ l) s p w a h =
      Ends-bind _ _ s (suspend_vm_lem e t v s p w.0) λ _ s1 lt.
        let m1 = lt.moved in
        let few1 : length s1.instantiated < max_instantiated_vms =
          omega (arith, lt.smaller, p.few) in
        let n = Awake-not-asleep s vs id p w.2 a.0 in
        Ends-bind _ _ s1
          (Ends-weaken _ (resume_vm_lem e source t id s1 m1.placed few1 (lt.asleep id a.0))
            (λ _ s2 c. c) (λ s2 m. Moved-trans s s1 s2 m1 m))
          λ _ s2 c.
            Ends-weaken _
              (exchange_lem vs l s2 c.moved.placed (Awake-Came vs c (Awake-Left vs lt w.1 w.2))
                (Asleep-Came l c a.1 (Asleep-Left l lt a.2)) (omega arith))
              (λ _ s3 x. exchange_step v id vs l s s1 s2 s3 p lt c a.0 x n)
              (λ s3 m. Moved-trans s s1 s3 m1 (Moved-trans s1 s2 s3 c.moved m))
