-- ===== src/DevUtils/Graph/Drafted.antt =====
-- The loop over the writes in `generate_data_graph`: after each write its pipe is made, and passed down
-- to both its ends.
use ckb_vm_deterministic_sch.Prelude.{
  ap, ◌∙◌, sym, ◌+◌, ◌*◌, ◌∷◌, ◌++◌, ◌≤◌, ◌<◌, ◌≡◌, ◌⊎◌, inl, inr, refl, ℕ, true, List, [], some,
  length, length-append, get_elem?, arith, subst, Among, Among-append_end,
}
use ckb_vm_deterministic_sch.Table.{Table, lookup, insert, contains}
use ckb_vm_deterministic_sch.Table.Laws.{lookup-insert, IsSorted, insert-IsSorted}
use ckb_vm_deterministic_sch.DevUtils.Graph.Foreign.{Rng}
use ckb_vm_deterministic_sch.DevUtils.Graph.Plan.{WriteOp, Drafts, pipe_list}
use ckb_vm_deterministic_sch.DevUtils.Graph.Down.{Passes, Handed, Handed-mono, IsPassed}
use ckb_vm_deterministic_sch.DevUtils.Graph.Owned.{AreEnds, pipe_ids}
use ckb_vm_deterministic_sch.Types.{Bytes}
use ckb_vm_deterministic_sch.DevUtils.Graph.Made.{
  Makes, Holds, Holds-mono, Makes-mono, Makes-new, length-pipe_list-insert,
}

-- The pipes of the edges, each edge's in the order of `pipe_ids`.
abbrev pub edge_pipes : List ℕ → List ℕ
edge_pipes [] = []
edge_pipes (e ∷ edges) = (e * 2) ∷ (e * 2 + 1) ∷ edge_pipes edges

module _ {r : Rng} (es : List (ℕ × ℕ)) where
  -- What one write has got.
  pub record IsSupplied (s : Drafts r) (w : WriteOp) : Type 0 where
    pub writer : Holds es s.spawn_ops s.pipes_ops w.from_pipe w.from
    pub reader : Holds es s.spawn_ops s.pipes_ops w.to_pipe w.to
    pub maker : ℕ
    pub made : Makes s.pipes_ops maker (w.to_pipe, w.from_pipe)
    pub ends : AreEnds (length es) w.from w.to
    pub sized : (1 ≤ length w.content) × (length w.content ≤ 1024)

  -- After the writes over the edges of `done`.
  pub record IsDrafted (done : List ℕ) (s : Drafts r) : Type 0 where
    pub listed : (e : ℕ) → e < length es → contains e s.spawn_ops ≡ true
    pub vms : (n : ℕ) → n ≤ length es → contains n s.pipes_ops ≡ true
    pub sorted : IsSorted s.pipes_ops
    pub passers :
        (e p m pipe : ℕ)
        → get_elem? es e ≡ some (p, m)
        → Passes s.spawn_ops e pipe
        → Holds es s.spawn_ops s.pipes_ops pipe p
    pub supplied : (w : WriteOp) → Among w s.writes → IsSupplied s w
    pub ids : pipe_ids s.writes ≡ edge_pipes done
    pub count : length (pipe_list s.pipes_ops) ≡ length s.writes

pipe_ids-append :
    (ws : List WriteOp) (w : WriteOp)
    → pipe_ids (ws ++ w ∷ []) ≡ pipe_ids ws ++ w.to_pipe ∷ w.from_pipe ∷ []
pipe_ids-append [] w = refl
pipe_ids-append (v ∷ ws) w = ap (λ l. v.to_pipe ∷ v.from_pipe ∷ l) (pipe_ids-append ws w)

edge_pipes-append :
    (edges : List ℕ) (e : ℕ)
    → edge_pipes (edges ++ e ∷ []) ≡ edge_pipes edges ++ (e * 2) ∷ (e * 2 + 1) ∷ []
edge_pipes-append [] e = refl
edge_pipes-append (x ∷ edges) e = ap (λ l. (x * 2) ∷ (x * 2 + 1) ∷ l) (edge_pipes-append edges e)

abbrev pub edge_write : ℕ → ℕ → ℕ → Bytes → WriteOp
edge_write e writer reader content = record {
  from = writer;
  from_pipe = e * 2 + 1;
  to = reader;
  to_pipe = e * 2;
  content = content;
}

-- One write: its pipe is passed down from `ancestor` to the writer, and then to the reader.
module _ {r : Rng} {es : List (ℕ × ℕ)} (s : Drafts r) (done : List ℕ) (e writer reader ancestor : ℕ)
    (content : Bytes) (ops1 ops2 : Table (List ℕ)) (pairs : List (ℕ × ℕ))
    (drafted : IsDrafted es done s)
    (first : IsPassed es s.spawn_ops ops1 ancestor (e * 2 + 1) writer)
    (second : IsPassed es ops1 ops2 ancestor (e * 2) reader)
    (there : lookup ancestor s.pipes_ops ≡ some pairs) (ends : AreEnds (length es) writer reader)
    (sized : (1 ≤ length content) × (length content ≤ 1024)) where
  abbrev write_op : WriteOp
  write_op = edge_write e writer reader content

  abbrev pair : ℕ × ℕ
  pair = (e * 2, e * 2 + 1)

  abbrev drafts : Drafts r
  drafts = record {
    rng = s.rng;
    spawn_ops = ops2;
    pipes_ops = insert ancestor (pairs ++ pair ∷ []) s.pipes_ops;
    writes = s.writes ++ write_op ∷ [];
  }

  Passes-grown : (k q : ℕ) → Passes s.spawn_ops k q → Passes ops2 k q
  Passes-grown k q h = second.grown k q (first.grown k q h)

  Holds-kept :
      (q n : ℕ)
      → Holds es s.spawn_ops s.pipes_ops q n
      → Holds es drafts.spawn_ops drafts.pipes_ops q n
  Holds-kept q n h = Holds-mono Passes-grown (Makes-mono s.pipes_ops ancestor pairs pair there) h

  Holds-new :
      (q n : ℕ)
      → Handed es ops2 q n ancestor
      → (pair.0 ≡ q) ⊎ (pair.1 ≡ q)
      → Holds es drafts.spawn_ops drafts.pipes_ops q n
  Holds-new q n handed mine = record {
    ancestor = ancestor;
    pair = pair;
    handed = handed;
    in_pair = mine;
    made_there = Makes-new s.pipes_ops ancestor pairs pair;
  }

  handed_writer : Handed es ops2 (e * 2 + 1) writer ancestor
  handed_writer = Handed-mono second.grown first.handed

  passers-drafts :
      (k p m pipe : ℕ)
      → get_elem? es k ≡ some (p, m)
      → Passes ops2 k pipe
      → Holds es drafts.spawn_ops drafts.pipes_ops pipe p
  passers-drafts k p m pipe edge passed = elim (second.only k pipe passed) [
    | inr (q, handed) ↦
        Holds-new pipe p (subst (λ x. Handed es ops2 x p ancestor) (sym q) (handed p m edge))
          (inl (sym q))
    | inl old ↦ elim (first.only k pipe old) [
      | inl older ↦ Holds-kept pipe p (drafted.passers k p m pipe edge older)
      | inr (q, handed) ↦
          Holds-new pipe p
            (subst (λ x. Handed es ops2 x p ancestor) (sym q)
              (Handed-mono second.grown (handed p m edge)))
            (inr (sym q))
    ]
  ]

  drafts-IsSupplied : (w : WriteOp) → Among w drafts.writes → IsSupplied es drafts w
  drafts-IsSupplied w i = elim (Among-append_end w write_op s.writes i) [
    | inl old ↦
        let h = drafted.supplied w old in
        record {
          writer = Holds-kept w.from_pipe w.from h.writer;
          reader = Holds-kept w.to_pipe w.to h.reader;
          maker = h.maker;
          made =
              Makes-mono s.pipes_ops ancestor pairs pair there h.maker (w.to_pipe, w.from_pipe)
                h.made;
          ends = h.ends;
          sized = h.sized;
        }
    | inr new ↦ subst (IsSupplied es drafts) (sym new) (record {
      writer = Holds-new (e * 2 + 1) writer handed_writer (inr refl);
      reader = Holds-new (e * 2) reader second.handed (inl refl);
      maker = ancestor;
      made = Makes-new s.pipes_ops ancestor pairs pair;
      ends = ends;
      sized = sized;
    })
  ]

  pub IsDrafted-suc : IsDrafted es (done ++ e ∷ []) drafts
  IsDrafted-suc = record {
    listed = λ k l. second.kept k (first.kept k (drafted.listed k l));
    vms = λ n l.
        ground (arith, drafted.vms n, lookup-insert ancestor n (pairs ++ pair ∷ []) s.pipes_ops);
    sorted = insert-IsSorted ancestor (pairs ++ pair ∷ []) s.pipes_ops drafted.sorted;
    passers = passers-drafts;
    supplied = drafts-IsSupplied;
    ids =
        pipe_ids-append s.writes write_op
        ∙ ap (λ l. l ++ (e * 2) ∷ (e * 2 + 1) ∷ []) drafted.ids
        ∙ sym (edge_pipes-append done e);
    count = omega (
      arith,
      drafted.count,
      length-append s.writes (write_op ∷ []),
      length-pipe_list-insert 0 ancestor pairs (pairs ++ pair ∷ []) s.pipes_ops drafted.sorted there
          (omega (arith, length-append pairs (pair ∷ []))),
    );
  }

-- The loop does not look at the generator.
IsDrafted-rng :
    {r : Rng} {es : List (ℕ × ℕ)} {done : List ℕ} (s : Drafts r) (g : r.Gen)
    → IsDrafted es done s
    → IsDrafted es done (record s { rng = g })
IsDrafted-rng s g h = record {
  listed = h.listed;
  vms = h.vms;
  sorted = h.sorted;
  passers = h.passers;
  supplied = λ w i.
      let old = h.supplied w i in
      record {
        writer = old.writer;
        reader = old.reader;
        maker = old.maker;
        made = old.made;
        ends = old.ends;
        sized = old.sized;
      };
  ids = h.ids;
  count = h.count;
}

pub IsDrafted-redrawn :
    {r : Rng} {es : List (ℕ × ℕ)} {done : List ℕ} (s s' : Drafts r)
    → s' ≡ record s { rng = s'.rng }
    → IsDrafted es done s
    → IsDrafted es done s'
IsDrafted-redrawn {r} {es} {done} s s' e h =
    subst (IsDrafted es done) (sym e) (IsDrafted-rng s s'.rng h)
