-- ===== src/DevUtils/Dag/Trips.antt =====
-- A graph that the builders write passes its check, and the accessors give back what it was written
-- from.
use ckb_vm_deterministic_sch.DevUtils.Dag.{
  expected_pipe, data_parts, spawn_parts, pipe_parts, write_parts, PipeBuilder, WriteBuilder,
  SpawnBuilder, DataBuilder, expected_write, expected_spawn, expected_data, verify_vm_index,
  verify_pipe_index, verify_pipe_indices, verify_bytes, verify_pipe, verify_pipes, verify_write,
  verify_writes, verify_spawn, verify_spawns, verify_data, vm_of_pipe, read_pipe_of_pipe,
  write_pipe_of_pipe, from_of_write, from_pipe_of_write, to_of_write, to_pipe_of_write,
  data_of_write, from_of_spawn, child_of_spawn, pipes_of_spawn, spawns_of_data, pipes_of_data,
  writes_of_data, pipes_get, writes_get, spawns_get, build_pipe, build_write, build_spawn,
  build_data, build_pipes, build_writes, build_spawns,
}
use ckb_vm_deterministic_sch.DevUtils.Layout.Written.{
  length-build_table, IsCodec, Yields, Yields-bind, Yields-then,
}
use ckb_vm_deterministic_sch.Prelude.{
  ℕ, ◌^◌, ◌<◌, ◌≡◌, refl, Bool, List, [], ◌∷◌, ◌==◌, map, length, get_elem?, arith,
}
use ckb_vm_deterministic_sch.Types.{Bytes}
use ckb_vm_deterministic_sch.DevUtils.Layout.{Numbers, Check, ◌>>=◌, verify_array}
use ckb_vm_deterministic_sch.DevUtils.Layout.Build.{expected_parts}
use ckb_vm_deterministic_sch.DevUtils.Layout.Trips.{build_table-verify, build_dynvec-verify}
use ckb_vm_deterministic_sch.DevUtils.Layout.Passes.{EachPasses}
use ckb_vm_deterministic_sch.DevUtils.Layout.Parts.{field-built, last_field-built}
use ckb_vm_deterministic_sch.DevUtils.Layout.Gets.{dynvec_get-built}

vm_index-passes : (c : Bool) (x : Bytes) → length x ≡ 8 → Yields (verify_vm_index c x) tt
unfolding verify_vm_index verify_array
vm_index-passes c x h = Yields-then (length x == 8) _ _ (ground (arith, h)) (record { at = refl })

pipe_index-passes : (c : Bool) (x : Bytes) → length x ≡ 8 → Yields (verify_pipe_index c x) tt
unfolding verify_pipe_index verify_array
pipe_index-passes c x h = Yields-then (length x == 8) _ _ (ground (arith, h)) (record { at = refl })

-- Ids of eight bytes.
abbrev pub IsPipe : PipeBuilder → Type 0
IsPipe b = (length b.vm ≡ 8) × (length b.read_pipe ≡ 8) × (length b.write_pipe ≡ 8)

module _ (num : Numbers) where
  -- Ids of eight bytes, and data that passes its check; the whole fits in a `u32`.
  abbrev pub IsWrite : Bool → WriteBuilder → Type 0
  IsWrite c b =
      (length b.from ≡ 8)
      × (length b.from_pipe ≡ 8)
      × (length b.to ≡ 8)
      × (length b.to_pipe ≡ 8)
      × Yields (verify_bytes num c b.data_bytes) tt
      × (expected_write b < 2 ^ 32)

  abbrev pub IsSpawn : Bool → SpawnBuilder → Type 0
  IsSpawn c b =
      (length b.from ≡ 8)
      × (length b.child ≡ 8)
      × Yields (verify_pipe_indices num c b.pipes) tt
      × (expected_spawn b < 2 ^ 32)

-- What a graph is written from.
pub record Graph : Type 0 where
  pub spawns : List SpawnBuilder
  pub pipes : List PipeBuilder
  pub writes : List WriteBuilder

abbrev pub All : {A : Type 0} → (A → Type 0) → List A → Type 0
All P [] = Unit
All P (x ∷ xs) = P x × All P xs

EachPasses-map :
    {A : Type 0} (P : A → Type 0) (f : Bytes → Check (Unit {0})) (g : A → Bytes) (l : List A)
    → ((a : A) → P a → Yields (f (g a)) tt)
    → All P l
    → EachPasses f (map g l)
EachPasses-map P f g [] h all = tt
EachPasses-map P f g (a ∷ l) h all = (h a all.0, EachPasses-map P f g l h all.1)

module _ (num : Numbers) where
  abbrev pub graph_data : Graph → DataBuilder
  graph_data g = record {
    spawns = build_spawns num (map (build_spawn num) g.spawns);
    pipes = build_pipes num (map (build_pipe num) g.pipes);
    writes = build_writes num (map (build_write num) g.writes);
  }

  -- Each part is well formed, and each vector and the whole fit in a `u32`.
  pub record IsGraph (c : Bool) (g : Graph) : Type 0 where
    pub spawns : All (IsSpawn num c) g.spawns
    pub pipes : All IsPipe g.pipes
    pub writes : All (IsWrite num c) g.writes
    pub spawns_fit : expected_parts (map (build_spawn num) g.spawns) < 2 ^ 32
    pub pipes_fit : expected_parts (map (build_pipe num) g.pipes) < 2 ^ 32
    pub writes_fit : expected_parts (map (build_write num) g.writes) < 2 ^ 32
    pub fits : expected_data (graph_data g) < 2 ^ 32

module _ (num : Numbers) (codec : IsCodec num) where
  build_pipe-passes :
      (c : Bool) (b : PipeBuilder) → IsPipe b → Yields (verify_pipe num c (build_pipe num b)) tt
  unfolding verify_pipe build_pipe
  build_pipe-passes c b h =
      build_table-verify num codec _ c b.vm (b.read_pipe ∷ b.write_pipe ∷ [])
        (unfold expected_parts in omega (arith, h.0, h.1, h.2))
        (
          vm_index-passes c b.vm h.0,
          (pipe_index-passes c b.read_pipe h.1, (pipe_index-passes c b.write_pipe h.2, tt)),
        )

  build_write-passes :
      (c : Bool) (b : WriteBuilder)
      → IsWrite num c b
      → Yields (verify_write num c (build_write num b)) tt
  unfolding verify_write build_write expected_write
  build_write-passes c b h =
      build_table-verify num codec _ c b.from (b.from_pipe ∷ b.to ∷ b.to_pipe ∷ b.data_bytes ∷ [])
        h.5
        (
          vm_index-passes c b.from h.0,
          (
            pipe_index-passes c b.from_pipe h.1,
            (vm_index-passes c b.to h.2, (pipe_index-passes c b.to_pipe h.3, (h.4, tt))),
          ),
        )

  build_spawn-passes :
      (c : Bool) (b : SpawnBuilder)
      → IsSpawn num c b
      → Yields (verify_spawn num c (build_spawn num b)) tt
  unfolding verify_spawn build_spawn expected_spawn
  build_spawn-passes c b h =
      build_table-verify num codec _ c b.from (b.child ∷ b.pipes ∷ []) h.3
        (vm_index-passes c b.from h.0, (vm_index-passes c b.child h.1, (h.2, tt)))

  -- A graph whose parts are well formed, written by the builders, passes the check, in either mode.
  pub build_data-verify :
      (c : Bool) (g : Graph)
      → IsGraph num c g
      → Yields (verify_data num c (build_data num (graph_data num g))) tt
  unfolding verify_data build_data expected_data build_spawns build_pipes build_writes verify_spawns
      verify_pipes verify_writes
  build_data-verify c g h =
      let d = graph_data num g in
      build_table-verify num codec _ c d.spawns (d.pipes ∷ d.writes ∷ []) h.fits (
        build_dynvec-verify num codec (verify_spawn num) c _ h.spawns_fit (
            EachPasses-map (IsSpawn num c) (verify_spawn num c) (build_spawn num) g.spawns
              (build_spawn-passes c) h.spawns),
        (
          build_dynvec-verify num codec (verify_pipe num) c _ h.pipes_fit (
              EachPasses-map IsPipe (verify_pipe num c) (build_pipe num) g.pipes
                (build_pipe-passes c) h.pipes),
          (
            build_dynvec-verify num codec (verify_write num) c _ h.writes_fit (
                EachPasses-map (IsWrite num c) (verify_write num c) (build_write num) g.writes
                  (build_write-passes c) h.writes),
            tt,
          ),
        ),
      )

  -- The accessors of a written write give back its five fields.
  pub build_write-fields :
      (b : WriteBuilder)
      → expected_write b < 2 ^ 32
      → let built = build_write num b in
        Yields (from_of_write num built) b.from
        × Yields (from_pipe_of_write num built) b.from_pipe
        × Yields (to_of_write num built) b.to
        × Yields (to_pipe_of_write num built) b.to_pipe
        × Yields (data_of_write num built) b.data_bytes
  unfolding build_write expected_write from_of_write from_pipe_of_write to_of_write to_pipe_of_write
      data_of_write
  build_write-fields b fits = (
    field-built num codec [] b.from b.from_pipe (b.to ∷ b.to_pipe ∷ b.data_bytes ∷ []) fits,
    field-built num codec (b.from ∷ []) b.from_pipe b.to (b.to_pipe ∷ b.data_bytes ∷ []) fits,
    field-built num codec (b.from ∷ b.from_pipe ∷ []) b.to b.to_pipe (b.data_bytes ∷ []) fits,
    field-built num codec (b.from ∷ b.from_pipe ∷ b.to ∷ []) b.to_pipe b.data_bytes [] fits,
    last_field-built num codec (b.from ∷ b.from_pipe ∷ b.to ∷ b.to_pipe ∷ []) b.data_bytes fits,
  )

  -- Those of a written pipe and of a written spawn, its three.
  pub build_pipe-fields :
      (b : PipeBuilder)
      → expected_pipe b < 2 ^ 32
      → let built = build_pipe num b in
        Yields (vm_of_pipe num built) b.vm
        × Yields (read_pipe_of_pipe num built) b.read_pipe
        × Yields (write_pipe_of_pipe num built) b.write_pipe
  unfolding build_pipe expected_pipe vm_of_pipe read_pipe_of_pipe write_pipe_of_pipe
  build_pipe-fields b fits = (
    field-built num codec [] b.vm b.read_pipe (b.write_pipe ∷ []) fits,
    field-built num codec (b.vm ∷ []) b.read_pipe b.write_pipe [] fits,
    last_field-built num codec (b.vm ∷ b.read_pipe ∷ []) b.write_pipe fits,
  )

  pub build_spawn-fields :
      (b : SpawnBuilder)
      → expected_spawn b < 2 ^ 32
      → let built = build_spawn num b in
        Yields (from_of_spawn num built) b.from
        × Yields (child_of_spawn num built) b.child
        × Yields (pipes_of_spawn num built) b.pipes
  unfolding build_spawn expected_spawn from_of_spawn child_of_spawn pipes_of_spawn
  build_spawn-fields b fits = (
    field-built num codec [] b.from b.child (b.pipes ∷ []) fits,
    field-built num codec (b.from ∷ []) b.child b.pipes [] fits,
    last_field-built num codec (b.from ∷ b.child ∷ []) b.pipes fits,
  )

  pub build_data-fields :
      (d : DataBuilder)
      → expected_data d < 2 ^ 32
      → let built = build_data num d in
        Yields (spawns_of_data num built) d.spawns
        × Yields (pipes_of_data num built) d.pipes
        × Yields (writes_of_data num built) d.writes
  unfolding build_data expected_data spawns_of_data pipes_of_data writes_of_data
  build_data-fields d fits = (
    field-built num codec [] d.spawns d.pipes (d.writes ∷ []) fits,
    field-built num codec (d.spawns ∷ []) d.pipes d.writes [] fits,
    last_field-built num codec (d.spawns ∷ d.pipes ∷ []) d.writes fits,
  )

  -- Each builder of a table writes as many bytes as it expects to.
  pub build_data-length :
      (d : DataBuilder) (s : SpawnBuilder) (p : PipeBuilder) (w : WriteBuilder)
      → (length (build_data num d) ≡ expected_data d)
        × (length (build_spawn num s) ≡ expected_spawn s)
        × (length (build_pipe num p) ≡ expected_pipe p)
        × (length (build_write num w) ≡ expected_write w)
  unfolding build_data build_spawn build_pipe build_write expected_data expected_spawn expected_pipe
      expected_write
  build_data-length d s p w = (
    length-build_table num codec (data_parts d),
    length-build_table num codec (spawn_parts s),
    length-build_table num codec (pipe_parts p),
    length-build_table num codec (write_parts w),
  )

  -- From a written graph, any spawn, pipe and write is read back by its index, and none past the end.
  pub build_data-reads :
      (c : Bool) (g : Graph) (i : ℕ)
      → IsGraph num c g
      → let built = build_data num (graph_data num g) in
        Yields
          (spawns_of_data num built >>= spawns_get num i)
          (get_elem? (map (build_spawn num) g.spawns) i)
        × Yields
            (pipes_of_data num built >>= pipes_get num i)
            (get_elem? (map (build_pipe num) g.pipes) i)
        × Yields
            (writes_of_data num built >>= writes_get num i)
            (get_elem? (map (build_write num) g.writes) i)
  unfolding build_spawns build_pipes build_writes spawns_get pipes_get writes_get
  build_data-reads c g i h =
      let d = graph_data num g in
      let parts = build_data-fields d h.fits in
      (
        Yields-bind _ _ d.spawns parts.0 (dynvec_get-built num codec _ i h.spawns_fit),
        Yields-bind _ _ d.pipes parts.1 (dynvec_get-built num codec _ i h.pipes_fit),
        Yields-bind _ _ d.writes parts.2 (dynvec_get-built num codec _ i h.writes_fit),
      )
