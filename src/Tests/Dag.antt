-- ===== src/Tests/Dag.antt =====
-- A small graph, with numbers of four bytes in little-endian order.
use ckb_vm_deterministic_sch.Prelude.{
  length, ◌≡◌, ℕ, ◌+◌, ◌*◌, ◌/◌, ◌%◌, ◌^◌, ◌<◌, refl, true, false, [], ◌∷◌, map, get_elem?, arith,
}
use ckb_vm_deterministic_sch.DevUtils.Dag.{
  expected_pipe, PipeBuilder, SpawnBuilder, expected_data, expected_spawn, expected_write,
  verify_vm_index, verify_pipe_index, WriteBuilder, build_bytes, build_pipe_indices, verify_bytes,
  verify_pipe_indices, verify_data, build_data, build_spawn, build_pipe, build_write, build_spawns,
  build_pipes, build_writes, spawns_of_data, pipes_of_data, writes_of_data, spawns_get, pipes_get,
  writes_get, from_of_write, from_pipe_of_write, to_of_write, to_pipe_of_write, data_of_write,
}
use ckb_vm_deterministic_sch.DevUtils.Dag.Trips.{
  build_data-length, Graph, graph_data, IsGraph, build_data-verify, build_data-reads,
  build_write-fields,
}
use ckb_vm_deterministic_sch.DevUtils.Index.{
  build_vm_index, build_pipe_index, vm_index_to_u64, pipe_index_to_u64, build_vm_index-to_u64,
}
use ckb_vm_deterministic_sch.Types.{Bytes}
use ckb_vm_deterministic_sch.DevUtils.Layout.{Numbers, ◌>>=◌}
use ckb_vm_deterministic_sch.DevUtils.Layout.Build.{
  offsets_from, expected_parts, pack, pack_all, build_fixvec, build_table, build_dynvec,
}
use ckb_vm_deterministic_sch.DevUtils.Layout.Written.{IsCodec, Yields}
use ckb_vm_deterministic_sch.DevUtils.Layout.Trips.{build_fixvec-verify}
use ckb_vm_deterministic_sch.DevUtils.Layout.Rules.{Answers, Any}
use ckb_vm_deterministic_sch.DevUtils.Dag.Safe.{verify_data-Answers}

abbrev le_pack : ℕ → Bytes
le_pack n = n % 256 ∷ n / 256 % 256 ∷ n / 65536 % 256 ∷ n / 16777216 % 256 ∷ []

abbrev le_unpack : Bytes → ℕ
le_unpack (a ∷ b ∷ c ∷ d ∷ _) = a + 256 * b + 65536 * c + 16777216 * d
le_unpack _ = 0

abbrev pub le : Numbers
le = record { pack_number = le_pack; unpack_number = le_unpack }

pub le-IsCodec : IsCodec le
le-IsCodec = record { length-pack = λ n. refl; unpack-pack = λ n rest h. omega (arith, h) }

abbrev one : Bytes
one = 1 ∷ 0 ∷ 0 ∷ 0 ∷ 0 ∷ 0 ∷ 0 ∷ 0 ∷ []

abbrev two : Bytes
two = 2 ∷ 0 ∷ 0 ∷ 0 ∷ 0 ∷ 0 ∷ 0 ∷ 0 ∷ []

-- VM 1 spawns VM 2 and passes pipe 2 on; one pipe, and one write of three bytes.
abbrev small : Graph
small = record {
  spawns = record { from = one; child = two; pipes = build_pipe_indices le (two ∷ []) } ∷ [];
  pipes = record { vm = one; read_pipe = two; write_pipe = one } ∷ [];
  writes =
      record {
        from = one;
        from_pipe = one;
        to = two;
        to_pipe = two;
        data_bytes = build_bytes le ((7 ∷ []) ∷ (8 ∷ []) ∷ (9 ∷ []) ∷ []);
      }
      ∷ [];
}

small-IsGraph : IsGraph le true small
unfolding verify_bytes verify_pipe_indices build_bytes build_pipe_indices expected_write
    expected_spawn expected_data expected_parts build_spawn build_pipe build_write build_spawns
    build_pipes build_writes build_table build_dynvec build_fixvec pack pack_all offsets_from
small-IsGraph = record {
  spawns = (
    (
      refl,
      refl,
      build_fixvec-verify le le-IsCodec 8 (two ∷ []) (refl, tt) (omega arith),
      omega arith,
    ),
    tt,
  );
  pipes = ((refl, refl, refl), tt);
  writes = (
    (
      refl,
      refl,
      refl,
      refl,
      build_fixvec-verify le le-IsCodec 1 ((7 ∷ []) ∷ (8 ∷ []) ∷ (9 ∷ []) ∷ [])
          (refl, (refl, (refl, tt))) (omega arith),
      omega arith,
    ),
    tt,
  );
  spawns_fit = omega arith;
  pipes_fit = omega arith;
  writes_fit = omega arith;
  fits = omega arith;
}

-- A first offset behind the end of the slice.
verify_data-Answers_example :
    Answers Any (verify_data le false (12 ∷ 0 ∷ 0 ∷ 0 ∷ 16 ∷ 0 ∷ 0 ∷ 0 ∷ 9 ∷ 9 ∷ 9 ∷ 9 ∷ []))
verify_data-Answers_example =
    verify_data-Answers le false (12 ∷ 0 ∷ 0 ∷ 0 ∷ 16 ∷ 0 ∷ 0 ∷ 0 ∷ 9 ∷ 9 ∷ 9 ∷ 9 ∷ [])

build_data-verify_example : Yields (verify_data le true (build_data le (graph_data le small))) tt
build_data-verify_example = build_data-verify le le-IsCodec true small small-IsGraph

build_data-reads_example :
    let built = build_data le (graph_data le small) in
    Yields
      (spawns_of_data le built >>= spawns_get le 0)
      (get_elem? (map (build_spawn le) small.spawns) 0)
    × Yields
        (pipes_of_data le built >>= pipes_get le 0)
        (get_elem? (map (build_pipe le) small.pipes) 0)
    × Yields
        (writes_of_data le built >>= writes_get le 0)
        (get_elem? (map (build_write le) small.writes) 0)
build_data-reads_example = build_data-reads le le-IsCodec true small 0 small-IsGraph

abbrev hello : WriteBuilder
hello = record {
  from = one;
  from_pipe = one;
  to = two;
  to_pipe = two;
  data_bytes = 0 ∷ 0 ∷ 0 ∷ 0 ∷ [];
}

hello-fits : expected_write hello < 2 ^ 32
unfolding expected_write expected_parts
hello-fits = omega arith

build_write-fields_example :
    let built = build_write le hello in
    Yields (from_of_write le built) hello.from
    × Yields (from_pipe_of_write le built) hello.from_pipe
    × Yields (to_of_write le built) hello.to
    × Yields (to_pipe_of_write le built) hello.to_pipe
    × Yields (data_of_write le built) hello.data_bytes
build_write-fields_example = build_write-fields le le-IsCodec hello hello-fits

build_vm_index-to_u64_example :
    Yields (verify_vm_index true (build_vm_index 258)) tt
    × Yields (vm_index_to_u64 (build_vm_index 258)) 258
    × Yields (verify_pipe_index true (build_pipe_index 258)) tt
    × Yields (pipe_index_to_u64 (build_pipe_index 258)) 258
build_vm_index-to_u64_example = build_vm_index-to_u64 258 true (omega arith)

abbrev pipe_one : PipeBuilder
pipe_one = record { vm = one; read_pipe = two; write_pipe = one }

abbrev child_two : SpawnBuilder
child_two = record { from = one; child = two; pipes = 0 ∷ 0 ∷ 0 ∷ 0 ∷ [] }

build_data-length_example :
    (length (build_data le (graph_data le small)) ≡ expected_data (graph_data le small))
    × (length (build_spawn le child_two) ≡ expected_spawn child_two)
    × (length (build_pipe le pipe_one) ≡ expected_pipe pipe_one)
    × (length (build_write le hello) ≡ expected_write hello)
build_data-length_example =
    build_data-length le le-IsCodec (graph_data le small) child_two pipe_one hello
