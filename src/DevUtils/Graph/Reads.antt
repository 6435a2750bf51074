-- ===== src/DevUtils/Graph/Reads.antt =====
-- What examples/dag_generator.rs reads from one pipe, spawn or write of a graph that was written.
use ckb_vm_deterministic_sch.Prelude.{
  ℕ, ◌^◌, ◌<◌, ◌≡◌, refl, ap, subst, List, [], ◌∷◌, map, length, length-map, arith, true, ◌++◌,
}
use ckb_vm_deterministic_sch.Types.{Bytes}
use ckb_vm_deterministic_sch.DevUtils.Layout.{Numbers, Check, ◌>>=◌}
use ckb_vm_deterministic_sch.DevUtils.Layout.Build.{concat, expected_parts, build_fixvec, pack}
use ckb_vm_deterministic_sch.DevUtils.Layout.Written.{
  IsCodec, Yields, Yields-bind, slice_from-part, length-pack,
}
use ckb_vm_deterministic_sch.DevUtils.Layout.Passes.{AllSized}
use ckb_vm_deterministic_sch.DevUtils.Index.{
  build_vm_index, build_pipe_index, vm_index_to_u64, pipe_index_to_u64, build_vm_index-to_u64,
  length-build_vm_index,
}
use ckb_vm_deterministic_sch.DevUtils.Dag.{
  build_pipe_indices, build_bytes, build_pipe, build_write, build_spawn, bytes_raw_data,
  expected_pipe, expected_spawn, expected_write,
}
use ckb_vm_deterministic_sch.DevUtils.Dag.Iterate.{pipe_indices_iter, pipe_indices_iter-built}
use ckb_vm_deterministic_sch.DevUtils.Dag.Trips.{
  All, build_pipe-fields, build_spawn-fields, build_write-fields,
}
use ckb_vm_deterministic_sch.DevUtils.Graph.Plan.{SpawnOp, PipeOp, WriteOp}
use ckb_vm_deterministic_sch.DevUtils.Graph.Written.{
  byte, pipe_builder, spawn_builder, write_builder, WriteLine, read_each, show_pipe, show_spawn,
  show_write,
}

-- Ids are below 2^64, and each part of a plan fits in a `u32`, as does each vector in it.
abbrev pub Is64 : ℕ → Type 0
Is64 n = n < 2 ^ 64

abbrev pub IsSmallPipe : PipeOp → Type 0
IsSmallPipe o = Is64 o.vm × Is64 o.read_pipe × Is64 o.write_pipe

abbrev pub IsSmallSpawn : Numbers → SpawnOp → Type 0
IsSmallSpawn num s =
    Is64 s.from
    × Is64 s.child
    × All Is64 s.pipes
    × (length s.pipes < 2 ^ 32)
    × (expected_spawn (spawn_builder num s) < 2 ^ 32)

abbrev pub IsSmallWrite : Numbers → WriteOp → Type 0
IsSmallWrite num w =
    Is64 w.from
    × Is64 w.from_pipe
    × Is64 w.to
    × Is64 w.to_pipe
    × (length w.content < 2 ^ 32)
    × (expected_write (write_builder num w) < 2 ^ 32)

abbrev pub write_line : WriteOp → WriteLine
write_line w = record {
  from = w.from;
  from_pipe = w.from_pipe;
  to = w.to;
  to_pipe = w.to_pipe;
  data_length = length w.content;
}

map-same : {A : Type 0} (l : List A) → map (λ a. a) l ≡ l
map-same [] = refl
map-same (a ∷ l) = ap (λ m. a ∷ m) (map-same l)

module _ {A B : Type 0} where
  pub read_each-map :
      {C : Type 0} (P : A → Type 0) (read : Bytes → Check B) (u : A → C) (w : C → Bytes) (v : A → B)
      (l : List A)
      → ((a : A) → P a → Yields (read (w (u a))) (v a))
      → All P l
      → Yields (read_each read (map w (map u l))) (map v l)
  unfolding read_each
  read_each-map P read u w v [] h all = record { at = refl }
  read_each-map P read u w v (a ∷ l) h all =
      Yields-bind _ _ (v a) (h a all.0)
        (Yields-bind _ _ (map v l) (read_each-map P read u w v l h all.1) (record { at = refl }))

pub read_each-same :
    {A C : Type 0} (P : A → Type 0) (read : Bytes → Check A) (u : A → C) (w : C → Bytes)
    (l : List A)
    → ((a : A) → P a → Yields (read (w (u a))) a)
    → All P l
    → Yields (read_each read (map w (map u l))) l
read_each-same P read u w l h all =
    subst (λ m. Yields (read_each read (map w (map u l))) m) (map-same l)
      (read_each-map P read u w (λ a. a) l h all)

pub Yields-chain :
    {A B C : Type 0} (m : Check A) (f : A → Check B) (g : B → Check C) (a : A) (c : C)
    → Yields m a
    → Yields (f a >>= g) c
    → Yields ((m >>= f) >>= g) c
Yields-chain m f g a c first rest = record { at = rw (first.at) rest.at }

pub AllSized-indices : (l : List ℕ) → AllSized 8 (map build_pipe_index l)
AllSized-indices [] = tt
AllSized-indices (p ∷ l) = ((length-build_vm_index p).1, AllSized-indices l)

pub AllSized-bytes : (l : Bytes) → AllSized 1 (map byte l)
AllSized-bytes [] = tt
AllSized-bytes (b ∷ l) = (refl, AllSized-bytes l)

concat-bytes : (l : Bytes) → concat (map byte l) ≡ l
concat-bytes [] = refl
concat-bytes (b ∷ l) = ap (λ m. b ∷ m) (concat-bytes l)

module _ (num : Numbers) (codec : IsCodec num) where
  vm-read :
      (read : Check Bytes) (n : ℕ)
      → Yields read (build_vm_index n)
      → Is64 n
      → Yields (read >>= vm_index_to_u64) n
  vm-read read n h small =
      Yields-bind _ _ (build_vm_index n) h (build_vm_index-to_u64 n true small).1

  pipe-read :
      (read : Check Bytes) (n : ℕ)
      → Yields read (build_pipe_index n)
      → Is64 n
      → Yields (read >>= pipe_index_to_u64) n
  pipe-read read n h small =
      Yields-bind _ _ (build_pipe_index n) h (build_vm_index-to_u64 n true small).3

  pub show_pipe-built :
      (o : PipeOp) → IsSmallPipe o → Yields (show_pipe num (build_pipe num (pipe_builder o))) o
  unfolding show_pipe
  show_pipe-built o h =
      let small : expected_pipe (pipe_builder o) < 2 ^ 32 =
        unfold expected_pipe expected_parts in
        omega (
          arith,
          length-build_vm_index o.vm,
          length-build_vm_index o.read_pipe,
          length-build_vm_index o.write_pipe,
        ) in
      let parts = build_pipe-fields num codec (pipe_builder o) small in
      Yields-bind _ _ o.vm (vm-read _ o.vm parts.0 h.0) (
        Yields-bind _ _ o.read_pipe (pipe-read _ o.read_pipe parts.1 h.1) (
          Yields-bind _ _ o.write_pipe (pipe-read _ o.write_pipe parts.2 h.2)
            (record { at = refl })))

  show_pipes-built :
      (l : List ℕ)
      → All Is64 l
      → length l < 2 ^ 32
      → Yields
          (pipe_indices_iter num (build_pipe_indices num (map build_pipe_index l))
            >>= read_each pipe_index_to_u64)
          l
  unfolding build_pipe_indices
  show_pipes-built l h fits =
      Yields-bind _ _ (map build_pipe_index l)
        (pipe_indices_iter-built num codec (map build_pipe_index l) (AllSized-indices l)
          (omega (arith, length-map build_pipe_index l)))
        (subst (λ m. Yields (read_each pipe_index_to_u64 (map build_pipe_index m)) l) (map-same l)
          (read_each-same Is64 pipe_index_to_u64 (λ a. a) build_pipe_index l
            (λ n small. (build_vm_index-to_u64 n true small).3) h))

  pub show_spawn-built :
      (s : SpawnOp)
      → IsSmallSpawn num s
      → Yields (show_spawn num (build_spawn num (spawn_builder num s))) s
  unfolding show_spawn
  show_spawn-built s h =
      let parts = build_spawn-fields num codec (spawn_builder num s) h.4 in
      Yields-bind _ _ s.from (vm-read _ s.from parts.0 h.0) (
        Yields-bind _ _ s.child (vm-read _ s.child parts.1 h.1) (
          Yields-bind _ _ s.pipes
            (Yields-chain _ _ _ (spawn_builder num s).pipes s.pipes parts.2
              (show_pipes-built s.pipes h.2 h.3))
            (record { at = refl })))

  bytes_raw_data-built : (l : Bytes) → Yields (bytes_raw_data num (build_bytes num (map byte l))) l
  unfolding bytes_raw_data build_bytes build_fixvec
  bytes_raw_data-built l =
      slice_from-part 4 (pack num (length (map byte l))) l _
        (ap (λ m. pack num (length (map byte l)) ++ m) (concat-bytes l)) (length-pack num codec _)

  pub show_write-built :
      (w : WriteOp)
      → IsSmallWrite num w
      → Yields (show_write num (build_write num (write_builder num w))) (write_line w)
  unfolding show_write
  show_write-built w h =
      let parts = build_write-fields num codec (write_builder num w) h.5 in
      Yields-bind _ _ w.from (vm-read _ w.from parts.0 h.0) (
        Yields-bind _ _ w.from_pipe (pipe-read _ w.from_pipe parts.1 h.1) (
          Yields-bind _ _ w.to (vm-read _ w.to parts.2 h.2) (
            Yields-bind _ _ w.to_pipe (pipe-read _ w.to_pipe parts.3 h.3) (
              Yields-bind _ _ w.content (Yields-bind _ _ _ parts.4 (bytes_raw_data-built w.content))
                (record { at = refl })))))
