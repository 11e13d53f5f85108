-- ===== src/Wire/Fixtures.antt =====
-- A karmem runtime whose writer is its bytes, for the examples.
use go_norn.Prelude.{
  ℕ, ◌+◌, ◌≡◌, refl, Option, some, [], ◌++◌, length, replicate, leb, length-replicate,
}
use go_norn.Prelude.Bytes.{Bytes}
use go_norn.Wire.{Runtime}
use go_norn.Wire.Memory.{splice}

pub grow :
    (w : Bytes) (n : ℕ)
    → (w' : Bytes) × (fill : Bytes) × (◌≡◌ {A = Option (ℕ × Bytes)}
        (some (length w, w ++ replicate n 0))
        (some (length w, w')))
      × (w' ≡ w ++ fill)
      × (length fill ≡ n)
grow w n = (w ++ replicate n 0, replicate n 0, refl, refl, length-replicate n 0)

-- A writer is its bytes.
abbrev pub runtime : Runtime
runtime = record {
  Writer = Bytes;
  new_writer = [];
  bytes = λ w. w;
  alloc = λ w n. some (length w, w ++ replicate n 0);
  write_at = splice;
  is_valid_offset = λ m offset n. leb (offset + n) (length m);
  bytes-new = refl;
  alloc-grows = grow;
  write_at-bytes = λ w offset text h. refl;
  is_valid_offset_lem = λ m offset n. refl;
}
