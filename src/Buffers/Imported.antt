-- ===== src/Buffers/Imported.antt =====
-- The planes of an imported buffer lie in its file.
use external_minigbm.Base.{
  ℕ, zero, suc, ◌+◌, ◌≤◌, ◌<◌, ◌≡◌, refl, ◌∙◌, Bool, true, false, Option, some, arith, get_or, set,
  length-set, get_or-set_self, get_or-set_ne, leb, ◌>>◌, assert, wrap64, >>=-eq-some,
}
use native.Mathlib.Decide.{ℕ_discrete}
use external_minigbm.Bo.{BoMetadata}
use external_minigbm.Planes.Contiguous.{HasArrays}
use external_minigbm.Buffers.{ImportData, import_size, import_planes}

module _ (fd_data : ImportData) (num_planes : ℕ) where
  -- Plane `q` has the stride and the offset of the client, and ends inside the file.
  pub record InFile (metadata : BoMetadata) (q : ℕ) : Type 0 where
    pub seek_end : ℕ
    pub sought : fd_data.seek_end q ≡ some seek_end
    pub strided : get_or metadata.strides q 0 ≡ get_or fd_data.strides q 0
    pub placed : get_or metadata.offsets q 0 ≡ get_or fd_data.offsets q 0
    pub within : get_or metadata.offsets q 0 + get_or metadata.sizes q 0 ≤ seek_end

  -- The metadata after the loop's body has run for plane `p`.
  abbrev imported : BoMetadata → ℕ → ℕ → BoMetadata
  imported metadata p seek_end =
      let size = import_size fd_data num_planes p seek_end in
      record metadata {
        strides = set metadata.strides p (get_or fd_data.strides p 0);
        offsets = set metadata.offsets p (get_or fd_data.offsets p 0);
        sizes = set metadata.sizes p size;
        total_size = wrap64 (metadata.total_size + size);
      }

  imported-HasArrays :
      (metadata : BoMetadata) (p seek_end : ℕ)
      → HasArrays metadata
      → HasArrays (imported metadata p seek_end)
  imported-HasArrays metadata p seek_end room = record {
    offsets_room = length-set metadata.offsets p _ ∙ room.offsets_room;
    sizes_room = length-set metadata.sizes p _ ∙ room.sizes_room;
    strides_room = length-set metadata.strides p _ ∙ room.strides_room;
  }

  imported-InFile :
      (metadata : BoMetadata) (p seek_end : ℕ)
      → HasArrays metadata
      → p < 4
      → fd_data.seek_end p ≡ some seek_end
      → get_or fd_data.offsets p 0 + import_size fd_data num_planes p seek_end ≤ seek_end
      → InFile (imported metadata p seek_end) p
  imported-InFile metadata p seek_end room lt sought fits =
      let offset =
        get_or-set_self metadata.offsets p (get_or fd_data.offsets p 0) 0
          (omega (arith, room.offsets_room)) in
      let size =
        get_or-set_self metadata.sizes p (import_size fd_data num_planes p seek_end) 0
          (omega (arith, room.sizes_room)) in
      record {
        seek_end = seek_end;
        sought = sought;
        strided =
            get_or-set_self metadata.strides p (get_or fd_data.strides p 0) 0
              (omega (arith, room.strides_room));
        placed = offset;
        within = omega (arith, offset, size, fits);
      }

  -- An earlier plane stays where it is.
  imported-InFile_ne :
      (metadata : BoMetadata) (p seek_end q : ℕ)
      → q < p
      → InFile metadata q
      → InFile (imported metadata p seek_end) q
  imported-InFile_ne metadata p seek_end q lt at =
      let offset =
        get_or-set_ne metadata.offsets p q (get_or fd_data.offsets p 0) 0 (omega arith) in
      let size =
        get_or-set_ne metadata.sizes p q (import_size fd_data num_planes p seek_end) 0
          (omega arith) in
      record {
        seek_end = at.seek_end;
        sought = at.sought;
        strided =
            get_or-set_ne metadata.strides p q (get_or fd_data.strides p 0) 0 (omega arith)
            ∙ at.strided;
        placed = offset ∙ at.placed;
        within = omega (arith, offset, size, at.within);
      }

  -- An assertion that passed held.
  passed :
      (t : Bool) {o : Option BoMetadata} {after : BoMetadata}
      → (assert t >> o) ≡ some after
      → (t ≡ true) × (o ≡ some after)
  passed true h = (refl, h)
  passed false h = cc

  import_planes-InFile :
      (n p : ℕ) (before : BoMetadata) {after : BoMetadata}
      → HasArrays before
      → p + n ≤ 4
      → ((q : ℕ) → q < p → InFile before q)
      → import_planes fd_data num_planes n p before ≡ some after
      → (q : ℕ) → q < p + n
      → InFile after q
  unfolding import_planes
  import_planes-InFile zero p before {after} room fits done h q lt =
      let e : before ≡ after = ground arith in rw (← e) (done q (omega arith))
  import_planes-InFile (suc n) p before room fits done h q lt =
      let (seek_end, sought, h') = >>=-eq-some (fd_data.seek_end p) _ h in
      let (ok, later) =
        passed
          (leb (get_or fd_data.offsets p 0 + import_size fd_data num_planes p seek_end) seek_end)
          h' in
      let here = imported-InFile before p seek_end room (omega arith) sought (ground (arith, ok)) in
      import_planes-InFile n (p + 1) (imported before p seek_end)
        (imported-HasArrays before p seek_end room) (omega arith)
        (λ r below. elim (ℕ_discrete r p) [
          | yes e ↦ rw e here
          | no ne ↦ imported-InFile_ne before p seek_end r (omega arith) (done r (omega arith))
        ])
        later q (omega arith)

-- Where the loop of `drv_bo_import` over up to four planes, on arrays of four entries, succeeds, every plane has the client's
-- stride and offset, and the bytes that it is given end inside the file that its descriptor names.
pub import-InFile :
    (fd_data : ImportData) (num_planes : ℕ) (metadata : BoMetadata) {after : BoMetadata}
    → HasArrays metadata
    → num_planes ≤ 4
    → import_planes fd_data num_planes num_planes 0 metadata ≡ some after
    → (q : ℕ) → q < num_planes
    → InFile fd_data num_planes after q
import-InFile fd_data num_planes metadata room fits h q lt =
    import_planes-InFile fd_data num_planes num_planes 0 metadata room (omega arith)
      (λ r below. absurd (omega arith)) h q (omega arith)
