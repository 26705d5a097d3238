-- ===== src/Mappings.antt =====
-- drv.c: the mappings of buffers into memory. A mapping is handed out by its address; mappings of one
-- inode and of the same flags share a `struct vma`, which counts them.
pub mod Destroy
pub mod Map
pub mod Release
pub mod Sound
mod Tests
pub mod Unmap
use external_minigbm.Base.{
  ℕ, zero, suc, ◌+◌, ◌≤◌, ◌<◌, Bool, true, false, not, ◌&&◌, ◌||◌, Option, none, some, List, [],
  ◌∷◌, ◌++◌, ltb, leb, ◌==◌, if◌then◌else◌, ◌>>=◌, ◌>>◌, assert, get_or, wrap32, wrap64, sub32,
  has_flag,
}
use external_minigbm.Flags.{bo_map_read_write, bo_use_protected}
use external_minigbm.Bo.{Bo}

-- `struct vma`, without the backend's `priv`.
pub record Vma : Type 0 where
  pub addr : ℕ
  pub length : ℕ
  pub inode : ℕ
  pub map_flags : ℕ
  pub refcount : ℕ
  pub map_strides : List ℕ

-- `struct rectangle`
pub record Rectangle : Type 0 where
  pub x : ℕ
  pub y : ℕ
  pub width : ℕ
  pub height : ℕ

-- `struct mapping`, with its own address as `self`; `vma` is the address of its `struct vma`.
pub record Mapping : Type 0 where
  pub self : ℕ
  pub vma : ℕ
  pub rect : Rectangle
  pub refcount : ℕ

-- The driver's array of mappings (the items of its `drv_array`), the `struct vma` at each address
-- that is allocated, and the addresses that the backend was told to unmap, the last one first.
pub record MapState : Type 0 where
  pub mappings : List Mapping
  pub vmas : ℕ → Option Vma
  pub unmapped : List ℕ

unfoldable pub store : (ℕ → Option Vma) → ℕ → Option Vma → ℕ → Option Vma
store vmas v o w = if w == v then o else vmas w

-- The mapping's vma has this inode and these flags. (Every mapping of a sound state has a vma.)
unfoldable pub shares : (ℕ → Option Vma) → ℕ → ℕ → Mapping → Bool
shares vmas inode map_flags mapping = elim (vmas mapping.vma) [
  | none ↦ false
  | some vma ↦ vma.inode == inode && vma.map_flags == map_flags
]

unfoldable pub same_rect : Rectangle → Rectangle → Bool
same_rect a b = a.x == b.x && a.y == b.y && a.width == b.width && a.height == b.height

-- The first mapping that a loop over the array stops at.
unfoldable pub first_match : (Mapping → Bool) → List Mapping → Option Mapping
first_match test [] = none
first_match test (m ∷ ms) = let rest = first_match test ms in if test m then some m else rest

-- A write through the mapping's address.
unfoldable pub update_mapping : ℕ → (Mapping → Mapping) → List Mapping → List Mapping
update_mapping self f [] = []
update_mapping self f (m ∷ ms) =
    let rest = update_mapping self f ms in if m.self == self then f m ∷ ms else m ∷ rest

-- A write through the vma's address.
unfoldable pub update_vma : ℕ → (Vma → Vma) → (ℕ → Option Vma) → ℕ → Option Vma
unfolding store
update_vma v f vmas = elim (vmas v) [ none ↦ vmas | some vma ↦ store vmas v (some (f vma)) ]

abbrev pub raise_mapping : Mapping → Mapping
raise_mapping m = record m { refcount = wrap32 (m.refcount + 1) }

abbrev pub lower_mapping : Mapping → Mapping
lower_mapping m = record m { refcount = sub32 m.refcount 1 }

abbrev pub raise_vma : Vma → Vma
raise_vma vma = record vma { refcount = wrap32 (vma.refcount + 1) }

abbrev pub lower_vma : Vma → Vma
lower_vma vma = record vma { refcount = sub32 vma.refcount 1 }

-- How `drv_bo_map` ends: a test buffer is refused, `failed` sets `*map_data` to null, and `mapped`
-- returns an address and the mapping's own.
pub data MapResult : Type 0 where
  refused failed : MapResult
  mapped : ℕ → ℕ → MapResult

-- What one call meets: the addresses that `calloc` gives (the mapping's copy in the array and the
-- vma, `none` where memory is exhausted), and the address and length of the backend's `bo_map`.
pub record MapCall : Type 0 where
  pub new_mapping : ℕ
  pub new_vma : Option ℕ
  pub backend_map : Option (ℕ × ℕ)

-- The assertions at the head of `drv_bo_map`.
unfoldable pub may_map : Bo → Rectangle → ℕ → Bool
may_map bo rect map_flags =
    leb (wrap32 (rect.x + rect.width)) bo.metadata.width
    && leb (wrap32 (rect.y + rect.height)) bo.metadata.height
    && has_flag bo_map_read_write map_flags
    && not (has_flag bo.metadata.use_flags bo_use_protected)

-- The part of `drv_bo_map` that finds or makes a mapping: its state and the mapping's address.
unfoldable pub find_or_map : MapCall → MapState → Bo → Rectangle → ℕ → MapState × Option ℕ
unfolding shares same_rect first_match update_mapping update_vma store
find_or_map call s bo rect map_flags =
    elim (first_match (λ m. shares s.vmas bo.inode map_flags m && same_rect rect m.rect)
      s.mappings) [
        | some prior ↦ (
          record s { mappings = update_mapping prior.self raise_mapping s.mappings },
          some prior.self,
        )
        | none ↦ elim (first_match (shares s.vmas bo.inode map_flags) s.mappings) [
          | some prior ↦ (
            record s {
              vmas = update_vma prior.vma raise_vma s.vmas;
              mappings =
                  s.mappings
                  ++ (record { self = call.new_mapping; vma = prior.vma; rect = rect; refcount = 1 }
                      ∷ []);
            },
            some call.new_mapping,
          )
          | none ↦ elim call.new_vma [
            | none ↦ (s, none)
            | some v ↦ elim call.backend_map [
              | none ↦ (s, none)
              | some (addr, length) ↦ (
                record s {
                  vmas = store s.vmas v (
                      some (record {
                        addr = addr;
                        length = length;
                        inode = bo.inode;
                        map_flags = map_flags;
                        refcount = 1;
                        map_strides = bo.metadata.strides;
                      }));
                  mappings =
                      s.mappings
                      ++ (record { self = call.new_mapping; vma = v; rect = rect; refcount = 1 }
                          ∷ []);
                },
                some call.new_mapping,
              )
            ]
          ]
        ]
      ]

-- `(*map_data)->vma->addr`
unfoldable pub address_of : MapState → ℕ → Option ℕ
unfolding first_match
address_of s self = do
  mapping ← first_match (λ m. m.self == self) s.mappings
  vma ← s.vmas mapping.vma
  some vma.addr

-- The assertions of `drv_bo_invalidate`, `drv_bo_flush` and `drv_bo_flush_or_unmap`: the mapping is in
-- the list, and it and its vma are counted.
unfoldable pub live_mapping : MapState → ℕ → Option Mapping
unfolding first_match
live_mapping s self = do
  mapping ← first_match (λ m. m.self == self) s.mappings
  vma ← s.vmas mapping.vma
  assert (ltb 0 mapping.refcount)
  assert (ltb 0 vma.refcount)
  some mapping

-- `drv_bo_map`. `none` is a failed assertion, those of `drv_bo_invalidate` and of
-- `drv_bo_get_plane_offset` included; the backend's invalidation itself does not touch this state.
unfoldable pub drv_bo_map :
    MapCall → MapState → Bo → Rectangle → ℕ → ℕ → Option (MapState × MapResult)
unfolding may_map find_or_map live_mapping address_of
drv_bo_map call s bo rect map_flags plane = do
  assert (may_map bo rect map_flags)
  if bo.is_test_buffer
      then some (s, refused)
      else (let (s', found) = find_or_map call s bo rect map_flags in
          elim found [
            | none ↦ some (s', failed)
            | some self ↦ do
              mapping ← live_mapping s' self
              addr ← address_of s' self
              assert (ltb plane bo.metadata.num_planes)
              some (s', mapped (wrap64 (addr + get_or bo.metadata.offsets plane 0)) self)
          ])

-- `drv_array_remove` of the first entry with this address.
unfoldable pub remove_mapping : ℕ → List Mapping → List Mapping
remove_mapping self [] = []
remove_mapping self (m ∷ ms) =
    let rest = remove_mapping self ms in if m.self == self then ms else m ∷ rest

-- `if (!--vma->refcount) { ret = bo_unmap(bo, vma); free(vma); }`
unfoldable pub release_vma : (ℕ → ℕ) → MapState → ℕ → Option (MapState × ℕ)
unfolding update_vma store
release_vma unmap s v = do
  vma ← s.vmas v
  some (
      if sub32 vma.refcount 1 == 0
      then (
        record s { vmas = store s.vmas v none; unmapped = vma.addr ∷ s.unmapped },
        unmap vma.addr,
      )
      else (record s { vmas = update_vma v lower_vma s.vmas }, 0))

-- `drv_bo_unmap`: the state and the result. `unmap` is what the backend's `bo_unmap` returns for an
-- address; `none` is an access through a dangling pointer.
unfoldable pub drv_bo_unmap : (ℕ → ℕ) → MapState → ℕ → Option (MapState × ℕ)
unfolding first_match update_mapping release_vma remove_mapping
drv_bo_unmap unmap s self = do
  mapping ← first_match (λ m. m.self == self) s.mappings
  let lowered = record s { mappings = update_mapping self lower_mapping s.mappings }
  if not (sub32 mapping.refcount 1 == 0) then some (lowered, 0) else do
    (s', ret) ← release_vma unmap lowered mapping.vma
    some (record s' { mappings = remove_mapping self s'.mappings }, ret)

-- The inner loop of `drv_bo_mapping_destroy` from an index on: `kept` are the mappings below it.
-- True is the early return after a failed `bo_unmap`, which leaves the mapping and a vma that counts
-- none.
unfoldable pub sweep :
    (ℕ → ℕ) → ℕ → List Mapping → List Mapping → MapState → Option (MapState × Bool)
unfolding release_vma update_vma store
sweep unmap inode kept [] s = some (record s { mappings = kept }, false)
sweep unmap inode kept (m ∷ ms) s = do
  vma ← s.vmas m.vma
  elim (vma.inode == inode) [
    | false ↦ sweep unmap inode (kept ++ (m ∷ [])) ms s
    | true ↦ do
      (s', ret) ← release_vma unmap s m.vma
      elim (ret == 0) [
        | true ↦ sweep unmap inode kept ms s'
        | false ↦ some (
          record s {
            vmas = update_vma m.vma lower_vma s.vmas;
            mappings = kept ++ (m ∷ ms);
            unmapped = s'.unmapped;
          },
          true,
        )
      ]
  ]

-- The rounds of the outer loop after the first one: the index is at the end of the array.
unfoldable pub later_rounds : (ℕ → ℕ) → ℕ → ℕ → MapState → Option MapState
unfolding sweep
later_rounds unmap inode zero s = some s
later_rounds unmap inode (suc n) s = do
  (s', stopped) ← sweep unmap inode s.mappings [] s
  later_rounds unmap inode n s'

unfoldable pub drv_bo_mapping_destroy : (ℕ → ℕ) → MapState → Bo → Option MapState
unfolding sweep later_rounds
drv_bo_mapping_destroy unmap s bo = elim bo.metadata.num_planes [
  | zero ↦ some s
  | suc n ↦ do
    (s', stopped) ← sweep unmap bo.inode [] s.mappings s
    elim stopped [ true ↦ some s' | false ↦ later_rounds unmap bo.inode n s' ]
]
