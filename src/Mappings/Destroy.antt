-- ===== src/Mappings/Destroy.antt =====
-- `drv_bo_mapping_destroy` leaves no mapping of the buffer.
use external_minigbm.Base.{
  ℕ, zero, suc, ◌+◌, ◌^◌, ◌≤◌, ◌<◌, ◌≡◌, ◌≢◌, refl, sym, ◌∙◌, ap, inl, inr, Bool, true, false,
  Option, some, List, [], ◌∷◌, ◌++◌, arith, length, length-append, ◌==◌, ◌>>=◌, Bool-cases, Returns,
}
use external_minigbm.Bo.{Bo}
use external_minigbm.Mappings.{
  Vma, Mapping, MapState, release_vma, update_vma, lower_vma, sweep, later_rounds,
  drv_bo_mapping_destroy,
}
use external_minigbm.Mappings.Sound.{uses, refs, uses-le-length, uses-append}
use external_minigbm.Mappings.Map.{Counted}
use external_minigbm.Mappings.Release.{Released, used_vma, release_vma-Released}

-- Each mapping of the list refers to a vma of another inode.
pub data Elsewhere (inode : ℕ) (vmas : ℕ → Option Vma) : List Mapping → Type 0 where
  nil : Elsewhere inode vmas []
  cons :
      {m : Mapping} {ms : List Mapping} (vma : Vma)
      → vmas m.vma ≡ some vma
      → vma.inode ≢ inode
      → Elsewhere inode vmas ms
      → Elsewhere inode vmas (m ∷ ms)

-- A change of a vma of this inode does not matter.
Elsewhere-change :
    {inode : ℕ} {vmas vmas' : ℕ → Option Vma} {ms : List Mapping} (v : ℕ) {vma : Vma}
    → vmas v ≡ some vma
    → vma.inode ≡ inode
    → ((w : ℕ) → w ≢ v → vmas' w ≡ vmas w)
    → Elsewhere inode vmas ms
    → Elsewhere inode vmas' ms
Elsewhere-change v found same others nil = nil
Elsewhere-change {inode} {vmas} v {vma} found same others (cons {m} other at ne rest) =
    cons other (others m.vma apart ∙ at) ne (Elsewhere-change v found same others rest)
  where
    some_injective : {a b : Vma} → some a ≡ some b → a ≡ b
    some_injective e = cc

    apart : m.vma ≢ v
    apart e = ne (ap (λ (k : Vma). k.inode) (some_injective (sym at ∙ ap vmas e ∙ found)) ∙ same)

Elsewhere-append :
    {inode : ℕ} {vmas : ℕ → Option Vma} {ms : List Mapping} (m : Mapping) (vma : Vma)
    → vmas m.vma ≡ some vma
    → vma.inode ≢ inode
    → Elsewhere inode vmas ms
    → Elsewhere inode vmas (ms ++ (m ∷ []))
Elsewhere-append m vma found ne nil = cons vma found ne nil
Elsewhere-append m vma found ne (cons other at other_ne rest) =
    cons other at other_ne (Elsewhere-append m vma found ne rest)

-- The state that is left: the counts are right, and no mapping is of the inode.
pub record Cleared (inode : ℕ) (s : MapState) : Type 0 where
  pub counted : Counted s
  pub elsewhere : Elsewhere inode s.vmas s.mappings

module _ (unmap : ℕ → ℕ) (works : (addr : ℕ) → unmap addr ≡ 0) (inode : ℕ) where
  answer_zero :
      {s : MapState} {v : ℕ} {count : ℕ → ℕ} {after : MapState × ℕ}
      → Released unmap s v count after
      → after.1 ≡ 0
  answer_zero r = elim r.answer [ inl e ↦ e | inr (addr, e) ↦ e ∙ works addr ]

  -- What the sweep promises of the rest.
  abbrev Sweeps : List Mapping → List Mapping → Type 0
  Sweeps kept rest =
      (s : MapState)
      → ((w : ℕ) → refs (s.vmas w) ≡ uses w kept + uses w rest)
      → length kept + length rest < 2 ^ 31
      → Elsewhere inode s.vmas kept
      → Returns (λ (after : MapState × Bool). (after.1 ≡ false) × Cleared inode after.0)
          (sweep unmap inode kept rest s)

  -- The sweep goes on behind a mapping of the inode, whose vma has been released.
  resume :
      (kept ms : List Mapping) (m : Mapping) (s : MapState) {vma : Vma}
      → s.vmas m.vma ≡ some vma
      → vma.inode ≡ inode
      → length kept + length ms < 2 ^ 31
      → Elsewhere inode s.vmas kept
      → Sweeps kept ms
      → (o : Option (MapState × ℕ))
      → Returns (Released unmap s m.vma (λ w. uses w kept + uses w ms)) o
      → Returns
          (λ (after : MapState × Bool). (after.1 ≡ false) × Cleared inode after.0)
          (do
            (s', ret) ← o
            elim (ret == 0) [
              | true ↦ sweep unmap inode kept ms s'
              | false ↦ some (
                record s {
                  vmas = update_vma m.vma lower_vma s.vmas;
                  mappings = kept ++ (m ∷ ms);
                  unmapped = s'.unmapped;
                },
                true,
              )
            ])
  resume kept ms m s found same few out next o (after, e, r) =
      let zero_answer : (after.1 == 0) ≡ true = ground (arith, answer_zero r) in
      rw (e, ◌>>=◌, zero_answer)
        (next after.0 r.counted few (Elsewhere-change m.vma found same r.others out))

  -- One mapping of the rest, whose vma is known.
  sweep-one :
      (kept ms : List Mapping) (m : Mapping) (s : MapState) (vma : Vma)
      → s.vmas m.vma ≡ some vma
      → Sweeps (kept ++ (m ∷ [])) ms
      → Sweeps kept ms
      → ((w : ℕ) → refs (s.vmas w) ≡ uses w kept + uses w (m ∷ ms))
      → length kept + length (m ∷ ms) < 2 ^ 31
      → Elsewhere inode s.vmas kept
      → Returns
          (λ (after : MapState × Bool). (after.1 ≡ false) × Cleared inode after.0)
          (sweep unmap inode kept (m ∷ ms) s)
  unfolding sweep uses
  sweep-one kept ms m s vma found keep drop counted few out =
      elim (Bool-cases (vma.inode == inode)) [
        | inr other ↦
            rw (found, ◌>>=◌, other)
              (keep s (λ w. omega (arith, counted w, uses-append w kept (m ∷ [])))
                (omega (arith, length-append kept (m ∷ [])))
                (Elsewhere-append m vma found (ground arith) out))
        | inl same ↦
            rw (found, ◌>>=◌, same)
              (resume kept ms m s found (ground arith) (omega arith) out drop
                (release_vma unmap s m.vma)
                (release_vma-Released unmap s m.vma (λ w. uses w kept + uses w (m ∷ ms))
                  (λ w. uses w kept + uses w ms) counted (λ w. omega arith) (ground arith)
                  (omega (arith, uses-le-length m.vma kept, uses-le-length m.vma (m ∷ ms)))))
      ]

  in_use : (m : Mapping) (ms : List Mapping) → 1 ≤ uses m.vma (m ∷ ms)
  unfolding uses
  in_use m ms = ground arith

  sweep-Cleared : (kept rest : List Mapping) → Sweeps kept rest
  unfolding sweep uses
  sweep-Cleared kept [] s counted few out = (
    (record s { mappings = kept }, false),
    refl,
    (refl, record { counted = λ w. omega (arith, counted w); elsewhere = out }),
  )
  sweep-Cleared kept (m ∷ ms) s counted few out =
      let (vma, found) = used_vma (s.vmas m.vma) (omega (arith, counted m.vma, in_use m ms)) in
      sweep-one kept ms m s vma found (sweep-Cleared (kept ++ (m ∷ [])) ms) (sweep-Cleared kept ms)
        counted few out

  later_rounds-Cleared :
      (n : ℕ) (s : MapState)
      → Cleared inode s
      → Returns (Cleared inode) (later_rounds unmap inode n s)
  unfolding later_rounds sweep
  later_rounds-Cleared zero s c = (s, refl, c)
  later_rounds-Cleared (suc n) s c = later_rounds-Cleared n s c

  first_round :
      (n : ℕ) (o : Option (MapState × Bool))
      → Returns (λ (after : MapState × Bool). (after.1 ≡ false) × Cleared inode after.0) o
      → Returns (Cleared inode) (do
        (s', stopped) ← o
        elim stopped [ true ↦ some s' | false ↦ later_rounds unmap inode n s' ])
  first_round n o (after, e, (going, c)) = rw (e, ◌>>=◌, going) (later_rounds-Cleared n after.0 c)

-- Where the vmas count their mappings, there are fewer than 2^31 mappings, the buffer has a plane and
-- the backend unmaps without an error, `drv_bo_mapping_destroy` returns: no mapping of the buffer's
-- inode is left, and the vmas count their mappings again.
pub mapping_destroy-Cleared :
    (unmap : ℕ → ℕ) (s : MapState) (bo : Bo)
    → ((addr : ℕ) → unmap addr ≡ 0)
    → Counted s
    → length s.mappings < 2 ^ 31
    → 1 ≤ bo.metadata.num_planes
    → Returns (Cleared bo.inode) (drv_bo_mapping_destroy unmap s bo)
unfolding drv_bo_mapping_destroy uses
mapping_destroy-Cleared unmap s bo works counted few some_planes =
    rounds bo.metadata.num_planes some_planes
  where
    rounds :
        (planes : ℕ)
        → 1 ≤ planes
        → Returns (Cleared bo.inode) (elim planes [
          | zero ↦ some s
          | suc n ↦ do
            (s', stopped) ← sweep unmap bo.inode [] s.mappings s
            elim stopped [ true ↦ some s' | false ↦ later_rounds unmap bo.inode n s' ]
        ])
    rounds zero h = absurd (omega arith)
    rounds (suc n) more =
        first_round unmap works bo.inode n (sweep unmap bo.inode [] s.mappings s) (
          sweep-Cleared unmap works bo.inode [] s.mappings s (λ w. omega (arith, counted w))
            (omega arith) nil)
