-- ===== src/Mappings/Map.antt =====
-- `drv_bo_map` keeps the counts of the vmas.
use external_minigbm.Base.{
  ℕ, ◌+◌, ◌^◌, ◌<◌, ◌≡◌, refl, sym, ◌∙◌, ap, inl, inr, Bool, true, false, ◌&&◌, Option, none, some,
  List, [], ◌∷◌, ◌++◌, arith, length, ◌==◌, if◌then◌else◌, Bool-cases, Option-cases,
}
use external_minigbm.Bo.{Bo}
use external_minigbm.Mappings.{
  Vma, Mapping, Rectangle, MapState, MapCall, store, shares, same_rect, first_match, update_vma,
  raise_mapping, raise_vma, find_or_map,
}
use external_minigbm.Mappings.Sound.{uses, refs, uses-le-length, uses-append, uses-update_mapping}

-- Each vma counts the mappings that refer to it.
abbrev pub Counted : MapState → Type 0
Counted s = (v : ℕ) → refs (s.vmas v) ≡ uses v s.mappings

some_injective : {a b : Mapping} → some a ≡ some b → a ≡ b
some_injective e = cc

first_match_test :
    (test : Mapping → Bool) (ms : List Mapping) {m : Mapping}
    → first_match test ms ≡ some m
    → test m ≡ true
unfolding first_match
first_match_test test [] h = cc
first_match_test test (n ∷ ms) {m} h = elim (Bool-cases (test n)) [
  | inl on ↦ let e : n ≡ m = some_injective (rw (on, first_match) at h) in ap test (sym e) ∙ on
  | inr off ↦ first_match_test test ms (rw (off, first_match) at h)
]

shares_vma :
    (vmas : ℕ → Option Vma) (inode map_flags : ℕ) (m : Mapping)
    → shares vmas inode map_flags m ≡ true
    → (vma : Vma) × (vmas m.vma ≡ some vma)
unfolding shares
shares_vma vmas inode map_flags m h = elim (Option-cases (vmas m.vma)) [
  | inl e ↦ let contra : false ≡ true = rw (e, shares) at h in cc
  | inr found ↦ found
]

-- One more mapping refers to `v`.
uses-push :
    (w : ℕ) (ms : List Mapping) (m : Mapping)
    → uses w (ms ++ (m ∷ [])) ≡ uses w ms + (if m.vma == w then 1 else 0)
unfolding uses
uses-push w ms m = omega (arith, uses-append w ms (m ∷ []))

raise-Counted :
    (s : MapState) (m : Mapping) {vma : Vma}
    → Counted s
    → length s.mappings < 2 ^ 31
    → s.vmas m.vma ≡ some vma
    → Counted
        (record s { vmas = update_vma m.vma raise_vma s.vmas; mappings = s.mappings ++ (m ∷ []) })
unfolding update_vma store
raise-Counted s m {vma} counted few found w =
    let push = uses-push w s.mappings m in
    let size = uses-le-length w s.mappings in
    elim (Bool-cases (w == m.vma)) [
      | inl here ↦
          let e : w ≡ m.vma = ground arith in
          let known : vma.refcount ≡ uses w s.mappings =
            sym (ap refs (ap s.vmas e ∙ found)) ∙ counted w in
          rw (found, here, update_vma) (ground (arith, push, size, known, e))
      | inr other ↦ rw (found, other, update_vma) (ground (arith, push, counted w))
    ]

new-Counted :
    (s : MapState) (m : Mapping) (vma : Vma)
    → Counted s
    → s.vmas m.vma ≡ none
    → vma.refcount ≡ 1
    → Counted (record s { vmas = store s.vmas m.vma (some vma); mappings = s.mappings ++ (m ∷ []) })
unfolding store
new-Counted s m vma counted free one w =
    let push = uses-push w s.mappings m in
    elim (Bool-cases (w == m.vma)) [
      | inl here ↦
          let e : w ≡ m.vma = ground arith in
          let unused : 0 ≡ uses w s.mappings = sym (ap refs (ap s.vmas e ∙ free)) ∙ counted w in
          rw here (ground (arith, push, unused, one, e))
      | inr other ↦ rw other (ground (arith, push, counted w))
    ]

-- The address that `calloc` gives for a new vma is not in use.
abbrev pub IsFree : MapState → Option ℕ → Type 0
IsFree s none = Unit
IsFree s (some v) = s.vmas v ≡ none

-- Where each vma counts the mappings that refer to it, there are fewer than 2^31 mappings and a new
-- vma is at a free address, the vmas count their mappings after `find_or_map` too, whether it found
-- the mapping, shared a vma, made one or failed.
pub find_or_map-Counted :
    (call : MapCall) (s : MapState) (bo : Bo) (rect : Rectangle) (map_flags : ℕ)
    → Counted s
    → length s.mappings < 2 ^ 31
    → IsFree s call.new_vma
    → Counted (find_or_map call s bo rect map_flags).0
unfolding find_or_map
find_or_map-Counted call s bo rect map_flags counted few free =
    elim (Option-cases
      (first_match (λ m. shares s.vmas bo.inode map_flags m && same_rect rect m.rect) s.mappings)) [
        | inr (prior, e) ↦
            rw (e, find_or_map)
              (λ w.
                counted w
                ∙ sym (uses-update_mapping w prior.self raise_mapping s.mappings (λ m. refl)))
        | inl no_exact ↦
            elim (Option-cases (first_match (shares s.vmas bo.inode map_flags) s.mappings)) [
              | inr (prior, e) ↦
                  let (vma, found) =
                    shares_vma s.vmas bo.inode map_flags prior
                      (first_match_test (shares s.vmas bo.inode map_flags) s.mappings e) in
                  rw (no_exact, e, find_or_map)
                    (raise-Counted s
                      (record {
                        self = call.new_mapping;
                        vma = prior.vma;
                        rect = rect;
                        refcount = 1;
                      })
                      counted few found)
              | inl no_vma ↦ elim (Option-cases call.new_vma) [
                | inl e ↦ rw (no_exact, no_vma, e, find_or_map) counted
                | inr (v, e) ↦ elim (Option-cases call.backend_map) [
                  | inl failed ↦ rw (no_exact, no_vma, e, failed, find_or_map) counted
                  | inr (answer, mapped) ↦
                      let unused : s.vmas v ≡ none = rw e at free in
                      rw (no_exact, no_vma, e, mapped, find_or_map)
                        (new-Counted s
                          (record { self = call.new_mapping; vma = v; rect = rect; refcount = 1 }) _
                          counted unused refl)
                ]
              ]
            ]
      ]
