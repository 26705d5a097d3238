-- ===== src/References/Lifetime.antt =====
-- `drv_bo_acquire` and `drv_bo_release`: the last buffer of an inode is known as such.
use external_minigbm.Base.{
  ℕ, zero, suc, ◌+◌, ◌-◌, ◌^◌, ◌≤◌, ◌<◌, ◌≡◌, ◌≢◌, refl, sym, ◌∙◌, ap, subst, inl, inr, true, false,
  none, some, arith, leb, ◌==◌, ==_ne, if◌then◌else◌, Option-cases,
}
use native.Mathlib.Decide.{ℕ_discrete}
use external_minigbm.Bo.{Bo}
use external_minigbm.References.{
  HashTable, acquire_plane, acquire_planes, drv_bo_acquire, release_plane, release_planes, all_gone,
  drv_bo_release,
}
use external_minigbm.References.Counts.{
  count_of, count, IsCounted, lookup-acquire_plane, lookup-acquire_plane_ne, lookup-release_plane,
  lookup-release_plane_ne, count-entry,
}

-- The inode that a buffer has once it is acquired.
abbrev pub inode_of : (ℕ → ℕ) → Bo → ℕ
inode_of plane_inode bo = if bo.inode == 0 then plane_inode 0 else bo.inode

module _ (h : HashTable) where
  open h use {Table, lookup}

  -- The table `t'` counts `n` more for `inode`, and is otherwise as `t`.
  pub record Acquired (t : Table) (inode n : ℕ) (t' : Table) : Type 0 where
    pub up : count h t' inode ≡ count h t inode + n
    pub others : (j : ℕ) → j ≢ inode → lookup t' j ≡ lookup t j
    pub kept : IsCounted h t'

  -- The table `t'` counts `n` less for `inode`, and is otherwise as `t`.
  pub record Released (t : Table) (inode n : ℕ) (t' : Table) : Type 0 where
    pub down : count h t' inode ≡ count h t inode - n
    pub others : (j : ℕ) → j ≢ inode → lookup t' j ≡ lookup t j
    pub kept : IsCounted h t'

  plane-Acquired :
      (t : Table) (inode : ℕ)
      → IsCounted h t
      → count h t inode + 1 < 2 ^ 64
      → Acquired t inode 1 (acquire_plane h t inode)
  plane-Acquired t inode counted fits =
      let e = lookup-acquire_plane h t inode fits in
      record {
        up = ap count_of e;
        others = λ j ne. lookup-acquire_plane_ne h t inode j ne;
        kept = λ j z. elim (ℕ_discrete j inode) [
          | yes eq ↦ ground (arith, e, ap (λ k. lookup (acquire_plane h t inode) k) eq)
          | no ne ↦ counted j (sym (lookup-acquire_plane_ne h t inode j ne) ∙ z)
        ];
      }

  Acquired-trans :
      {t t' t'' : Table} {inode n : ℕ}
      → Acquired t inode 1 t'
      → Acquired t' inode n t''
      → Acquired t inode (suc n) t''
  Acquired-trans one rest = record {
    up = omega (arith, rest.up, one.up);
    others = λ j other. rest.others j other ∙ one.others j other;
    kept = rest.kept;
  }

  planes-Acquired :
      (plane_inode : ℕ → ℕ) (n p : ℕ) (t : Table) (inode : ℕ)
      → IsCounted h t
      → inode ≢ 0
      → count h t inode + n < 2 ^ 64
      → ((acquire_planes h plane_inode n p t inode).1 ≡ inode)
        × Acquired t inode n (acquire_planes h plane_inode n p t inode).0
  unfolding acquire_planes
  planes-Acquired plane_inode zero p t inode counted ne fits =
      (refl, record { up = omega arith; others = λ j ne. refl; kept = counted })
  planes-Acquired plane_inode (suc n) p t inode counted ne fits =
      let one = plane-Acquired t inode counted (omega arith) in
      let rest =
        planes-Acquired plane_inode n (p + 1) (acquire_plane h t inode) inode one.kept ne
          (omega (arith, one.up)) in
      rw (acquire_planes, ==_ne inode 0 ne) (rest.0, Acquired-trans one rest.1)

  plane-Released :
      (t : Table) (inode : ℕ) → IsCounted h t → Released t inode 1 (release_plane h t inode)
  plane-Released t inode counted =
      let e = lookup-release_plane h t inode counted in
      record {
        down = ap count_of e ∙ count-entry h (count h t inode - 1);
        others = λ j ne. lookup-release_plane_ne h t inode j ne;
        kept = λ j z. elim (ℕ_discrete j inode) [
          | yes eq ↦ ground (arith, e, ap (λ k. lookup (release_plane h t inode) k) eq)
          | no ne ↦ counted j (sym (lookup-release_plane_ne h t inode j ne) ∙ z)
        ];
      }

  planes-Released :
      (n : ℕ) (t : Table) (inode : ℕ)
      → IsCounted h t
      → Released t inode n (release_planes h n t inode)
  unfolding release_planes
  planes-Released zero t inode counted = record {
    down = omega arith;
    others = λ j ne. refl;
    kept = counted;
  }
  planes-Released (suc n) t inode counted =
      let one = plane-Released t inode counted in
      let rest = planes-Released n (release_plane h t inode) inode one.kept in
      record {
        down = omega (arith, rest.down, one.down);
        others = λ j other. rest.others j other ∙ one.others j other;
        kept = rest.kept;
      }

  all_gone-none :
      (n : ℕ) (t : Table) (inode : ℕ) → lookup t inode ≡ none → all_gone h n t inode ≡ true
  unfolding all_gone
  all_gone-none zero t inode e = refl
  all_gone-none (suc n) t inode e = rw (e, all_gone) (all_gone-none n t inode e)

  all_gone_eq :
      (n : ℕ) (t : Table) (inode : ℕ)
      → IsCounted h t
      → all_gone h (suc n) t inode ≡ (count h t inode == 0)
  unfolding all_gone
  all_gone_eq n t inode counted = elim (Option-cases (lookup t inode)) [
    | inl e ↦ rw (e, all_gone) (all_gone-none n t inode e)
    | inr (num, e) ↦
        let some_left : (num == 0) ≡ false =
          ==_ne num 0 (λ z. counted inode (e ∙ ap (λ (k : ℕ). some k) z)) in
        rw (e, all_gone, some_left)
  ]

  -- The buffer's first plane settles the inode.
  all-Acquired :
      (plane_inode : ℕ → ℕ) (n : ℕ) (t : Table) (inode start : ℕ)
      → inode ≡ (if start == 0 then plane_inode 0 else start)
      → IsCounted h t
      → 1 ≤ n
      → inode ≢ 0
      → count h t inode + n < 2 ^ 64
      → ((acquire_planes h plane_inode n 0 t start).1 ≡ inode)
        × Acquired t inode n (acquire_planes h plane_inode n 0 t start).0
  unfolding acquire_planes
  all-Acquired plane_inode zero t inode start e counted some_planes ne fits = absurd (omega arith)
  all-Acquired plane_inode (suc n) t inode start e counted some_planes ne fits =
      let one = plane-Acquired t inode counted (omega arith) in
      let rest =
        planes-Acquired plane_inode n 1 (acquire_plane h t inode) inode one.kept ne
          (omega (arith, one.up)) in
      rw (acquire_planes, ← e) (rest.0, Acquired-trans one rest.1)

  -- On a table without an entry of 0, for a buffer of at least one plane whose inode (its own, or the
  -- one of its first plane's descriptor) is not 0, and where the count does not overflow,
  -- `drv_bo_acquire` gives the buffer that inode, and adds the number of its planes to the count of
  -- that inode and to no other.
  pub acquire_counts :
      (plane_inode : ℕ → ℕ) (t : Table) (bo : Bo)
      → IsCounted h t
      → 1 ≤ bo.metadata.num_planes
      → inode_of plane_inode bo ≢ 0
      → count h t (inode_of plane_inode bo) + bo.metadata.num_planes < 2 ^ 64
      → let (t', bo') = drv_bo_acquire h plane_inode t bo in
        (bo' ≡ record bo { inode = inode_of plane_inode bo })
        × Acquired t (inode_of plane_inode bo) bo.metadata.num_planes t'
  unfolding drv_bo_acquire
  acquire_counts plane_inode t bo counted some_planes ne fits =
      let all =
        all-Acquired plane_inode bo.metadata.num_planes t (inode_of plane_inode bo) bo.inode refl
          counted some_planes ne fits in
      (ap (λ (k : ℕ). record bo { inode = k }) all.0, all.1)

  -- On a table without an entry of 0, for a buffer of at least one plane, `drv_bo_release` takes the
  -- number of the buffer's planes off the count of its inode, and returns true exactly where nothing
  -- is left of it.
  pub release_counts :
      (t : Table) (bo : Bo)
      → IsCounted h t
      → 1 ≤ bo.metadata.num_planes
      → let (t', last) = drv_bo_release h t bo in
        Released t bo.inode bo.metadata.num_planes t'
        × (last ≡ leb (count h t bo.inode) bo.metadata.num_planes)
  unfolding drv_bo_release
  release_counts t bo counted some_planes =
      let n = bo.metadata.num_planes in
      let t' = release_planes h n t bo.inode in
      let released = planes-Released n t bo.inode counted in
      let pred : n ≡ suc (n - 1) = omega arith in
      let gone : all_gone h n t' bo.inode ≡ (count h t' bo.inode == 0) =
        subst (λ k. all_gone h k t' bo.inode ≡ (count h t' bo.inode == 0)) (sym pred)
          (all_gone_eq (n - 1) t' bo.inode released.kept) in
      (released, gone ∙ ground (arith, released.down))
