-- ===== src/References/Counts.antt =====
-- What the table counts: the planes of the live buffers of each inode.
use external_minigbm.Base.{
  ℕ, ◌+◌, ◌-◌, ◌^◌, ◌<◌, ◌≡◌, ◌≢◌, refl, ◌∙◌, ap, inl, inr, true, false, Option, none, some, arith,
  ltb, ◌==◌, if◌then◌else◌, wrap64, Option-cases, Bool-cases,
}
use external_minigbm.References.{HashTable, acquire_plane, release_plane}

-- The count of an inode; a key that is not there counts 0.
abbrev pub count_of : Option ℕ → ℕ
count_of none = 0
count_of (some n) = n

-- The entry of a count: a key that counts 0 is not there.
abbrev pub entry : ℕ → Option ℕ
entry n = if n == 0 then none else some n

-- The table holds exactly the entries of its counts.
pub entry-count_of : (o : Option ℕ) → o ≢ some 0 → o ≡ entry (count_of o)
entry-count_of none h = refl
entry-count_of (some n) h = ground arith

module _ (h : HashTable) where
  open h use {
    Table, lookup, insert, delete, lookup-insert, lookup-insert_ne, lookup-delete, lookup-delete_ne,
  }

  abbrev pub count : Table → ℕ → ℕ
  count t inode = count_of (lookup t inode)

  -- No entry counts 0: what is in the table is referred to.
  abbrev pub IsCounted : Table → Type 0
  IsCounted t = (inode : ℕ) → lookup t inode ≢ some 0

  pub lookup-acquire_plane :
      (t : Table) (inode : ℕ)
      → count t inode + 1 < 2 ^ 64
      → lookup (acquire_plane h t inode) inode ≡ some (count t inode + 1)
  unfolding acquire_plane
  lookup-acquire_plane t inode fits = elim (Option-cases (lookup t inode)) [
    | inl e ↦ rw (e, acquire_plane) (lookup-insert t inode 1 e)
    | inr (n, e) ↦
        let wrap : wrap64 (n + 1) ≡ n + 1 = omega (arith, ap count_of e) in
        rw (e, acquire_plane, wrap)
          (lookup-insert (delete t inode) inode (n + 1) (lookup-delete t inode))
  ]

  pub lookup-acquire_plane_ne :
      (t : Table) (inode j : ℕ) → j ≢ inode → lookup (acquire_plane h t inode) j ≡ lookup t j
  unfolding acquire_plane
  lookup-acquire_plane_ne t inode j ne = elim (Option-cases (lookup t inode)) [
    | inl e ↦ rw (e, acquire_plane) (lookup-insert_ne t inode _ j ne)
    | inr (n, e) ↦
        rw (e, acquire_plane)
          (lookup-insert_ne (delete t inode) inode _ j ne ∙ lookup-delete_ne t inode j ne)
  ]

  -- A released plane counts one less, and what counts nothing is not in the table.
  pub lookup-release_plane :
      (t : Table) (inode : ℕ)
      → IsCounted t
      → lookup (release_plane h t inode) inode ≡ entry (count t inode - 1)
  unfolding release_plane
  lookup-release_plane t inode counted = elim (Option-cases (lookup t inode)) [
    | inl e ↦ rw (e, release_plane) e
    | inr (n, e) ↦ elim (Bool-cases (ltb 1 n)) [
      | inl more ↦
          let some_left : (n - 1 == 0) ≡ false = ground arith in
          rw (e, release_plane, more, some_left)
            (lookup-insert (delete t inode) inode _ (lookup-delete t inode))
      | inr last ↦
          let none_left : (n - 1 == 0) ≡ true = ground arith in
          rw (e, release_plane, last, none_left) (lookup-delete t inode)
    ]
  ]

  pub lookup-release_plane_ne :
      (t : Table) (inode j : ℕ) → j ≢ inode → lookup (release_plane h t inode) j ≡ lookup t j
  unfolding release_plane
  lookup-release_plane_ne t inode j ne = elim (Option-cases (lookup t inode)) [
    | inl e ↦ rw (e, release_plane)
    | inr (n, e) ↦ elim (Bool-cases (ltb 1 n)) [
      | inl more ↦
          rw (e, release_plane, more)
            (lookup-insert_ne (delete t inode) inode _ j ne ∙ lookup-delete_ne t inode j ne)
      | inr last ↦ rw (e, release_plane, last) (lookup-delete_ne t inode j ne)
    ]
  ]

  pub count-entry : (n : ℕ) → count_of (entry n) ≡ n
  count-entry n = ground arith
