-- ===== src/Buffers/Created.antt =====
-- What `drv_bo_create` can end with.
use external_minigbm.Base.{
  ℕ, zero, suc, ◌≡◌, ◌≢◌, refl, Bool, true, false, Option, none, some, ◌⊎◌, inl, inr, List, arith,
  ◌==◌, if◌then◌else◌, has_flag, Bool-cases, Option-cases,
}
use external_minigbm.Flags.{bo_use_test_alloc}
use external_minigbm.Errors.{einval, enomem, enotsup}
use external_minigbm.Bo.{Bo}
use external_minigbm.Resolve.{clear_flags}
use external_minigbm.Buffers.{
  Backend, Creation, failed, possible, created, finish, from_metadata, drv_bo_create, drv_bo_new,
}

-- What the backend answers for a new buffer `bo`, on every way that `drv_bo_create` asks it: the
-- buffer as it is left and the value returned.
pub data Answered (backend : Backend) (bo : Bo) (is_test_alloc test_only : Bool)
    : Bo × ℕ → Type 0 where
  by_v2 :
      (create : Bo → Bool → Bo × ℕ)
      → backend.bo_create_v2 ≡ some create
      → is_test_alloc ≡ false
      → Answered backend bo is_test_alloc test_only (create bo test_only)
  v2_test_alloc :
      (create : Bo → Bool → Bo × ℕ)
      → backend.bo_create_v2 ≡ some create
      → is_test_alloc ≡ true
      → Answered backend bo is_test_alloc test_only (bo, einval)
  only_computed :
      (compute : Bo → Option (List ℕ) → Bo × ℕ) (create : Bo → Bo × ℕ)
      → backend.bo_create_v2 ≡ none
      → backend.bo_metadata ≡ some (compute, create)
      → (is_test_alloc ≡ true) ⊎ ((compute bo none).1 ≢ 0)
      → Answered backend bo is_test_alloc test_only (compute bo none)
  computed :
      (compute : Bo → Option (List ℕ) → Bo × ℕ) (create : Bo → Bo × ℕ)
      → backend.bo_create_v2 ≡ none
      → backend.bo_metadata ≡ some (compute, create)
      → is_test_alloc ≡ false
      → (compute bo none).1 ≡ 0
      → Answered backend bo is_test_alloc test_only (create (compute bo none).0)
  by_create :
      backend.bo_create_v2 ≡ none
      → backend.bo_metadata ≡ none
      → is_test_alloc ≡ false
      → Answered backend bo is_test_alloc test_only (backend.bo_create bo)
  create_test_alloc :
      backend.bo_create_v2 ≡ none
      → backend.bo_metadata ≡ none
      → is_test_alloc ≡ true
      → Answered backend bo is_test_alloc test_only (bo, einval)

-- How a creation ends, given the new buffer and what the backend answers for it.
pub data Consistent (backend : Backend) (new : Option Bo) (is_test_alloc test_only : Bool)
    : Creation → Type 0 where
  no_memory : new ≡ none → Consistent backend new is_test_alloc test_only (failed enomem)
  no_test :
      (bo : Bo)
      → new ≡ some bo
      → backend.bo_create_v2 ≡ none
      → test_only ≡ true
      → Consistent backend new is_test_alloc test_only (failed enotsup)
  error :
      (bo after : Bo) (ret : ℕ)
      → new ≡ some bo
      → Answered backend bo is_test_alloc test_only (after, ret)
      → ret ≢ 0
      → Consistent backend new is_test_alloc test_only (failed ret)
  could :
      (bo after : Bo)
      → new ≡ some bo
      → Answered backend bo is_test_alloc test_only (after, 0)
      → test_only ≡ true
      → Consistent backend new is_test_alloc test_only possible
  made :
      (bo after : Bo)
      → new ≡ some bo
      → Answered backend bo is_test_alloc test_only (after, 0)
      → test_only ≡ false
      → Consistent backend new is_test_alloc test_only (created after)

module _ (backend : Backend) (new : Option Bo) (bo : Bo) (is_new : new ≡ some bo)
    (is_test_alloc : Bool) where
  finish-Consistent :
      (test_only : Bool) (answer : Bo × ℕ)
      → Answered backend bo is_test_alloc test_only answer
      → Consistent backend new is_test_alloc test_only (finish test_only answer)
  unfolding finish
  finish-Consistent true (after, zero) a = could bo after is_new a refl
  finish-Consistent false (after, zero) a = made bo after is_new a refl
  finish-Consistent test_only (after, suc n) a =
      let other : (suc n == 0) ≡ false = ground arith in
      rw other (error bo after (suc n) is_new a (λ z. ground (arith, z)))

  computed-Consistent :
      (compute : Bo → Option (List ℕ) → Bo × ℕ) (create : Bo → Bo × ℕ) (is_test : Bool)
      → backend.bo_create_v2 ≡ none
      → backend.bo_metadata ≡ some (compute, create)
      → is_test_alloc ≡ is_test
      → Answered backend bo is_test_alloc false (from_metadata create is_test (compute bo none))
  unfolding from_metadata
  computed-Consistent compute create true v2 m e = only_computed compute create v2 m (inl e)
  computed-Consistent compute create false v2 m e = elim (Bool-cases ((compute bo none).1 == 0)) [
    | inl well ↦ rw well (computed compute create v2 m e (ground (arith, well)))
    | inr other ↦ rw other (only_computed compute create v2 m (inr (λ z. ground (arith, other, z))))
  ]

  -- The ways that the backend is asked, by the functions that it has.
  abbrev chosen :
      Option (Bo → Bool → Bo × ℕ)
      → Option ((Bo → Option (List ℕ) → Bo × ℕ) × (Bo → Bo × ℕ))
      → Bool
      → Bool
      → Creation
  chosen v2 metadata is_test test_only = elim v2 [
    | some create ↦ finish test_only (if is_test then (bo, einval) else create bo test_only)
    | none ↦ if test_only then failed enotsup else elim metadata [
      | some (compute, create) ↦ finish false (from_metadata create is_test (compute bo none))
      | none ↦ finish false (if is_test then (bo, einval) else backend.bo_create bo)
    ]
  ]

  chosen-Consistent :
      (v2 : Option (Bo → Bool → Bo × ℕ))
      (metadata : Option ((Bo → Option (List ℕ) → Bo × ℕ) × (Bo → Bo × ℕ)))
      (is_test test_only : Bool)
      → backend.bo_create_v2 ≡ v2
      → backend.bo_metadata ≡ metadata
      → is_test_alloc ≡ is_test
      → Consistent backend new is_test_alloc test_only (chosen v2 metadata is_test test_only)
  chosen-Consistent (some create) m true test_only v e test =
      finish-Consistent test_only (bo, einval) (v2_test_alloc create v test)
  chosen-Consistent (some create) m false test_only v e real =
      finish-Consistent test_only (create bo test_only) (by_v2 create v real)
  chosen-Consistent none m is_test true v e test = no_test bo is_new v refl
  chosen-Consistent none (some (compute, create)) is_test false v e test =
      finish-Consistent false (from_metadata create is_test (compute bo none))
        (computed-Consistent compute create is_test v e test)
  chosen-Consistent none none true false v e test =
      finish-Consistent false (bo, einval) (create_test_alloc v e test)
  chosen-Consistent none none false false v e real =
      finish-Consistent false (backend.bo_create bo) (by_create v e real)

-- Whatever the backend answers: drv_bo_create ends with ENOMEM where no buffer can be made, with
-- ENOTSUP where it is to test only and the backend has no bo_create_v2, and else as the backend
-- answers on the way that it is asked (bo_create_v2; the metadata, and the object after it unless
-- it is a test buffer or the metadata failed; or bo_create; EINVAL for a test buffer without
-- metadata). A non-zero answer is passed on as the error; on 0, a call that only tests leaves no
-- buffer, and any other call leaves the buffer as the backend filled it in.
pub create-Consistent :
    (backend : Backend) (memory : Bool) (width height format use_flags : ℕ) (test_only : Bool)
    → Consistent backend
        (drv_bo_new memory width height format
          (clear_flags use_flags bo_use_test_alloc)
          (has_flag use_flags bo_use_test_alloc))
        (has_flag use_flags bo_use_test_alloc)
        test_only
        (drv_bo_create backend memory width height format use_flags test_only)
unfolding drv_bo_create
create-Consistent backend memory width height format use_flags test_only =
    let is_test_alloc = has_flag use_flags bo_use_test_alloc in
    let new =
      drv_bo_new memory width height format (clear_flags use_flags bo_use_test_alloc)
        is_test_alloc in
    elim (Option-cases new) [
      | inl e ↦ rw (e, drv_bo_create) (no_memory refl)
      | inr (bo, e) ↦
          rw (e, drv_bo_create)
            (chosen-Consistent backend (some bo) bo refl is_test_alloc backend.bo_create_v2
              backend.bo_metadata is_test_alloc test_only refl refl refl)
    ]
