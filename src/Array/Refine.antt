-- ===== src/Array/Refine.antt =====
-- A `drv_array` stands for the list of its items, and its slots are never many more than that.
use mathlib.Core.List.{append_assoc, map-append}
use external_minigbm.Base.{
  ℕ, zero, suc, ◌+◌, ◌-◌, ◌*◌, ◌/◌, ◌^◌, ◌≤◌, ◌<◌, ◌≡◌, refl, sym, ap, ◌∙◌, ◌⊎◌, inl, inr, true,
  ◌&&◌, Option, none, some, List, [], ◌∷◌, ◌++◌, map, arith, ltb, leb, Returns, Bool-cases, length,
  get_elem?, get_or, set, length-append, div_round_up, wrap32,
}
use external_minigbm.Array.{
  DrvArray, plenty, realloc, init, resize, store_item, append, shift, take_out, remove, at_idx,
}

div_round_up_two : (n : ℕ) → n ≤ 2 ^ 31 → div_round_up n 2 ≡ (n + 1) / 2
unfolding div_round_up
div_round_up_two n h = omega arith

module _ {ℓ} {A : Type ℓ} where
  -- The first `size` slots hold the items `xs` in order, and `allocations` counts the slots.
  pub record Slots (array : DrvArray A) (xs : List A) : Type ℓ where
    pub rest : List (Option A)
    pub slots : array.items ≡ map some xs ++ rest
    pub counted : array.size ≡ length xs
    pub capacity : array.allocations ≡ length xs + length rest

  -- At least two slots, and no more than two for each item above that.
  pub record Holds (array : DrvArray A) (xs : List A) : Type ℓ where
    pub held : Slots array xs
    pub open held use *
    pub least : 2 ≤ array.allocations
    pub dense : (array.allocations ≡ 2) ⊎ (array.allocations ≤ 2 * array.size)
    pub word : array.allocations ≤ 2 ^ 31

  length-map-some : (xs : List A) → length (map (λ (x : A). some x) xs) ≡ length xs
  length-map-some [] = refl
  length-map-some (x ∷ xs) = ap suc (length-map-some xs)

  get_or-map :
      (xs : List A) (rest : List (Option A)) (i : ℕ)
      → i < length xs
      → get_or (map (λ (x : A). some x) xs ++ rest) i none ≡ get_elem? xs i
  get_or-map [] rest i h = elim h [ ]
  get_or-map (x ∷ xs) rest zero h = refl
  get_or-map (x ∷ xs) rest (suc i) h = get_or-map xs rest i (omega arith)

  get_elem?-none : (xs : List A) (i : ℕ) → length xs ≤ i → get_elem? xs i ≡ none
  get_elem?-none [] i h = refl
  get_elem?-none (x ∷ xs) zero h = absurd (omega arith)
  get_elem?-none (x ∷ xs) (suc i) h = get_elem?-none xs i (omega arith)

  -- Writing at the end of a prefix.
  set-prefix :
      (pre : List (Option A)) (u v : Option A) (post : List (Option A))
      → set (pre ++ (u ∷ post)) (length pre) v ≡ pre ++ (v ∷ post)
  set-prefix [] u v post = refl
  set-prefix (w ∷ pre) u v post = ap (λ zs. w ∷ zs) (set-prefix pre u v post)

  get_or-prefix :
      (pre : List (Option A)) (u v : Option A) (post : List (Option A))
      → get_or (pre ++ (u ∷ v ∷ post)) (suc (length pre)) none ≡ v
  get_or-prefix [] u v post = refl
  get_or-prefix (w ∷ pre) u v post = get_or-prefix pre u v post

  -- What the last step of `shift` leaves in the slot that it frees.
  last_or : Option A → List (Option A) → Option A
  last_or u [] = u
  last_or u (v ∷ vs) = last_or v vs

  shift_lem :
      (vs pre : List (Option A)) (u : Option A) (post : List (Option A)) (i : ℕ)
      → i ≡ suc (length pre)
      → shift (length vs) i (pre ++ (u ∷ (vs ++ post))) ≡ pre ++ (vs ++ (last_or u vs ∷ post))
  unfolding shift last_or
  shift_lem [] pre u post i e = refl
  shift_lem (v ∷ vs) pre u post i e =
      let back : suc (length pre) - 1 ≡ length pre = omega arith in
      let moved : set (pre ++ (u ∷ v ∷ (vs ++ post))) (suc (length pre) - 1)
            (get_or (pre ++ (u ∷ v ∷ (vs ++ post))) (suc (length pre)) none)
          ≡ pre ++ (v ∷ v ∷ (vs ++ post)) =
        rw (get_or-prefix pre u v (vs ++ post), back) (set-prefix pre u v (v ∷ (vs ++ post))) in
      let rest =
        shift_lem vs (pre ++ (v ∷ [])) v post (suc (length pre) + 1)
          (omega (arith, length-append pre (v ∷ []))) in
      rw e (
        ap (shift (length vs) (suc (length pre) + 1))
          (moved ∙ sym (append_assoc pre (v ∷ []) (v ∷ (vs ++ post))))
        ∙ rest
        ∙ append_assoc pre (v ∷ []) (vs ++ (last_or v vs ∷ post)))

  realloc-append :
      (ms rest : List (Option A)) (k n : ℕ)
      → k ≡ length ms + n
      → realloc (ms ++ rest) k ≡ ms ++ realloc rest n
  unfolding realloc
  realloc-append [] rest k n e = let e' : k ≡ n = omega arith in rw e'
  realloc-append (m ∷ ms) rest zero n e = absurd (omega arith)
  realloc-append (m ∷ ms) rest (suc k) n e =
      ap (λ zs. m ∷ zs) (realloc-append ms rest k n (omega arith))

  length-realloc : (ms : List (Option A)) (n : ℕ) → length (realloc ms n) ≡ n
  unfolding realloc
  length-realloc [] zero = refl
  length-realloc (m ∷ ms) zero = refl
  length-realloc [] (suc n) = ap suc (length-realloc [] n)
  length-realloc (m ∷ ms) (suc n) = ap suc (length-realloc ms n)

  resize-Slots :
      {array : DrvArray A} {xs : List A} (n : ℕ)
      → Slots array xs
      → length xs ≤ n
      → Slots (resize array n) xs
  unfolding resize
  resize-Slots {xs} n h fits = record {
    rest = realloc h.rest (n - length xs);
    slots =
        rw h.slots (
          realloc-append (map some xs) h.rest n (n - length xs)
            (omega (arith, length-map-some xs)));
    counted = h.counted;
    capacity = omega (arith, length-realloc h.rest (n - length xs));
  }

  store-slots :
      (xs : List A) (rest : List (Option A)) (x : A)
      → 0 < length rest
      → (rest' : List (Option A)) × (set (map some xs ++ rest) (length xs) (some x)
          ≡ map some (xs ++ (x ∷ [])) ++ rest')
        × (length rest ≡ suc (length rest'))
  store-slots [] [] x h = absurd (omega arith)
  store-slots [] (r ∷ rest) x h = (rest, refl, refl)
  store-slots (y ∷ xs) rest x h =
      let more = store-slots xs rest x h in (more.0, ap (λ zs. some y ∷ zs) more.1, more.2)

  store_item-Slots :
      {array : DrvArray A} {xs : List A} (x : A)
      → Slots array xs
      → array.size < array.allocations
      → array.allocations < 2 ^ 32
      → Slots (store_item array x) (xs ++ (x ∷ []))
  unfolding store_item
  store_item-Slots {xs} x h room word =
      let stored = store-slots xs h.rest x (omega arith) in
      record {
        rest = stored.0;
        slots = rw (h.slots, h.counted) stored.1;
        counted = omega (arith, length-append xs (x ∷ []));
        capacity = omega (arith, length-append xs (x ∷ []), stored.2);
      }

  -- `append` on an array of a list, of at most 2^30 slots and where memory suffices, returns an array
  -- of the list with the item at its end; the slots stay dense whether they grew or not.
  pub append-Holds :
      {array : DrvArray A} {xs : List A} (x : A)
      → Holds array xs
      → array.allocations ≤ 2 ^ 30
      → Returns (λ array'. Holds array' (xs ++ (x ∷ []))) (append plenty array x)
  unfolding append
  append-Holds {array} {xs} x h fits = elim (Bool-cases (leb array.allocations array.size)) [
    | inl full ↦ (
      _,
      rw full,
      record {
        held =
            store_item-Slots x (resize-Slots (wrap32 (array.allocations * 2)) h.held (ground arith))
              (ground arith) (ground arith);
        least = (ground arith);
        dense = (ground arith);
        word = (ground arith);
      },
    )
    | inr room ↦ (
      _,
      rw room,
      record {
        held = store_item-Slots x h.held (ground arith) (ground arith);
        least = (ground arith);
        dense = (ground arith);
        word = (ground arith);
      },
    )
  ]

  take_out-Slots :
      {array : DrvArray A} (before : List A) (x : A) (after : List A)
      → Slots array (before ++ (x ∷ after))
      → array.allocations ≤ 2 ^ 31
      → Slots (take_out array (length before)) (before ++ after)
  unfolding take_out
  take_out-Slots {array} before x after h word =
      let pre = map (λ (x : A). some x) before in
      let vs = map (λ (x : A). some x) after in
      let n = length before in
      let at : n ≡ length pre = sym (length-map-some before) in
      let total = length-append before (x ∷ after) in
      let split : map some (before ++ (x ∷ after)) ++ h.rest ≡ pre ++ (some x ∷ (vs ++ h.rest)) =
        simp (map-append, append_assoc) in
      let closed = shift_lem vs pre none h.rest (length pre + 1) (omega arith) in
      let rounds : array.size - (n + 1) ≡ length vs =
        omega (arith, h.counted, total, length-map-some after) in
      record {
        rest = last_or none vs ∷ h.rest;
        slots =
            rw (rounds, h.slots, split, at, set-prefix pre (some x) none (vs ++ h.rest), closed)
              (simp (map-append, append_assoc));
        counted = omega (arith, h.counted, total, length-append before after);
        capacity = omega (arith, h.capacity, total, length-append before after);
      }

  -- `remove` at the index of an item, where memory suffices, returns an array of the list without the
  -- item: the others keep their order, and the slots stay dense whether they shrank or not.
  pub remove-Holds :
      {array : DrvArray A} (before : List A) (x : A) (after : List A)
      → Holds array (before ++ (x ∷ after))
      → Returns (λ array'. Holds array' (before ++ after)) (remove plenty array (length before))
  unfolding remove
  remove-Holds {array} before x after h =
      let left = take_out array (length before) in
      let half = div_round_up array.allocations 2 in
      let total = length-append before (x ∷ after) in
      let rest = take_out-Slots before x after h.held h.word in
      let halved : half ≡ (array.allocations + 1) / 2 = div_round_up_two array.allocations h.word in
      let inside : ltb (length before) array.size ≡ true = ground (arith, total) in
      elim (Bool-cases (ltb left.size half && ltb 2 array.allocations)) [
        | inl shrink ↦ (
          _,
          rw (inside, shrink),
          record {
            held =
                resize-Slots half (rest)
                  (ground (arith, total, halved, rest.counted, length-append before after));
            least = (ground (arith, total, halved, rest.counted, length-append before after));
            dense = (ground (arith, total, halved, rest.counted, length-append before after));
            word = (ground (arith, total, halved, rest.counted, length-append before after));
          },
        )
        | inr stay ↦ (
          _,
          rw (inside, stay),
          record {
            held = rest;
            least = (ground (arith, total, halved, rest.counted, length-append before after));
            dense = (ground (arith, total, halved, rest.counted, length-append before after));
            word = (ground (arith, total, halved, rest.counted, length-append before after));
          },
        )
      ]

-- `init`, where memory suffices, returns an array of the empty list.
pub init-Holds {ℓ} :
    (A : Type ℓ) (item_size : ℕ) → Returns (λ array. Holds array []) (init A plenty item_size)
unfolding init
init-Holds A item_size = (
  _,
  refl,
  record {
    held = record { rest = none ∷ none ∷ []; slots = refl; counted = refl; capacity = omega arith };
    least = omega arith;
    dense = inl refl;
    word = omega arith;
  },
)

-- On an array of a list, `at_idx` returns the item at the index, and fails past the last one.
pub at_idx-Holds {ℓ} :
    {A : Type ℓ} {array : DrvArray A} {xs : List A} (i : ℕ)
    → Holds array xs
    → at_idx array i ≡ get_elem? xs i
unfolding at_idx
at_idx-Holds {array} {xs} i h = elim (Bool-cases (ltb i array.size)) [
  | inl inside ↦ rw (inside, h.slots) (get_or-map xs h.rest i (ground arith))
  | inr outside ↦ rw outside (sym (get_elem?-none xs i (ground arith)))
]
