-- ===== src/Lru/Refine.antt =====
-- The ring refines a list of entries, the last used one first.
use mathlib.Core.List.{append_assoc, append-nil}
use external_minigbm.Base.{
  ℕ, zero, suc, ◌+◌, ◌≤◌, ◌≡◌, ◌≢◌, refl, sym, ◌∙◌, ap, subst, Bool, true, false, Option, none,
  some, List, [], ◌∷◌, ◌++◌, ◌==◌, ==_ne, if◌then◌else◌, arith, length, length-append, Returns,
  Bool-cases, Option-cases, inl, inr,
}
use external_minigbm.Lru.{
  Lru, head, put, lru_remove_entry, lru_link_entry, find_from, lru_find, lru_insert, lru_init,
}
use external_minigbm.Lru.Links.{
  Avoids, Unique, Follows, Precedes, first_or, last_or, put_self, put_ne, Unique-remove,
  Follows-put, Precedes-put, Follows-at, Precedes-at, Follows-first, Precedes-last, Follows-skip,
  Precedes-skip, Avoids-left, Avoids-right,
}

-- From the head both pointers lead through the entries of the list, in the two directions.
pub record IsChain (lru : Lru) (xs : List ℕ) : Type 0 where
  pub forward : Follows lru.next head xs head
  pub backward : Precedes lru.prev head xs head
  pub unique : Unique (head ∷ xs)

pub record IsRing (lru : Lru) (xs : List ℕ) : Type 0 where
  pub chain : IsChain lru xs
  pub counted : lru.count ≡ length xs
  pub bounded : lru.count ≤ lru.max

last_or-Avoids : (x a : ℕ) (xs : List ℕ) → a ≢ x → Avoids x xs → last_or a xs ≢ x
last_or-Avoids x a [] ne h = ne
last_or-Avoids x a (y ∷ xs) ne h = last_or-Avoids x y xs h.0 h.1

remove_entry-IsChain :
    (lru : Lru) (xs : List ℕ) (x : ℕ) (ys : List ℕ)
    → IsChain lru (xs ++ (x ∷ ys))
    → IsChain (lru_remove_entry lru x) (xs ++ ys)
unfolding lru_remove_entry
remove_entry-IsChain lru xs x ys c =
    let pred : lru.prev x ≡ last_or head xs = Precedes-at lru.prev head xs x ys head c.backward in
    let rest = Unique-remove xs x ys c.unique.1 in
    let outside = Avoids-right head xs (x ∷ ys) c.unique.0 in
    let apart : x ≢ lru.prev x = λ e.
      last_or-Avoids x head xs (λ z. outside.0 (sym z)) (Avoids-left x xs ys rest.1)
        (sym (e ∙ pred)) in
    let succ : put lru.next (lru.prev x) (lru.next x) x ≡ first_or ys head =
      put_ne lru.next (lru.prev x) (lru.next x) x apart
      ∙ Follows-at lru.next head xs x ys head c.forward in
    record {
      forward =
          subst (λ (p : ℕ). Follows (put lru.next p (lru.next x)) head (xs ++ ys) head) (sym pred)
            (Follows-skip lru.next head xs x ys head c.unique c.forward);
      backward =
          subst (λ (p : ℕ). Precedes (put lru.prev p (lru.prev x)) head (xs ++ ys) head) (sym succ)
            (Precedes-skip lru.prev head xs x ys head c.unique.1 c.unique.0 c.backward);
      unique = (Unique-remove (head ∷ xs) x ys c.unique).0;
    }

linked_forward :
    (f : ℕ → ℕ) (e : ℕ) (xs : List ℕ)
    → Avoids e (head ∷ xs)
    → Unique (head ∷ xs)
    → Follows f head xs head
    → Follows (put (put f e (f head)) head e) head (e ∷ xs) head
linked_forward f e [] out u c = (
  put_self (put f e (f head)) head e,
  put_ne (put f e (f head)) head e e (λ z. out.0 (sym z)) ∙ put_self f e (f head) ∙ c,
)
linked_forward f e (y ∷ ys) out u c = (
  put_self (put f e (f head)) head e,
  (
    put_ne (put f e (f head)) head e e (λ z. out.0 (sym z)) ∙ put_self f e (f head) ∙ c.0,
    Follows-put (put f e (f head)) head e y ys head u.0
        (Follows-put f e (f head) y ys head out.1 c.1),
  ),
)

linked_backward :
    (g : ℕ → ℕ) (e : ℕ) (xs : List ℕ)
    → Avoids e (head ∷ xs)
    → Unique (head ∷ xs)
    → Precedes g head xs head
    → Precedes (put (put g e head) (first_or xs head) e) head (e ∷ xs) head
linked_backward g e [] out u c = (
  put_ne (put g e head) head e e (λ z. out.0 (sym z)) ∙ put_self g e head,
  put_self (put g e head) head e,
)
linked_backward g e (y ∷ ys) out u c = (
  put_ne (put g e head) y e e (λ z. out.1.0 (sym z)) ∙ put_self g e head,
  (
    put_self (put g e head) y e,
    Precedes-put (put g e head) y e y ys head u.1.0 (λ z. u.0.0 (sym z))
        (Precedes-put g e head y ys head out.1.1 out.0 c.1),
  ),
)

link_entry-IsChain :
    (lru : Lru) (e : ℕ) (xs : List ℕ)
    → Avoids e (head ∷ xs)
    → IsChain lru xs
    → IsChain (lru_link_entry lru e) (e ∷ xs)
unfolding lru_link_entry
link_entry-IsChain lru e xs out c =
    let target : put lru.next e (lru.next head) head ≡ first_or xs head =
      put_ne lru.next e (lru.next head) head out.0
      ∙ Follows-first lru.next head xs head c.forward in
    record {
      forward = linked_forward lru.next e xs out c.unique c.forward;
      backward =
          subst (λ (p : ℕ). Precedes (put (put lru.prev e head) p e) head (e ∷ xs) head)
            (sym target) (linked_backward lru.prev e xs out c.unique c.backward);
      unique = (((λ z. out.0 (sym z)), c.unique.0), (out.1, c.unique.1));
    }

-- The list without its last entry.
abbrev pub drop_last : List ℕ → List ℕ
drop_last [] = []
drop_last (x ∷ []) = []
drop_last (x ∷ y ∷ ys) = x ∷ drop_last (y ∷ ys)

split_last : (x : ℕ) (xs : List ℕ) → (x ∷ xs) ≡ drop_last (x ∷ xs) ++ (last_or x xs ∷ [])
split_last x [] = refl
split_last x (y ∷ ys) = ap (λ zs. x ∷ zs) (split_last y ys)

-- What an insertion makes of the list: a full one loses its last entry.
abbrev pub inserted : ℕ → ℕ → List ℕ → List ℕ
inserted max entry xs = entry ∷ (if length xs == max then drop_last xs else xs)

-- The first entry that the test accepts, and the list without it.
abbrev pub first_where : (ℕ → Bool) → List ℕ → Option ℕ
first_where eq [] = none
first_where eq (x ∷ xs) = let rest = first_where eq xs in if eq x then some x else rest

abbrev pub drop_first : (ℕ → Bool) → List ℕ → List ℕ
drop_first eq [] = []
drop_first eq (x ∷ xs) = let rest = drop_first eq xs in if eq x then xs else x ∷ rest

-- What a search makes of the list: the entry that it finds moves to the front.
abbrev pub touched : (ℕ → Bool) → List ℕ → List ℕ
touched eq xs = elim (first_where eq xs) [ none ↦ xs | some x ↦ x ∷ drop_first eq xs ]

-- The eviction of the last entry.
evicted-IsChain :
    (lru : Lru) (x : ℕ) (xs : List ℕ)
    → IsChain lru (x ∷ xs)
    → IsChain (lru_remove_entry lru (lru.prev head)) (drop_last (x ∷ xs))
evicted-IsChain lru x xs c =
    let last : lru.prev head ≡ last_or x xs =
      Precedes-last lru.prev head (x ∷ xs) head c.backward in
    subst (λ (e : ℕ). IsChain (lru_remove_entry lru e) (drop_last (x ∷ xs))) (sym last)
      (subst (λ zs. IsChain (lru_remove_entry lru (last_or x xs)) zs)
        (append-nil (drop_last (x ∷ xs)))
        (remove_entry-IsChain lru (drop_last (x ∷ xs)) (last_or x xs) []
          (subst (λ zs. IsChain lru zs) (split_last x xs) c)))

length-drop_last : (x : ℕ) (xs : List ℕ) → length (drop_last (x ∷ xs)) ≡ length xs
length-drop_last x [] = refl
length-drop_last x (y ∷ ys) = ap suc (length-drop_last y ys)

drop_last-Avoids : (a x : ℕ) (xs : List ℕ) → Avoids a (x ∷ xs) → Avoids a (drop_last (x ∷ xs))
drop_last-Avoids a x [] h = tt
drop_last-Avoids a x (y ∷ ys) h = (h.0, drop_last-Avoids a y ys h.1)

-- On a ring of a list with room for at least one entry, `lru_insert` of an entry that is not in it
-- puts the entry first; a full ring loses its last entry, and the count never passes the maximum.
pub insert-IsRing :
    {lru : Lru} (entry : ℕ) (xs : List ℕ)
    → IsRing lru xs
    → 1 ≤ lru.max
    → Avoids entry (head ∷ xs)
    → IsRing (lru_insert lru entry) (inserted lru.max entry xs)
unfolding lru_insert lru_link_entry lru_remove_entry
insert-IsRing {lru} entry [] r room out =
    let space : (lru.count == lru.max) ≡ false = ground (arith, r.counted) in
    let space' : (0 == lru.max) ≡ false = ground arith in
    rw (space, space')
      (record {
        chain =
            link_entry-IsChain (record lru { count = lru.count + 1 }) entry [] out
              (record {
                forward = r.chain.forward;
                backward = r.chain.backward;
                unique = r.chain.unique;
              });
        counted = omega (arith, r.counted);
        bounded = omega (arith, r.counted);
      })
insert-IsRing {lru} entry (x ∷ xs) r room out = elim (Bool-cases (length (x ∷ xs) == lru.max)) [
  | inl full ↦
      let full' : (lru.count == lru.max) ≡ true = ground (arith, r.counted) in
      rw (full, full')
        (record {
          chain =
              link_entry-IsChain (lru_remove_entry lru (lru.prev head)) entry (drop_last (x ∷ xs))
                (out.0, drop_last-Avoids entry x xs out.1) (evicted-IsChain lru x xs r.chain);
          counted = omega (arith, r.counted, length-drop_last x xs);
          bounded = r.bounded;
        })
  | inr space ↦
      let space' : (lru.count == lru.max) ≡ false = ground (arith, r.counted) in
      rw (space, space')
        (record {
          chain =
              link_entry-IsChain (record lru { count = lru.count + 1 }) entry (x ∷ xs) out
                (record {
                  forward = r.chain.forward;
                  backward = r.chain.backward;
                  unique = r.chain.unique;
                });
          counted = omega (arith, r.counted);
          bounded = ground (arith, r.counted, r.bounded);
        })
]

drop_first_here : (eq : ℕ → Bool) (x : ℕ) (ys : List ℕ) → eq x ≡ true → drop_first eq (x ∷ ys) ≡ ys
drop_first_here eq x ys on = rw on

drop_first_there :
    (eq : ℕ → Bool) (x : ℕ) (ys : List ℕ)
    → eq x ≡ false
    → drop_first eq (x ∷ ys) ≡ x ∷ drop_first eq ys
drop_first_there eq x ys off = rw off

-- What the loop finds among `rest`, behind the entries `before` that the test does not accept.
module _ (eq : ℕ → Bool) where
  abbrev seen : List ℕ → List ℕ → List ℕ
  seen before rest = elim (first_where eq rest) [
    | none ↦ before ++ rest
    | some x ↦ x ∷ (before ++ drop_first eq rest)
  ]

  record Searched (before rest : List ℕ) (max : ℕ) (answer : Lru × Option ℕ) : Type 0 where
    found : answer.1 ≡ first_where eq rest
    chain : IsChain answer.0 (seen before rest)
    count : answer.0.count ≡ length before + length rest
    limit : answer.0.max ≡ max

  seen-next :
      (before : List ℕ) (x : ℕ) (ys : List ℕ)
      → eq x ≡ false
      → seen (before ++ (x ∷ [])) ys ≡ seen before (x ∷ ys)
  seen-next before x ys off = elim (Option-cases (first_where eq ys)) [
    | inl e ↦ rw (off, e, seen, drop_first) (append_assoc before (x ∷ []) ys)
    | inr (y, e) ↦
        rw (off, e, seen)
          (ap (λ zs. y ∷ zs)
            (append_assoc before (x ∷ []) (drop_first eq ys)
              ∙ ap (λ zs. before ++ zs) (sym (drop_first_there eq x ys off))))
  ]

  Searched-next :
      (before : List ℕ) (x : ℕ) (ys : List ℕ) (max : ℕ)
      → eq x ≡ false
      → {o : Option (Lru × Option ℕ)} → Returns (Searched (before ++ (x ∷ [])) ys max) o
      → Returns (Searched before (x ∷ ys) max) o
  Searched-next before x ys max off (answer, e, s) = (
    answer,
    e,
    record {
      found = s.found ∙ rw off;
      chain = subst (λ zs. IsChain answer.0 zs) (seen-next before x ys off) s.chain;
      count = omega (arith, s.count, length-append before (x ∷ []));
      limit = s.limit;
    },
  )

  -- The entry is found here.
  Searched-here :
      (lru : Lru) (before : List ℕ) (x : ℕ) (ys : List ℕ)
      → eq x ≡ true
      → IsChain lru (before ++ (x ∷ ys))
      → lru.count ≡ length before + length (x ∷ ys)
      → Searched before (x ∷ ys) lru.max (lru_link_entry (lru_remove_entry lru x) x, some x)
  unfolding lru_link_entry lru_remove_entry
  Searched-here lru before x ys on c count = record {
    found = rw on;
    chain =
        rw (on, seen)
          (subst (λ zs. IsChain (lru_link_entry (lru_remove_entry lru x) x) (x ∷ (before ++ zs)))
            (sym (drop_first_here eq x ys on))
            (link_entry-IsChain (lru_remove_entry lru x) x (before ++ ys)
              (
                (λ e. (Avoids-right head before (x ∷ ys) c.unique.0).0 (sym e)),
                (Unique-remove before x ys c.unique.1).1,
              )
              (remove_entry-IsChain lru before x ys c)));
    count = count;
    limit = refl;
  }

  find_from-Searched :
      (n : ℕ) (lru : Lru) (before rest : List ℕ)
      → length rest ≤ n
      → IsChain lru (before ++ rest)
      → lru.count ≡ length before + length rest
      → Returns (Searched before rest lru.max) (find_from eq n lru (first_or rest head))
  unfolding find_from
  find_from-Searched zero lru before [] fits c count =
      ((lru, none), refl, record { found = refl; chain = c; count = count; limit = refl })
  find_from-Searched (suc n) lru before [] fits c count =
      ((lru, none), refl, record { found = refl; chain = c; count = count; limit = refl })
  find_from-Searched zero lru before (x ∷ ys) fits c count = absurd (omega arith)
  find_from-Searched (suc n) lru before (x ∷ ys) fits c count =
      let inside : (x == head) ≡ false =
        ==_ne x head (Avoids-right head before (x ∷ ys) c.unique.0).0 in
      let along : lru.next x ≡ first_or ys head =
        Follows-at lru.next head before x ys head c.forward in
      elim (Bool-cases (eq x)) [
        | inl on ↦ (_, rw (inside, on), Searched-here lru before x ys on c count)
        | inr off ↦
            rw (inside, off, along)
              (Searched-next before x ys lru.max off (
                find_from-Searched n lru (before ++ (x ∷ [])) ys (omega arith)
                  (subst (λ zs. IsChain lru zs) (sym (append_assoc before (x ∷ []) ys)) c)
                  (omega (arith, count, length-append before (x ∷ [])))))
      ]

length-drop_first :
    (eq : ℕ → Bool) (xs : List ℕ) {y : ℕ}
    → first_where eq xs ≡ some y
    → suc (length (drop_first eq xs)) ≡ length xs
length-drop_first eq [] h = cc
length-drop_first eq (x ∷ xs) {y} h = elim (Bool-cases (eq x)) [
  | inl on ↦ rw on refl
  | inr off ↦ rw off (ap suc (length-drop_first eq xs {y = y} (rw (off, first_where) at h)))
]

length-touched : (eq : ℕ → Bool) (xs : List ℕ) → length (touched eq xs) ≡ length xs
length-touched eq xs = elim (Option-cases (first_where eq xs)) [
  | inl e ↦ rw (e, touched)
  | inr (y, e) ↦ rw (e, touched) (length-drop_first eq xs e)
]

-- What a search answers: the first entry that the test accepts, and the ring of the list with that
-- entry in front.
pub record Answered (eq : ℕ → Bool) (max : ℕ) (xs : List ℕ) (answer : Lru × Option ℕ) : Type 0 where
  pub found : answer.1 ≡ first_where eq xs
  pub ring : IsRing answer.0 (touched eq xs)
  pub limit : answer.0.max ≡ max

-- On a ring of a list, the loop of `lru_find` ends; it returns the first entry that the test accepts,
-- or null where there is none, and moves that entry to the front of the list and nothing else.
pub find-Answered :
    {lru : Lru} (eq : ℕ → Bool) (xs : List ℕ)
    → IsRing lru xs
    → Returns (Answered eq lru.max xs) (lru_find eq lru)
unfolding lru_find
find-Answered {lru} eq xs r =
    let start : lru.next head ≡ first_or xs head =
      Follows-first lru.next head xs head r.chain.forward in
    let (answer, e, s) =
      find_from-Searched eq lru.count lru [] xs (omega (arith, r.counted)) r.chain
        (omega (arith, r.counted)) in
    (
      answer,
      rw start e,
      record {
        found = s.found;
        ring = record {
          chain = s.chain;
          counted = omega (arith, s.count, length-touched eq xs);
          bounded = omega (arith, s.count, s.limit, r.counted, r.bounded);
        };
        limit = s.limit;
      },
    )

-- `lru_init` makes a ring of the empty list.
pub init-IsRing : (next prev : ℕ → ℕ) (max : ℕ) → IsRing (lru_init next prev max) []
unfolding lru_init
init-IsRing next prev max = record {
  chain = record {
    forward = put_self next head head;
    backward = put_self prev head head;
    unique = (tt, tt);
  };
  counted = refl;
  bounded = omega arith;
}
