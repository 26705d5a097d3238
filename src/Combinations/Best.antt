-- ===== src/Combinations/Best.antt =====
-- `drv_get_combination` finds the supported combination of the highest priority.
use external_minigbm.Base.{
  ℕ, ◌≤◌, ◌<◌, ◌≡◌, ◌≢◌, refl, inl, inr, true, false, ◌&&◌, Option, none, some, [], ◌∷◌, ◌++◌,
  arith, Bool-cases, ap, ◌==◌, ◌||◌,
}
use external_minigbm.Combinations.{
  Combination, Combinations, supports, is_better, best_of, drv_get_combination,
}
use external_minigbm.Drm.{drm_format_none}
use external_minigbm.Flags.{bo_use_none}

module _ (format use_flags : ℕ) where
  -- Every combination of the list that supports the request has at most this priority.
  abbrev pub AtMost : ℕ → Combinations → Type 0
  AtMost priority [] = Unit
  AtMost priority (c ∷ combos) =
      (supports format use_flags c ≡ true → c.metadata.priority ≤ priority) × AtMost priority combos

  -- Every combination of the list that supports the request has a smaller priority.
  abbrev pub Below : ℕ → Combinations → Type 0
  Below priority [] = Unit
  Below priority (c ∷ combos) =
      (supports format use_flags c ≡ true → c.metadata.priority < priority) × Below priority combos

  -- No combination of the list supports the request.
  abbrev pub Unsupported : Combinations → Type 0
  Unsupported [] = Unit
  Unsupported (c ∷ combos) = (supports format use_flags c ≡ false) × Unsupported combos

  -- `best` is the first of those with the highest priority.
  pub record IsBest (combos : Combinations) (best : Combination) : Type 0 where
    pub before : Combinations
    pub after : Combinations
    pub split : combos ≡ before ++ (best ∷ after)
    pub supported : supports format use_flags best ≡ true
    pub earlier : Below best.metadata.priority before
    pub later : AtMost best.metadata.priority after

  -- The loop from a combination in hand: it stays, or a later one is better.
  data Improves (combos : Combinations) (start : Combination) : Option Combination → Type 0 where
    kept : AtMost start.metadata.priority combos → Improves combos start (some start)
    raised :
        {top : Combination}
        → IsBest combos top
        → start.metadata.priority < top.metadata.priority
        → Improves combos start (some top)

  -- A better combination takes the place of the one in hand.
  take_better :
      {start c : Combination} {combos : Combinations} {o : Option Combination}
      → supports format use_flags c ≡ true
      → start.metadata.priority < c.metadata.priority
      → Improves combos c o
      → Improves (c ∷ combos) start o
  take_better {combos} sup lt (kept most) =
      raised
        (record {
          before = [];
          after = combos;
          split = refl;
          supported = sup;
          earlier = tt;
          later = most;
        })
        lt
  take_better {c} sup lt (raised best higher) =
      raised
        (record {
          before = c ∷ best.before;
          after = best.after;
          split = ap (λ zs. c ∷ zs) best.split;
          supported = best.supported;
          earlier = ((λ _. higher), best.earlier);
          later = best.later;
        })
        (omega arith)

  -- One that is not better is passed over.
  pass_over :
      {start c : Combination} {combos : Combinations} {o : Option Combination}
      → (supports format use_flags c ≡ true → c.metadata.priority ≤ start.metadata.priority)
      → Improves combos start o
      → Improves (c ∷ combos) start o
  pass_over low (kept most) = kept (low, most)
  pass_over {c} low (raised best higher) =
      raised
        (record {
          before = c ∷ best.before;
          after = best.after;
          split = ap (λ zs. c ∷ zs) best.split;
          supported = best.supported;
          earlier = ((λ sup. omega (arith, low sup)), best.earlier);
          later = best.later;
        })
        higher

  best_of-Improves :
      (start : Combination) (combos : Combinations)
      → Improves combos start (best_of format use_flags (some start) combos)
  unfolding best_of
  best_of-Improves start [] = kept tt
  best_of-Improves start (c ∷ combos) =
      elim (Bool-cases (supports format use_flags c && is_better (some start) c)) [
        | inl better ↦
            rw better (take_better (ground arith) (ground arith) (best_of-Improves c combos))
        | inr worse ↦ rw worse (pass_over (λ sup. ground arith) (best_of-Improves start combos))
      ]

  -- The loop from nothing.
  pub data Finds (combos : Combinations) : Option Combination → Type 0 where
    missing : Unsupported combos → Finds combos none
    found : {best : Combination} → IsBest combos best → Finds combos (some best)

  found_first :
      {c : Combination} {combos : Combinations} {o : Option Combination}
      → supports format use_flags c ≡ true
      → Improves combos c o
      → Finds (c ∷ combos) o
  found_first {combos} sup (kept most) = found (record {
    before = [];
    after = combos;
    split = refl;
    supported = sup;
    earlier = tt;
    later = most;
  })
  found_first {c} sup (raised best higher) = found (record {
    before = c ∷ best.before;
    after = best.after;
    split = ap (λ zs. c ∷ zs) best.split;
    supported = best.supported;
    earlier = ((λ _. higher), best.earlier);
    later = best.later;
  })

  found_later :
      {c : Combination} {combos : Combinations} {o : Option Combination}
      → supports format use_flags c ≡ false
      → Finds combos o
      → Finds (c ∷ combos) o
  found_later off (missing all) = missing (off, all)
  found_later {c} off (found best) = found (record {
    before = c ∷ best.before;
    after = best.after;
    split = ap (λ zs. c ∷ zs) best.split;
    supported = best.supported;
    earlier = ((λ sup. ground arith), best.earlier);
    later = best.later;
  })

  best_of-Finds : (combos : Combinations) → Finds combos (best_of format use_flags none combos)
  unfolding best_of
  best_of-Finds [] = missing tt
  best_of-Finds (c ∷ combos) = elim (Bool-cases (supports format use_flags c)) [
    | inl on ↦ rw on (found_first on (best_of-Improves c combos))
    | inr off ↦ rw off (found_later off (best_of-Finds combos))
  ]

-- For a request that names a format and some use, `drv_get_combination` returns the first of the
-- combinations of the highest priority among those that have the format and all of the use flags,
-- and null exactly where no combination has them.
pub get_combination-Finds :
    (combos : Combinations) (format use_flags : ℕ)
    → format ≢ drm_format_none
    → use_flags ≢ bo_use_none
    → Finds format use_flags combos (drv_get_combination combos format use_flags)
unfolding drv_get_combination
get_combination-Finds combos format use_flags named used =
    let guard : (format == drm_format_none || use_flags == bo_use_none) ≡ false = ground arith in
    rw guard (best_of-Finds format use_flags combos)
