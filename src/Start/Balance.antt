-- ===== src/Start/Balance.antt =====
-- Nothing leaks from a start that fails, nor from one that is undone.
use external_minigbm.Base.{
  ℕ, ◌≡◌, refl, Bool, true, false, Option, none, some, List, [], ◌∷◌, ◌++◌, ◌==◌, if◌then◌else◌,
  Bool-cases, inl, inr,
}
use external_minigbm.Start.{
  Resource, driver, buffer_table_lock, buffer_table, mappings_lock, mappings, combos, backend_state,
  Act, take, give, Answers, run_init, drv_create, drv_destroy,
}

-- The resources as a stack: what is given back is the last one taken, and nothing else.
abbrev pub same : Resource → Resource → Bool
same driver driver = true
same buffer_table_lock buffer_table_lock = true
same buffer_table buffer_table = true
same mappings_lock mappings_lock = true
same mappings mappings = true
same combos combos = true
same backend_state backend_state = true
same _ _ = false

-- The resources that are held after a run, the last one first; `none` where something is given back
-- that was not the last one taken.
unfoldable pub held : List Resource → List Act → Option (List Resource)
held rs [] = some rs
held rs (take r ∷ acts) = held (r ∷ rs) acts
held [] (give r ∷ acts) = none
held (s ∷ rs) (give r ∷ acts) = let rest = held rs acts in if same s r then rest else none

-- A start that fails holds nothing; one that succeeds holds nothing after `drv_destroy`, for a backend
-- that has a `close` exactly if it has an `init`.
abbrev pub IsClean : Option ℕ → List Act × Bool → Type 0
IsClean init (acts, true) =
    held [] (acts ++ drv_destroy (elim init [ none ↦ false | some ret ↦ true ])) ≡ some []
IsClean init (acts, false) = held [] acts ≡ some []

abbrev answers : Bool → Bool → Bool → Bool → Bool → Bool → Bool → Option ℕ → Answers
answers m b l t k p c init = record {
  has_memory = m;
  has_backend = b;
  has_table_lock = l;
  has_table = t;
  has_mappings_lock = k;
  has_mappings = p;
  has_combos = c;
  init = init;
}

clean :
    (m b l t k p c : Bool) (init : Option ℕ)
    → IsClean init (drv_create (answers m b l t k p c init))
unfolding drv_create drv_destroy held
clean false b l t k p c init = refl
clean true false l t k p c init = refl
clean true true false t k p c init = refl
clean true true true false k p c init = refl
clean true true true true false p c init = refl
clean true true true true true false c init = refl
clean true true true true true true false init = refl
clean true true true true true true true none = refl
clean true true true true true true true (some ret) = elim (Bool-cases (ret == 0)) [
  | inl done ↦ rw (done, run_init) refl
  | inr failed ↦ rw (failed, run_init) refl
]

-- Whatever its calls answer, `drv_create` gives back everything it took where it fails, in the
-- reverse order and nothing twice; where it succeeds, `drv_destroy` gives it all back, for a backend
-- that has a `close` exactly if it has an `init`.
pub create-IsClean : (a : Answers) → IsClean a.init (drv_create a)
create-IsClean a =
    clean a.has_memory a.has_backend a.has_table_lock a.has_table a.has_mappings_lock a.has_mappings
      a.has_combos a.init
