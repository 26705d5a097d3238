-- ===== src/Start.antt =====
-- drv.c: the driver comes up and goes down. A run is the list of what it takes and gives back.
mod Tests
pub mod Balance
use external_minigbm.Base.{
  ℕ, Bool, true, false, not, ◌||◌, Option, none, some, List, [], ◌∷◌, ◌++◌, ◌==◌, if◌then◌else◌,
}

-- The resources of `struct driver`, and what the backend's `init` keeps.
pub data Resource : Type 0 where
  driver buffer_table_lock buffer_table mappings_lock mappings combos backend_state : Resource

pub data Act : Type 0 where
  take give : Resource → Act

-- What the calls answer: `calloc`, `drv_get_backend`, the mutexes, `drmHashCreate`, the arrays, and
-- the backend's `init`, if it has one (0 for success).
pub record Answers : Type 0 where
  pub has_memory : Bool
  pub has_backend : Bool
  pub has_table_lock : Bool
  pub has_table : Bool
  pub has_mappings_lock : Bool
  pub has_mappings : Bool
  pub has_combos : Bool
  pub init : Option ℕ

-- The labels at the end of `drv_create`: each falls through to the next one.
abbrev pub free_driver : List Act
free_driver = give driver ∷ []

abbrev pub free_buffer_table_lock : List Act
free_buffer_table_lock = give buffer_table_lock ∷ free_driver

abbrev pub free_buffer_table : List Act
free_buffer_table = give buffer_table ∷ free_buffer_table_lock

abbrev pub free_mappings_lock : List Act
free_mappings_lock = give mappings_lock ∷ free_buffer_table

abbrev pub free_mappings : List Act
free_mappings = give mappings ∷ free_mappings_lock

-- The call of `init`, which keeps what it takes only where it succeeds.
unfoldable pub run_init : Option ℕ → List Act × Bool
run_init none = ([], true)
run_init (some ret) =
    if ret == 0 then (take backend_state ∷ [], true) else (give combos ∷ free_mappings, false)

-- `drv_create`: what it does, and whether it returns a driver.
unfoldable pub drv_create : Answers → List Act × Bool
unfolding run_init
drv_create a =
    if not a.has_memory
    then ([], false)
    else if not a.has_backend
    then (take driver ∷ free_driver, false)
    else if not a.has_table_lock
    then (take driver ∷ free_driver, false)
    else if not a.has_table
    then (take driver ∷ take buffer_table_lock ∷ free_buffer_table_lock, false)
    else if not a.has_mappings_lock
    then (take driver ∷ take buffer_table_lock ∷ take buffer_table ∷ free_buffer_table, false)
    else if not a.has_mappings
    then (
      take driver
          ∷ take buffer_table_lock
          ∷ take buffer_table
          ∷ take mappings_lock
          ∷ free_mappings_lock,
      false,
    )
    else if not a.has_combos
    then (
      take driver
          ∷ take buffer_table_lock
          ∷ take buffer_table
          ∷ take mappings_lock
          ∷ take mappings
          ∷ free_mappings,
      false,
    )
    else (let (acts, ok) = run_init a.init in
        (
          take driver
              ∷ take buffer_table_lock
              ∷ take buffer_table
              ∷ take mappings_lock
              ∷ take mappings
              ∷ take combos
              ∷ acts,
          ok,
        ))

-- `drv_destroy`: `close` gives back what `init` kept.
unfoldable pub drv_destroy : Bool → List Act
drv_destroy has_close =
    (if has_close then give backend_state ∷ [] else [])
    ++ (give combos
        ∷ give mappings
        ∷ give mappings_lock
        ∷ give buffer_table
        ∷ give buffer_table_lock
        ∷ give driver
        ∷ [])

-- `drv_get_backend`: the first backend of the list that has the name of the kernel's driver, which
-- `version` gives; names are numbers.
unfoldable pub drv_get_backend : Option ℕ → List ℕ → Option ℕ
drv_get_backend none names = none
drv_get_backend (some name) [] = none
drv_get_backend (some name) (b ∷ names) =
    let rest = drv_get_backend (some name) names in if name == b then some b else rest
