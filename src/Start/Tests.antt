-- ===== src/Start/Tests.antt =====
-- Runs of the start.
use external_minigbm.Base.{◌≡◌, refl, true, false, some, [], ◌∷◌}
use external_minigbm.Start.{
  Answers, drv_create, drv_get_backend, driver, buffer_table_lock, buffer_table, take, give,
}
use external_minigbm.Start.Balance.{IsClean, create-IsClean}

abbrev no_mutex : Answers
no_mutex = record {
  has_memory = true;
  has_backend = true;
  has_table_lock = true;
  has_table = true;
  has_mappings_lock = false;
  has_mappings = true;
  has_combos = true;
  init = some 0;
}

create-IsClean_example : IsClean no_mutex.init (drv_create no_mutex)
create-IsClean_example = create-IsClean no_mutex

no_mutex_run : drv_create no_mutex ≡ (
  take driver
      ∷ take buffer_table_lock
      ∷ take buffer_table
      ∷ give buffer_table
      ∷ give buffer_table_lock
      ∷ give driver
      ∷ [],
  false,
)
unfolding drv_create
no_mutex_run = refl

second_backend : drv_get_backend (some 2) (1 ∷ 2 ∷ 3 ∷ []) ≡ some 2
unfolding drv_get_backend
second_backend = refl
