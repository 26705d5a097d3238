-- ===== src/Memory/Held.antt =====
-- What a mapping holds besides its bytes.
use external_minigbm.Base.{ℕ, ◌≡◌, List, ◌∷◌}
use external_minigbm.Memory.{World, drop, drop-latest}

-- The same file descriptors, regions and blocks are held.
pub record SameHeld (w w' : World) : Type 0 where
  pub same_fds : w'.fds ≡ w.fds
  pub same_maps : w'.maps ≡ w.maps
  pub same_blocks : w'.blocks ≡ w.blocks

-- The region and the file descriptor of a mapping go back.
pub held_again :
    (prime_fd addr : ℕ) (w : World) (bytes : ℕ → ℕ) (blocks : List ℕ)
    → blocks ≡ w.blocks
    → SameHeld w (record {
      bytes = bytes;
      fds = drop prime_fd (prime_fd ∷ w.fds);
      maps = drop addr (addr ∷ w.maps);
      blocks = blocks;
    })
held_again prime_fd addr w bytes blocks e = record {
  same_fds = drop-latest prime_fd w.fds;
  same_maps = drop-latest addr w.maps;
  same_blocks = e;
}
