-- ===== src/Gralloc/Kept.antt =====
-- Each call keeps the counts, and adds at most one reference.
use external_minigbm.Base.{
  ℕ, ◌+◌, ◌^◌, ◌<◌, ◌≡◌, refl, Bool, true, false, Option, none, some, ◌∷◌, arith, ◌==◌, wrap32,
  Bool-cases, Option-cases, inl, inr, Returns,
}
use external_minigbm.Errors.{einval, efault}
use external_minigbm.Gralloc.{
  NativeHandle, Registry, set_buffer, find_handle, raise_handle, new_handle,
  cros_gralloc_convert_handle, retain, release, AllocateAnswers, allocate,
}
use external_minigbm.Gralloc.Refs.{refs, total, count_of, raise_handle-Raised}
use external_minigbm.Gralloc.Counted.{
  Counted, Kept, same-Kept, gain-Counted, release_found, found_buffer,
}

-- `release` of a handle in the list lets go of one reference.
pub release-Kept :
    (s : Registry) (handle : ℕ) (native : NativeHandle)
    → Counted s
    → total s.handles < 2 ^ 31
    → Returns (Kept s) (release s handle native)
unfolding release
release-Kept s handle native c few = elim (Bool-cases (cros_gralloc_convert_handle native)) [
  | inr invalid ↦ (_, rw invalid refl, same-Kept s einval c)
  | inl valid ↦ elim (Option-cases (find_handle handle s.handles)) [
    | inl unknown ↦ (_, rw (valid, unknown) refl, same-Kept s einval c)
    | inr (info, e) ↦
        let (count, found) = found_buffer s handle info e c few in
        let (pos, kept) = release_found s handle info count e found c few in
        (_, rw (valid, e, found, pos) refl, kept)
  ]
]

-- Another handle, of the buffer with the native handle's id.
add-Kept :
    (s : Registry) (handle b count : ℕ)
    → Counted s
    → total s.handles < 2 ^ 31
    → count_of (s.buffers b) ≡ count
    → Kept s (
      record s {
        handles = new_handle handle b ∷ s.handles;
        buffers = set_buffer s.buffers b (some (wrap32 (count + 1)));
      },
      0,
    )
unfolding refs total
add-Kept s handle b count c few found = record {
  counted =
      gain-Counted s (new_handle handle b ∷ s.handles) b count c few found (λ id. omega arith)
        (omega arith, c.held);
  few = omega arith;
}

-- `retain` of a handle that is not in the list.
new_buffer :
    (imports creates : Bool) (s : Registry) (handle : ℕ) (native : NativeHandle)
    → cros_gralloc_convert_handle native ≡ true
    → find_handle handle s.handles ≡ none
    → (b : Option ℕ) → s.buffers native.id ≡ b
    → Counted s
    → total s.handles < 2 ^ 31
    → Returns (Kept s) (retain imports creates s handle native)
unfolding retain
new_buffer imports creates s handle native valid unknown (some count) e c few =
    (_, rw (valid, unknown, e) refl, add-Kept s handle native.id count c few (rw e refl))
new_buffer false creates s handle native valid unknown none e c few =
    (_, rw (valid, unknown, e) refl, same-Kept s efault c)
new_buffer true false s handle native valid unknown none e c few =
    (_, rw (valid, unknown, e) refl, same-Kept s 1 c)
new_buffer true true s handle native valid unknown none e c few =
    (_, rw (valid, unknown, e) refl, add-Kept s handle native.id 0 c few (rw e refl))

-- `retain` adds at most one reference.
pub retain-Kept :
    (imports creates : Bool) (s : Registry) (handle : ℕ) (native : NativeHandle)
    → Counted s
    → total s.handles < 2 ^ 31
    → Returns (Kept s) (retain imports creates s handle native)
unfolding retain
retain-Kept imports creates s handle native c few =
    elim (Bool-cases (cros_gralloc_convert_handle native)) [
      | inr invalid ↦ (_, rw invalid refl, same-Kept s einval c)
      | inl valid ↦ elim (Option-cases (find_handle handle s.handles)) [
        | inr (info, e) ↦
            let (count, found) = found_buffer s handle info e c few in
            let raised = raise_handle-Raised handle s.handles e few in
            (
              (
                record s {
                  handles = raise_handle handle s.handles;
                  buffers = set_buffer s.buffers info.buffer (some (wrap32 (count + 1)));
                },
                0,
              ),
              rw (valid, e, found) refl,
              record {
                counted =
                    gain-Counted s (raise_handle handle s.handles) info.buffer count c few
                      (rw found refl) raised.refs_raised (raised.held_raised c.held);
                few = omega (arith, raised.total_raised);
              },
            )
        | inl unknown ↦
            new_buffer imports creates s handle native valid unknown (s.buffers native.id) refl c
              few
      ]
    ]

-- `allocate` adds at most one reference, where neither the next id nor the handle's address is taken.
pub allocate-Kept :
    (a : AllocateAnswers) (s : Registry) (handle : ℕ)
    → Counted s
    → total s.handles < 2 ^ 31
    → s.buffers s.next_buffer_id ≡ none
    → find_handle handle s.handles ≡ none
    → Kept s (allocate a s handle)
unfolding allocate
allocate-Kept a s handle c few fresh unknown = elim (Bool-cases a.resolves) [
  | inr bad ↦ rw bad (same-Kept s einval c)
  | inl resolves ↦ elim (Bool-cases (a.create_bo == 0)) [
    | inr bad ↦ rw (resolves, bad) (same-Kept s a.create_bo c)
    | inl created ↦ elim (Bool-cases (a.plane_fds == 0)) [
      | inr bad ↦ rw (resolves, created, bad) (same-Kept s a.plane_fds c)
      | inl fds ↦ elim (Bool-cases (a.reserved_region == 0)) [
        | inr bad ↦ rw (resolves, created, fds, bad) (same-Kept s a.reserved_region c)
        | inl region ↦ elim (Bool-cases a.creates) [
          | inr bad ↦
              rw (resolves, created, fds, region, bad)
                (record {
                  counted = record { counted = c.counted; live = c.live; held = c.held };
                  few = omega arith;
                })
          | inl creates ↦
              let k = add-Kept s handle s.next_buffer_id 0 c few (rw fresh refl) in
              rw (resolves, created, fds, region, creates, fresh, unknown)
                (record {
                  counted = record {
                    counted = k.counted.counted;
                    live = k.counted.live;
                    held = k.counted.held;
                  };
                  few = k.few;
                })
        ]
      ]
    ]
  ]
]
