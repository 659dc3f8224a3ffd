-- ===== src/Game/Arrays.antt =====
-- src/game/gscl_types.hpp: arrays on the wire, with a count in front or of a fixed size.
use hovorun.Prelude.{List, [], ◌∷◌}
use hovorun.Net.Message.Writer.{Writer, ◌▹◌, write_i32, ssize}

module _ {ℓ} {A : Type ℓ} where
  -- for (const auto &item : items) write_one(w, item);
  unfoldable pub for_each : (A → Writer → Writer) → List A → Writer → Writer
  for_each write_one [] w = w
  for_each write_one (item ∷ items) w = for_each write_one items (write_one item w)

  unfoldable pub write_array : (A → Writer → Writer) → List A → Writer → Writer
  unfolding for_each
  write_array write_one items w = w ▹ write_i32 (ssize items) ▹ for_each write_one items
