-- ===== src/Net/Framing/Tests.antt =====
-- src/net/framing.hpp: frames on small inputs, and the theorems at them.
use hovorun.Prelude.{ℕ, ◌≡◌, ◌≢◌, List, [], ◌∷◌, ◌++◌, arith}
use hovorun.Net.Message.Reader.{length_error}
use hovorun.Net.Framing.{make_frame, next, incomplete, payload, unexpected, thrown}
use hovorun.Net.Framing.Next.{next-append, next-make_frame}
use hovorun.Net.Framing.Total.{next-ne-thrown}

next-make_frame_example : next (make_frame (1 ∷ 2 ∷ []) ++ 9 ∷ []) ≡ (payload (1 ∷ 2 ∷ []), 9 ∷ [])
next-make_frame_example = next-make_frame (1 ∷ 2 ∷ []) (9 ∷ []) (omega arith)

abbrev bad_start : List ℕ
bad_start = 1 ∷ 2 ∷ 3 ∷ []

bad_start_next : (next bad_start).0 ≢ unexpected incomplete
unfolding next
bad_start_next e = cc

next-append_example :
    next (bad_start ++ 9 ∷ []) ≡ ((next bad_start).0, (next bad_start).1 ++ 9 ∷ [])
next-append_example = next-append bad_start (9 ∷ []) bad_start_next

next-ne-thrown_example : (next bad_start).0 ≢ thrown length_error
next-ne-thrown_example = next-ne-thrown bad_start length_error
