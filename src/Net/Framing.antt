-- ===== src/Net/Framing.antt =====
-- src/net/framing.hpp: frames on the TCP byte stream, and the loop of src/proudnet/server.cpp that
-- takes them off it.
pub mod Next
pub mod Total
pub mod Drain
mod Tests
use hovorun.Prelude.{
  ℕ, zero, suc, ◌+◌, ◌-◌, ◌*◌, ◌%◌, Bool, true, false, not, ◌&&◌, List, [], ◌++◌, length, take,
  drop, get_or, ltb, ◌==◌, ℤ, pos, negsuc, if◌then◌else◌,
}
use hovorun.Net.Message.Writer.{Writer, ◌▹◌, write_u16, write_scalar, write_bytes, ssize}
use hovorun.Net.Message.Reader.{Error, Result, ok, err, read_scalar}

abbrev pub frame_magic : ℕ
frame_magic = 0x5713

abbrev pub max_frame_payload : ℕ
max_frame_payload = 0x100000

unfoldable pub make_frame : List ℕ → List ℕ
make_frame payload = [] ▹ write_u16 frame_magic ▹ write_scalar (ssize payload) ▹ write_bytes payload

pub data FrameError : Type 0 where
  incomplete bad_magic bad_length : FrameError

-- What `next` returns; `thrown` is an exception that leaves it.
pub data Frame : Type 0 where
  payload : List ℕ → Frame
  unexpected : FrameError → Frame
  thrown : Error → Frame

-- frame_parser is its m_buffer.
abbrev pub Buffer : Type 0
Buffer = List ℕ

pub feed : List ℕ → Buffer → Buffer
feed received buffer = buffer ++ received

-- From the length on: `header` bytes stand in front of the payload.
cut : ℕ → Result (ℤ × List ℕ) → Buffer → Frame × Buffer
cut header (err e) buffer = (thrown e, buffer)
cut header (ok (negsuc n, _)) buffer = (unexpected bad_length, buffer)
cut header (ok (pos n, _)) buffer =
    if ltb max_frame_payload n
    then (unexpected bad_length, buffer)
    else if ltb (length buffer) (header + n)
    then (unexpected incomplete, buffer)
    else (payload (take n (drop header buffer)), drop (header + n) buffer)

is_scalar_size : ℕ → Bool
is_scalar_size n = not (not (n == 1) && not (n == 2) && not (n == 4) && not (n == 8))

-- From the scalar prefix on.
after_magic : ℕ → Buffer → Frame × Buffer
after_magic scalar_size buffer =
    if not (is_scalar_size scalar_size)
    then (unexpected bad_length, buffer)
    else if ltb (length buffer) (3 + scalar_size)
    then (unexpected incomplete, buffer)
    else cut (3 + scalar_size) (read_scalar (take (3 + scalar_size - 2) (drop 2 buffer))) buffer

pub next : Buffer → Frame × Buffer
unfolding after_magic
next buffer =
    if ltb (length buffer) 3
    then (unexpected incomplete, buffer)
    else if not ((get_or buffer 0 0 + get_or buffer 1 0 * 256) % 65536 == frame_magic)
    then (unexpected bad_magic, buffer)
    else after_magic (get_or buffer 2 0) buffer
