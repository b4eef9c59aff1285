-- ===== src/Zip/Entry.antt =====
-- core/zip.c: `extract_one`. zlib is a parameter. The list of events is
-- passed on, the newest first.
use vhdb.Base.{
  ℕ, zero, suc, ◌+◌, ◌-◌, ◌^◌, ◌==◌, ltb, if◌then◌else◌, Bool, true, false, not, ◌&&◌, List, [],
  ◌∷◌, Option, none, some, ◌>>=◌, length, u32,
}
use vhdb.Zip.{
  Event, create, append, no_error, not_enough_memory, broken_local_header, cannot_write,
  write_failed, unsupported, cannot_inflate, damaged, card_full, size_mismatch, Outcome, done,
  failed, outside, stuck, Archive, Host, chunk_size, make_parents, read_u16, read_u32, joined,
}

-- What `inflate` returns.
pub data Code : Type 0 where
  stream_ok stream_end buffer_error stream_error : Code

-- zlib: `inflateInit2` with -15, new input, one `inflate` into an empty output chunk with the
-- bytes that it produces, and `total_out`.
pub record Zlib (S : Type 0) : Type 0 where
  pub start : Option S
  pub feed : S → List ℕ → S
  pub inflate : S → S × (List ℕ × Code)
  pub total_out : S → ℕ

-- The events so far and how the call ended.
pub record Run : Type 0 where
  pub log : List Event
  pub outcome : Outcome

abbrev pub stop : List Event → Outcome → Run
stop log outcome = record { log = log; outcome = outcome }

-- What follows a call: the first if it is done, the second if it is not.
unfoldable pub after : {A : Type 0} → Outcome → A → A → A
after done rest here = rest
after (failed e) rest here = here
after outside rest here = here
after stuck rest here = here

unfoldable pub wanted : ℕ → ℕ
wanted left = if ltb left chunk_size then left else chunk_size

-- `left -= (uint32_t)got`
unfoldable pub less : ℕ → ℕ → ℕ
less left got = u32 (left + 2 ^ 32 - u32 got)

-- The loop over a stored entry, on fuel: a round reads a byte or more.
unfoldable pub stored_loop : Host → Archive → List ℕ → ℕ → ℕ → ℕ → List Event → Run
stored_loop host archive path zero pos left log = stop log stuck
stored_loop host archive path (suc n) pos left log =
    let bytes = archive.read pos (wanted left) in
    let rest =
      stored_loop host archive path n (pos + length bytes) (less left (length bytes))
        (append path bytes ∷ log) in
    if left == 0
    then stop log done
    else if length bytes == 0
    then stop log (failed write_failed)
    else if not (host.write log path bytes)
    then stop (append path bytes ∷ log) (failed write_failed)
    else rest

unfoldable pub stored_entry : Host → Archive → List ℕ → ℕ → ℕ → List Event → Run
stored_entry host archive path compressed pos log =
    if not (host.malloc chunk_size)
    then stop log (failed no_error)
    else stored_loop host archive path (suc compressed) pos compressed log

-- The bytes that one `inflate` produces are written, if there are any.
unfoldable pub logged : List ℕ → List ℕ → List Event → List Event
logged path [] log = log
logged path (b ∷ bs) log = append path (b ∷ bs) ∷ log

unfoldable pub is_bad : Code → Bool
is_bad stream_ok = false
is_bad stream_end = false
is_bad buffer_error = false
is_bad stream_error = true

unfoldable pub is_end : Code → Bool
is_end stream_ok = false
is_end stream_end = true
is_end buffer_error = false
is_end stream_error = false

-- The local header: how many bytes follow it before the data, or the error.
unfoldable pub local_extra : List ℕ → Option (Option ℕ)
local_extra header = read_u32 header 0 >>= λ mark.
    if not (mark == 0x0403_4B50)
    then some none
    else (read_u16 header 26 >>= λ name. read_u16 header 28 >>= λ extra. some (some (name + extra)))

module _ {S : Type 0} (zlib : Zlib S) (host : Host) where
  -- The inner loop of `extract_one`, on fuel.
  unfoldable pub output_loop : List ℕ → ℕ → S → List Event → S × Run
  output_loop path zero s log = (s, stop log stuck)
  output_loop path (suc n) s log =
      let next = zlib.inflate s in
      let out = next.1.0 in
      let rest = output_loop path n next.0 (logged path out log) in
      if is_bad next.1.1
      then (next.0, stop log (failed damaged))
      else if not (length out == 0) && not (host.write log path out)
      then (next.0, stop (logged path out log) (failed card_full))
      else if length out == chunk_size && not (is_end next.1.1)
      then rest
      else (next.0, stop (logged path out log) done)

  -- The size test behind the loops.
  unfoldable pub check_size : ℕ → S → List Event → Run
  check_size uncompressed s log =
      if not (zlib.total_out s == uncompressed) && not (uncompressed == 0)
      then stop log (failed size_mismatch)
      else stop log done

  -- The outer loop, on fuel: a round reads a byte or more. `fuel` is that of the inner loop.
  unfoldable pub input_loop : Archive → List ℕ → ℕ → ℕ → ℕ → ℕ → ℕ → S → List Event → Run
  input_loop archive path fuel uncompressed zero pos left s log = stop log stuck
  input_loop archive path fuel uncompressed (suc n) pos left s log =
      let bytes = archive.read pos (wanted left) in
      let inner = output_loop path fuel (zlib.feed s bytes) log in
      let rest =
        input_loop archive path fuel uncompressed n (pos + length bytes) (less left (length bytes))
          inner.0 inner.1.log in
      if left == 0
      then check_size uncompressed s log
      else if length bytes == 0
      then stop log (failed no_error)
      else after inner.1.outcome rest inner.1

  -- A deflated entry.
  unfoldable pub inflate_entry : Archive → List ℕ → ℕ → ℕ → ℕ → ℕ → List Event → Run
  inflate_entry archive path fuel compressed uncompressed pos log =
      if not (host.malloc chunk_size)
      then stop log (failed not_enough_memory)
      else elim zlib.start [
        | none ↦ stop log (failed cannot_inflate)
        | some s ↦ input_loop archive path fuel uncompressed (suc compressed) pos compressed s log
      ]

  -- From the path on.
  unfoldable pub write_entry : Archive → ℕ → List ℕ → ℕ → ℕ → ℕ → ℕ → List Event → Run
  write_entry archive fuel path compressed uncompressed method pos log =
      if not (host.open_file (make_parents path log) path)
      then stop (make_parents path log) (failed cannot_write)
      else if method == 0
      then stored_entry host archive path compressed pos (create path ∷ make_parents path log)
      else if not (method == 8)
      then stop (create path ∷ make_parents path log) (failed unsupported)
      else inflate_entry archive path fuel compressed uncompressed pos
          (create path ∷ make_parents path log)

  -- `extract_one`
  unfoldable pub extract_one : Archive → ℕ → List ℕ → List ℕ → ℕ → ℕ → ℕ → ℕ → List Event → Run
  extract_one archive fuel destination name local_offset compressed uncompressed method log =
      let header = archive.read local_offset 30 in
      if not (archive.seek local_offset)
      then stop log (failed no_error)
      else if not (length header == 30)
      then stop log (failed no_error)
      else elim (local_extra header) [
        | none ↦ stop log outside
        | some found ↦ elim found [
          | none ↦ stop log (failed broken_local_header)
          | some extra ↦
              if not (archive.seek (local_offset + 30 + extra))
              then stop log (failed no_error)
              else write_entry archive fuel (joined destination name) compressed uncompressed method
                  (local_offset + 30 + extra) log
        ]
      ]
