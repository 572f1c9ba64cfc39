-- ===== src/Comms/Connection.antt =====
-- comms/connection.go: writes to and reads from a TCP connection.
--
-- The operating system is a parameter: the answers of `conn.Write` and `conn.Read` are given one by
-- one, and the result of a dial and the addresses of a connection are arguments. `sent` is what it
-- accepted, `deadline` the last one that was set, and `buffered` is false where the reader is nil.
-- The write lock, which a call holds until it returns, and SetKeepAlive are left out.
pub mod Send
pub mod Write
use ngbigcache.Base.{
  ℕ, ◌+◌, ◌-◌, Bool, true, false, Option, none, some, List, [], ◌∷◌, ◌++◌, ltb, if◌then◌else◌,
  length, take, drop, Bytes, Run, ok, panic, ◌>>=◌, ◌||◌, Result, value, error,
}
use ngbigcache.Base.Int.{ℤ, pos, is_zero_ℤ}

-- The errors of the package and those of the operating system.
pub data ConnectionError : Type 0 where
  connection_unusable timed_out end_of_file other : ConnectionError

-- An answer to a write: how many bytes were written, with an error or without one. An answer to a read
-- has the bytes that were read, or an error.
pub data WriteAnswer : Type 0 where
  wrote : ℕ → WriteAnswer
  write_failed : ℕ → ConnectionError → WriteAnswer

pub data ReadAnswer : Type 0 where
  got : Bytes → ReadAnswer
  read_failed : ConnectionError → ReadAnswer

pub record Connection : Type 0 where
  pub remote : Bytes
  pub uid : Bytes
  pub read_timeout : ℤ
  pub deadline : Option ℕ
  pub buffered : Bool
  pub usable : Bool
  pub sent : Bytes

-- `WrapConnection`, of a connection with these addresses
unfoldable pub wrap_connection : Bytes → Bytes → Connection
wrap_connection local_address remote_address = record {
  remote = remote_address;
  uid = local_address;
  read_timeout = pos 0;
  deadline = none;
  buffered = true;
  usable = true;
  sent = [];
}

-- `NewConnection`, where the dial gives an error or a connection with this local address
unfoldable pub new_connection :
    Bytes → Result ConnectionError Bytes → Result ConnectionError Connection
unfolding wrap_connection
new_connection endpoint (value local_address) = value (wrap_connection local_address endpoint)
new_connection endpoint (error e) = error e

-- `SetReadTimeout`
unfoldable pub set_read_timeout : Connection → ℤ → Connection
set_read_timeout c timeout = record c { read_timeout = timeout }

-- `if err == io.EOF { c.Usable = false }`
unfoldable pub note_error : Connection → ConnectionError → Connection
note_error c end_of_file = record c { usable = false }
note_error c e = c

-- The loop of `SendData`: `none` where it waits for another answer.
unfoldable pub send_loop :
    List WriteAnswer → Connection → Bytes → Option (Connection × Option ConnectionError)
unfolding note_error
send_loop answers c [] = some (c, none)
send_loop [] c (b ∷ rest) = none
send_loop (wrote n ∷ answers) c (b ∷ rest) =
    send_loop answers (record c { sent = c.sent ++ take n (b ∷ rest) }) (drop n (b ∷ rest))
send_loop (write_failed n e ∷ answers) c (b ∷ rest) =
    some (note_error (record c { sent = c.sent ++ take n (b ∷ rest) }) e, some e)

-- `SendData`
unfoldable pub send_data :
    List WriteAnswer → Connection → Bytes → Option (Connection × Option ConnectionError)
unfolding send_loop
send_data answers c bytes =
    if c.usable then send_loop answers c bytes else some (c, some connection_unusable)

-- The loop of `Write`, after so many bytes, and `Write`.
unfoldable pub write_loop :
    List WriteAnswer → Connection → ℕ → Bytes → Option (Connection × ℕ × Option ConnectionError)
unfolding note_error
write_loop answers c count [] = some (c, count, none)
write_loop [] c count (b ∷ rest) = none
write_loop (wrote n ∷ answers) c count (b ∷ rest) =
    write_loop answers (record c { sent = c.sent ++ take n (b ∷ rest) }) (count + n)
      (drop n (b ∷ rest))
write_loop (write_failed n e ∷ answers) c count (b ∷ rest) =
    some (note_error (record c { sent = c.sent ++ take n (b ∷ rest) }) e, count, some e)

unfoldable pub write :
    List WriteAnswer → Connection → Bytes → Option (Connection × ℕ × Option ConnectionError)
unfolding write_loop
write answers c bytes =
    if c.usable then write_loop answers c 0 bytes else some (c, 0, some connection_unusable)

-- `Read`; `deadline_of` is the time that lies a duration after the call.
unfoldable pub read : Connection → (ℤ → ℕ) → ReadAnswer → Connection × Result ConnectionError Bytes
unfolding note_error
read c deadline_of answer =
    let timed : Connection =
      if is_zero_ℤ c.read_timeout
      then c
      else record c { deadline = some (deadline_of c.read_timeout) } in
    if c.usable
    then elim answer [
      | got bytes ↦ (timed, value bytes)
      | read_failed e ↦ (note_error timed e, error e)
    ]
    else (c, error connection_unusable)

-- `io.ReadFull`, on the bytes that arrive before the connection ends: the bytes and the rest of them,
-- or nothing where they end too early.
unfoldable pub read_data : Bytes → ℕ → Option (Bytes × Bytes)
read_data stream size =
    if ltb (length stream) size then none else some (take size stream, drop size stream)

-- `io.ReadFull` of the reader of the connection
unfoldable pub read_full : Connection → Bytes → ℕ → Run (Result ConnectionError (Bytes × Bytes))
unfolding read_data
read_full c stream size =
    if c.buffered
    then elim (read_data stream size) [ none ↦ ok (error end_of_file) | some r ↦ ok (value r) ]
    else panic

-- `ReadData`; `in_time` says whether the goroutine is done before the time is over.
unfoldable pub read_data_within :
    Connection → Bytes → ℕ → ℤ → Bool → Run (Connection × Result ConnectionError (Bytes × Bytes))
unfolding read_full set_read_timeout
read_data_within c stream size timeout in_time = do
  full ← read_full (set_read_timeout c timeout) stream size
  ok (
    set_read_timeout (set_read_timeout c timeout) c.read_timeout,
    if is_zero_ℤ timeout || in_time then full else error timed_out,
  )

-- `done <- true` of that goroutine; `returned` says whether `ReadData` returned, and so closed the
-- channel.
unfoldable pub report_done : Bool → Run (Unit {0})
report_done returned = if returned then panic else ok tt

-- `Shutdown`, and `Close`
unfoldable pub shutdown : Connection → Connection
shutdown c = record c { buffered = false; usable = false }
