-- ===== src/Echo.antt =====
-- The echo server and client of SO esempi/9_SOCKETS/UNIX/sockets/eServ1T_TCP: helper.c (`Readline`,
-- `Writeline`), tcpServer.c and tcpClient.c. What the system answers to `read` and `write` is given as a
-- list of answers.
pub mod Receive
pub mod Send
pub mod Session
mod Tests
use sistemi_operativi.Prelude.{
  ℕ, zero, suc, ◌+◌, ◌-◌, Option, none, some, List, [], ◌∷◌, ◌++◌, length, take, drop, replicate,
  if◌then◌else◌, ◌==◌,
}
use sistemi_operativi.Prelude.Text.{c_string}

abbrev pub max_line : ℕ
max_line = 1000

-- An answer to `read` of one byte: the byte, EINTR, or another error. Behind the answers the peer has
-- closed the connection.
pub data Read : Type 0 where
  byte : ℕ → Read
  read_interrupted read_failed : Read

-- How `Readline` ends: it returns 0, or -1 behind some bytes, or a count behind the bytes of a line. The
-- reads that are left come last.
pub data Line : Type 0 where
  closed : List Read → Line
  failed : List ℕ → List Read → Line
  line : ℕ → List ℕ → List Read → Line

-- The loop of `Readline` from `n` on, with the rounds left and the bytes stored.
unfoldable pub read_loop : ℕ → ℕ → List Read → List ℕ → Line
read_loop zero n reads stored = line n stored reads
read_loop (suc left) n [] stored = if n == 1 then closed [] else line n stored []
read_loop (suc left) n (byte c ∷ reads) stored =
    let rest = read_loop left (n + 1) reads (stored ++ (c ∷ [])) in
    if c == 10 then line n (stored ++ (c ∷ [])) reads else rest
read_loop (suc left) n (read_interrupted ∷ reads) stored = read_loop left (n + 1) reads stored
read_loop (suc left) n (read_failed ∷ reads) stored = failed stored reads

unfoldable pub readline : ℕ → List Read → Line
readline maxlen reads = read_loop (maxlen - 1) 1 reads []

-- The caller's buffer behind `Readline`: the NUL stands behind a line only.
unfoldable pub buffer_after : Line → List ℕ → List ℕ
buffer_after (closed reads) buffer = buffer
buffer_after (failed stored reads) buffer = stored ++ drop (length stored) buffer
buffer_after (line n stored reads) buffer = stored ++ (0 ∷ drop (length stored + 1) buffer)

-- An answer to `write`: one more byte than the number, but not more than there are, EINTR, or another
-- error.
pub data Write : Type 0 where
  wrote : ℕ → Write
  write_interrupted write_failed : Write

-- How `Writeline` ends, with the bytes that were sent: it returns their number or -1, or it waits for
-- another answer.
pub data Sent : Type 0 where
  sent_all : List ℕ → Sent
  send_failed : List ℕ → Sent
  sending : List ℕ → Sent

-- The loop of `Writeline` on the bytes left.
unfoldable pub write_loop : List Write → List ℕ → List ℕ → Sent
write_loop [] [] sent = sent_all sent
write_loop (w ∷ writes) [] sent = sent_all sent
write_loop [] (c ∷ left) sent = sending sent
write_loop (wrote k ∷ writes) (c ∷ left) sent =
    write_loop writes (drop (suc k) (c ∷ left)) (sent ++ take (suc k) (c ∷ left))
write_loop (write_interrupted ∷ writes) (c ∷ left) sent = write_loop writes (c ∷ left) sent
write_loop (write_failed ∷ writes) (c ∷ left) sent = send_failed sent

unfoldable pub writeline : List Write → List ℕ → Sent
writeline writes bytes = write_loop writes bytes []

-- A round of the loop of the server's `main` on one connection: what its buffer is then, and what is
-- sent. `none` where `strlen` finds no NUL in the buffer.
unfoldable pub serve : List ℕ → List Read → List Write → List ℕ × Option Sent
serve buffer reads writes =
    let buffer' = buffer_after (readline (max_line - 1) reads) buffer in
    (buffer', elim (c_string buffer') [ none ↦ none | some text ↦ some (writeline writes text) ])

-- The client's side: it sends the string that `fgets` has stored in front of `junk`, and prints the
-- string in its buffer behind `memset` and `Readline`.
unfoldable pub client_send : List Write → List ℕ → Sent
client_send writes text = writeline writes text

unfoldable pub client_receive : List ℕ → List ℕ → List Read → Option (List ℕ)
client_receive text junk reads =
    c_string (buffer_after (readline (max_line - 1) reads) (replicate (length text + 1) 0 ++ junk))
