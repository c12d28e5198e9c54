-- ===== src/Echo/Session.antt =====
-- A client of eServ1T_TCP and the rounds of its server: tcpClient.c, and the loop in `main` of
-- tcpServer.c.
use sistemi_operativi.Prelude.{
  ap₂, subst, ◌≤◌, ℕ, zero, suc, ◌+◌, ◌-◌, ◌<◌, ◌≡◌, ◌≢◌, refl, ap, ◌∙◌, some, none, Option, List,
  [], ◌∷◌, ◌++◌, length, take, drop, map, arith, All, ==_ne, length-append,
}
use sistemi_operativi.Prelude.Text.{c_string, c_string-append}
use sistemi_operativi.Echo.{
  max_line, Read, byte, read_interrupted, read_loop, readline, buffer_after, Write, Sent, sent_all,
  serve, client_send, client_receive, writeline, read_failed,
}
use sistemi_operativi.Echo.Receive.{Goes, until_newline, bytes_of, readline_exact}
use sistemi_operativi.Echo.Send.{Sends, progress, bytes_sent, writeline-sent_all}

abbrev pub IsInner : ℕ → Type 0
IsInner c = (c ≢ 0) × (c ≢ 10)

-- The line that `fgets` stores.
abbrev pub with_newline : List ℕ → List ℕ
with_newline l = l ++ (10 ∷ [])

-- The answers to `read` that deliver these bytes: one byte each, with any number of interrupted calls in
-- front of a byte, and no failure.
abbrev pub Arrives : List ℕ → List Read → Type 0
Arrives [] [] = Unit
Arrives [] (r ∷ reads) = ⊥
Arrives (c ∷ l) [] = ⊥
Arrives (c ∷ l) (byte d ∷ reads) = (d ≡ c) × Arrives l reads
Arrives (c ∷ l) (read_interrupted ∷ reads) = Arrives (c ∷ l) reads
Arrives (c ∷ l) (read_failed ∷ reads) = ⊥

until_newline-Arrives :
    (l : List ℕ) (n : ℕ) (reads : List Read)
    → All IsInner l
    → Arrives (with_newline l) reads
    → length reads ≤ n
    → until_newline (take n reads) ≡ reads
until_newline-Arrives [] n [] a r h = absurd r
until_newline-Arrives (c ∷ l) n [] a r h = absurd r
until_newline-Arrives l zero (x ∷ reads) a r h = absurd (omega arith)
until_newline-Arrives [] (suc n) (byte d ∷ []) a r h = rw (r.0) refl
until_newline-Arrives [] (suc n) (byte d ∷ x ∷ reads) a r h = absurd r.1
until_newline-Arrives [] (suc n) (read_interrupted ∷ reads) a r h =
    ap (λ l. read_interrupted ∷ l) (until_newline-Arrives [] n reads a r (omega arith))
until_newline-Arrives [] (suc n) (read_failed ∷ reads) a r h = absurd r
until_newline-Arrives (c ∷ l) (suc n) (byte d ∷ reads) a r h =
    rw (r.0, ==_ne c 10 a.0.1, until_newline-Arrives l n reads a.1 r.1 (omega arith)) refl
until_newline-Arrives (c ∷ l) (suc n) (read_interrupted ∷ reads) a r h =
    ap (λ l. read_interrupted ∷ l) (until_newline-Arrives (c ∷ l) n reads a r (omega arith))
until_newline-Arrives (c ∷ l) (suc n) (read_failed ∷ reads) a r h = absurd r

bytes_of-Arrives : (l : List ℕ) (reads : List Read) → Arrives l reads → bytes_of reads ≡ l
bytes_of-Arrives [] [] r = refl
bytes_of-Arrives [] (x ∷ reads) r = absurd r
bytes_of-Arrives (c ∷ l) [] r = absurd r
bytes_of-Arrives (c ∷ l) (byte d ∷ reads) r = ap₂ (λ x y. x ∷ y) r.0 (bytes_of-Arrives l reads r.1)
bytes_of-Arrives (c ∷ l) (read_interrupted ∷ reads) r = bytes_of-Arrives (c ∷ l) reads r
bytes_of-Arrives (c ∷ l) (read_failed ∷ reads) r = absurd r

Goes-Arrives : (n : ℕ) (l : List ℕ) (reads : List Read) → Arrives l reads → All Goes (take n reads)
Goes-Arrives zero l reads r = tt
Goes-Arrives (suc n) l [] r = tt
Goes-Arrives (suc n) [] (x ∷ reads) r = absurd r
Goes-Arrives (suc n) (c ∷ l) (byte d ∷ reads) r = (tt, Goes-Arrives n l reads r.1)
Goes-Arrives (suc n) (c ∷ l) (read_interrupted ∷ reads) r = (tt, Goes-Arrives n (c ∷ l) reads r)
Goes-Arrives (suc n) (c ∷ l) (read_failed ∷ reads) r = absurd r

some-Arrives : (l : List ℕ) (reads : List Read) → Arrives (with_newline l) reads → 0 < length reads
some-Arrives [] [] r = absurd r
some-Arrives (c ∷ l) [] r = absurd r
some-Arrives l (x ∷ reads) r = omega arith

Arrives-byte : (l : List ℕ) → Arrives l (map byte l)
Arrives-byte [] = tt
Arrives-byte (c ∷ l) = (refl, Arrives-byte l)

length-map_byte : (l : List ℕ) → length (map byte l) ≡ length l
length-map_byte [] = refl
length-map_byte (c ∷ l) = ap suc (length-map_byte l)

-- The caller's buffer behind a line that fits.
readline-line :
    (l buffer : List ℕ) (reads : List Read)
    → All IsInner l
    → Arrives (with_newline l) reads
    → length reads ≤ max_line - 2
    → buffer_after (readline (max_line - 1) reads) buffer
      ≡ with_newline l ++ (0 ∷ drop (length (with_newline l) + 1) buffer)
unfolding buffer_after
readline-line l buffer reads a r h =
    ap (λ r. buffer_after r buffer)
      (readline_exact (max_line - 1) reads
        (Goes-Arrives (max_line - 1 - 1) (with_newline l) reads r) (some-Arrives l reads r))
    ∙ rw
        (
          until_newline-Arrives l (max_line - 1 - 1) reads a r (omega arith),
          bytes_of-Arrives (with_newline l) reads r,
        )
        refl

line-no_nul : (l : List ℕ) → All IsInner l → All (λ c. c ≢ 0) (with_newline l)
line-no_nul [] a = ((λ e. absurd (omega (arith, e))), tt)
line-no_nul (c ∷ l) a = (a.0.0, line-no_nul l a.1)

serve-line :
    (l buffer : List ℕ) (reads : List Read) (writes : List Write)
    → All IsInner l
    → Arrives (with_newline l) reads
    → length reads ≤ max_line - 2
    → All Sends writes
    → length l < progress writes
    → serve buffer reads writes ≡ (
      with_newline l ++ (0 ∷ drop (length (with_newline l) + 1) buffer),
      some (sent_all (with_newline l)),
    )
unfolding serve
serve-line l buffer reads writes a r h g p =
    rw
      (
        readline-line l buffer reads a r h,
        c_string-append (with_newline l) (drop (length (with_newline l) + 1) buffer)
            (line-no_nul l a),
        writeline-sent_all writes (with_newline l) g (omega (arith, length-append l (10 ∷ []))),
      )
      refl

-- The answers to the peer's `read`s deliver the bytes sent.
abbrev pub Delivers : Option Sent → List Read → Type 0
Delivers none reads = ⊥
Delivers (some sent) reads = Arrives (bytes_sent sent) reads

-- A line without a NUL or an inner newline, with its newline, comes back: the client sends it, the server
-- echoes it whatever its buffer holds, and the client reads the same line. The `write`s of both sides do
-- not fail and enough of them are not interrupted; the `read`s of both sides deliver the bytes that the
-- other one has sent, do not fail, and are at most 998 on each side, the interrupted ones among them.
pub echo_round_trip :
    (l buffer junk : List ℕ) (client_writes server_writes : List Write)
    (server_reads client_reads : List Read)
    → All IsInner l
    → All Sends client_writes
    → length l < progress client_writes
    → All Sends server_writes
    → length l < progress server_writes
    → Delivers (some (client_send client_writes (with_newline l))) server_reads
    → length server_reads ≤ max_line - 2
    → Delivers (serve buffer server_reads server_writes).1 client_reads
    → length client_reads ≤ max_line - 2
    → client_receive (with_newline l) junk client_reads ≡ some (with_newline l)
unfolding client_receive client_send
echo_round_trip l buffer junk ws ws' rs rs' a g p g' p' d h d' h' =
    let sent : writeline ws (with_newline l) ≡ sent_all (with_newline l) =
      writeline-sent_all ws (with_newline l) g (omega (arith, length-append l (10 ∷ []))) in
    let r : Arrives (with_newline l) rs = subst (λ x. Delivers (some x) rs) sent d in
    let r' : Arrives (with_newline l) rs' =
      subst (λ x. Delivers x.1 rs') (serve-line l buffer rs ws' a r h g' p') d' in
    rw (readline-line l _ rs' a r' h') (c_string-append (with_newline l) _ (line-no_nul l a))

-- A client that closes its connection at once, or whose connection fails at once, is sent the line of
-- the client before it: the buffer is the one of all connections and is not cleared.
pub stale_line :
    (l buffer : List ℕ) (writes later_writes : List Write) (reads : List Read)
    → All IsInner l
    → length l < max_line - 2
    → All Sends writes
    → length l < progress writes
    → All Sends later_writes
    → length l < progress later_writes
    → let before = (serve buffer (map byte (with_newline l)) writes).0 in
      (serve before [] later_writes ≡ (before, some (sent_all (with_newline l))))
      × (serve before (read_failed ∷ reads) later_writes
          ≡ (before, some (sent_all (with_newline l))))
unfolding serve readline read_loop buffer_after
stale_line l buffer ws ws' reads a h g p g' p' =
    let again : elim (c_string
          (with_newline l ++ (0 ∷ drop (length (with_newline l) + 1) buffer))) [
            | none ↦ none
            | some text ↦ some (writeline ws' text)
          ]
        ≡ some (sent_all (with_newline l)) =
      rw
        (
          c_string-append (with_newline l) (drop (length (with_newline l) + 1) buffer)
              (line-no_nul l a),
          writeline-sent_all ws' (with_newline l) g' (omega (arith, length-append l (10 ∷ []))),
        )
        refl in
    let bytes : length (map byte (with_newline l)) ≤ max_line - 2 =
      omega (arith, h, length-map_byte (with_newline l), length-append l (10 ∷ [])) in
    rw
      (
        ap (λ s. s.0)
            (serve-line l buffer (map byte (with_newline l)) ws a (Arrives-byte (with_newline l))
              bytes g p),
        again,
      )
      (refl, refl)
