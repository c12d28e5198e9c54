-- ===== src/Echo/Tests.antt =====
-- Small runs of the echo server and client, and the theorems at them.
use sistemi_operativi.Prelude.{
  ◌≡◌, refl, some, List, [], ◌∷◌, ℕ, length, take, drop, arith, All, map, replicate, subst, sym,
}
use sistemi_operativi.Prelude.Text.{c_string}
use sistemi_operativi.Echo.{
  writeline, write_loop, Read, byte, read_interrupted, read_failed, line, read_loop, readline,
  buffer_after, Write, wrote, write_interrupted, sent_all, serve, client_send, client_receive,
}
use sistemi_operativi.Echo.Receive.{
  until_newline, bytes_of, returned, readline_exact, readline_fits,
}
use sistemi_operativi.Echo.Session.{
  IsInner, with_newline, Arrives, Delivers, echo_round_trip, stale_line,
}

abbrev answers : List Read
answers = byte 104 ∷ read_interrupted ∷ byte 105 ∷ byte 10 ∷ byte 106 ∷ []

readline_count : readline 999 answers ≡ line 4 (104 ∷ 105 ∷ 10 ∷ []) (byte 106 ∷ [])
unfolding readline read_loop
readline_count = refl

-- At the end of the connection the count is one more than the bytes.
readline_count_at_end : readline 999 (byte 104 ∷ byte 105 ∷ []) ≡ line 3 (104 ∷ 105 ∷ []) []
unfolding readline read_loop
readline_count_at_end = refl

readline_exact_example :
    readline 999 answers
    ≡ line
        (returned (until_newline (take 998 answers)))
        (bytes_of (until_newline (take 998 answers)))
        (drop (length (until_newline (take 998 answers))) answers)
readline_exact_example = readline_exact 999 answers (tt, (tt, (tt, (tt, (tt, tt))))) (omega arith)

abbrev zeros : List ℕ
zeros = replicate 4 0

readline_fits_example :
    (length (buffer_after (readline 3 answers) zeros) ≡ length zeros)
    × (drop 3 (buffer_after (readline 3 answers) zeros) ≡ drop 3 zeros)
readline_fits_example = readline_fits 3 answers zeros (omega arith) (omega arith)

abbrev hi : List ℕ
hi = 104 ∷ 105 ∷ []

hi-IsInner : All IsInner hi
hi-IsInner = (
  ((λ e. absurd (omega (arith, e))), (λ e. absurd (omega (arith, e)))),
  (((λ e. absurd (omega (arith, e))), (λ e. absurd (omega (arith, e)))), tt),
)

abbrev writes : List Write
writes = wrote 0 ∷ write_interrupted ∷ wrote 0 ∷ wrote 5 ∷ []

-- Each side is interrupted once.
abbrev hi_reads : List Read
hi_reads = byte 104 ∷ read_interrupted ∷ byte 105 ∷ byte 10 ∷ []

hi-sent : client_send writes (with_newline hi) ≡ sent_all (with_newline hi)
unfolding client_send writeline write_loop
hi-sent = refl

hi-served : (serve [] hi_reads writes).1 ≡ some (sent_all (with_newline hi))
unfolding serve readline read_loop buffer_after writeline write_loop c_string
hi-served = refl

hi-Arrives : Arrives (with_newline hi) hi_reads
hi-Arrives = (refl, (refl, (refl, tt)))

echo_round_trip_example : client_receive (with_newline hi) [] hi_reads ≡ some (with_newline hi)
echo_round_trip_example =
    echo_round_trip hi [] [] writes writes hi_reads hi_reads hi-IsInner (tt, (tt, (tt, (tt, tt))))
      (omega arith) (tt, (tt, (tt, (tt, tt)))) (omega arith)
      (subst (λ x. Delivers (some x) hi_reads) (sym hi-sent) hi-Arrives) (omega arith)
      (subst (λ x. Delivers x hi_reads) (sym hi-served) hi-Arrives) (omega arith)

stale_line_example :
    let before = (serve [] (map byte (with_newline hi)) writes).0 in
    (serve before [] writes ≡ (before, some (sent_all (with_newline hi))))
    × (serve before (read_failed ∷ []) writes ≡ (before, some (sent_all (with_newline hi))))
stale_line_example =
    stale_line hi [] writes writes [] hi-IsInner (omega arith) (tt, (tt, (tt, (tt, tt))))
      (omega arith) (tt, (tt, (tt, (tt, tt)))) (omega arith)
