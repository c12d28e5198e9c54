-- ===== src/Echo/Send.antt =====
-- The loop of `Writeline` of helper.c (eServ1T_TCP).
use sistemi_operativi.Prelude.{
  ℕ, suc, ◌≤◌, ◌≡◌, sym, ap, ◌∙◌, List, [], ◌∷◌, ◌++◌, length, take, drop, append_assoc, append-nil,
  take-append-drop, length-drop, arith, All,
}
use sistemi_operativi.Echo.{
  Write, wrote, write_interrupted, write_failed, Sent, sent_all, send_failed, sending, write_loop,
  writeline,
}

-- `write` does not fail.
abbrev pub Sends : Write → Type 0
Sends (wrote k) = Unit
Sends write_interrupted = Unit
Sends write_failed = ⊥

-- The answers that are not EINTR.
abbrev pub progress : List Write → ℕ
progress [] = 0
progress (wrote k ∷ writes) = suc (progress writes)
progress (write_interrupted ∷ writes) = progress writes
progress (write_failed ∷ writes) = suc (progress writes)

abbrev pub bytes_sent : Sent → List ℕ
bytes_sent (sent_all sent) = sent
bytes_sent (send_failed sent) = sent
bytes_sent (sending sent) = sent

write_loop-sent_all :
    (writes : List Write) (left sent : List ℕ)
    → All Sends writes
    → length left ≤ progress writes
    → write_loop writes left sent ≡ sent_all (sent ++ left)
unfolding write_loop
write_loop-sent_all [] [] sent g l = ap sent_all (sym (append-nil sent))
write_loop-sent_all (w ∷ writes) [] sent g l = ap sent_all (sym (append-nil sent))
write_loop-sent_all [] (c ∷ left) sent g l = absurd (omega arith)
write_loop-sent_all (wrote k ∷ writes) (c ∷ left) sent g l =
    write_loop-sent_all writes (drop k left) (sent ++ take (suc k) (c ∷ left)) g.1
      (omega (arith, l, length-drop k left))
    ∙ ap sent_all (
        append_assoc sent (take (suc k) (c ∷ left)) (drop k left)
        ∙ ap (λ l. sent ++ l) (take-append-drop (suc k) (c ∷ left)))
write_loop-sent_all (write_interrupted ∷ writes) (c ∷ left) sent g l =
    write_loop-sent_all writes (c ∷ left) sent g.1 l
write_loop-sent_all (write_failed ∷ writes) (c ∷ left) sent g l = absurd g.0

-- `Writeline` ends with all of its bytes sent, once and in order, when no `write` fails and as many
-- calls of it as there are bytes are not interrupted, however few bytes each of them takes.
pub writeline-sent_all :
    (writes : List Write) (bytes : List ℕ)
    → All Sends writes
    → length bytes ≤ progress writes
    → writeline writes bytes ≡ sent_all bytes
unfolding writeline
writeline-sent_all writes bytes g l = write_loop-sent_all writes bytes [] g l
