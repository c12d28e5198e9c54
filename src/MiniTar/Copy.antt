-- ===== src/MiniTar/Copy.antt =====
-- The copy loop of mini-tar.c and the extraction loop of extract.c.
use sistemi_operativi.Prelude.{
  ℕ, zero, suc, ◌≤◌, ◌<◌, ◌≡◌, refl, ap, ◌∙◌, some, false, [], ◌∷◌, ◌++◌, leb, append_assoc, arith,
  length, take, drop, length-drop, take-append-drop,
}
use sistemi_operativi.MiniTar.{Bytes, bufsize, copy, dump}

leb-suc_zero : (n : ℕ) → leb (suc n) 0 ≡ false
leb-suc_zero n = ground arith

-- With more fuel than bytes the loop ends, and it has appended all the bytes.
pub copy_total :
    (fuel : ℕ) (rest body : Bytes) → length rest < fuel → copy fuel rest body ≡ some (body ++ rest)
unfolding copy
copy_total zero rest body h = absurd (omega arith)
copy_total (suc fuel) [] body h = refl
copy_total (suc fuel) (b ∷ rest) body h = rw (leb-suc_zero _) (
    copy_total fuel (drop bufsize (b ∷ rest)) (body ++ take bufsize (b ∷ rest))
      (omega (arith, length-drop bufsize (b ∷ rest)))
    ∙ ap some (
        append_assoc body (take bufsize (b ∷ rest)) (drop bufsize (b ∷ rest))
        ∙ ap (λ l. body ++ l) (take-append-drop bufsize (b ∷ rest))))

-- The extraction of a window that lies in the file is that window.
pub dump-eq-take : (n : ℕ) (rest : Bytes) (c : ℕ) → n ≤ length rest → dump n rest c ≡ take n rest
unfolding dump
dump-eq-take zero rest c h = refl
dump-eq-take (suc n) [] c h = absurd (omega arith)
dump-eq-take (suc n) (b ∷ rest) c h = ap (λ l. b ∷ l) (dump-eq-take n rest b (omega arith))
