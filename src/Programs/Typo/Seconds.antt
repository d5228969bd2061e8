-- ===== src/Programs/Typo/Seconds.antt =====
-- The line with the time that typo prints.
use embedlab.Prelude.{
  ℕ, suc, ◌+◌, ◌/◌, ◌%◌, ◌^◌, ◌<◌, ◌≤◌, ◌≡◌, refl, ap, ◌∙◌, true, false, Option, some, List, [],
  ◌∷◌, ◌++◌, All, length, ltb, ◌==◌, arith, is_negative,
}
use embedlab.CString.{Mem}
use embedlab.Calc.Digits.{value}
use embedlab.Doprnt.{◌>>=◌, Arg, number, printnum}
use embedlab.Doprnt.Number.{signed, print_num, print_signed}
use embedlab.Doprnt.Format.{
  no_flags, read_flags, read_width, read_prec, count_l, read_pad, read_long, read_spec,
}
use embedlab.Doprnt.Main.{Formatting, convert, defined, before, format_from, put_out, doprnt}
use embedlab.Doprnt.Digits.{char_of, chars_of, printnum_lem}
use embedlab.Doscan.RoundTrip.{print_num-plain, signed-plain}
use embedlab.Printf.{printf}
use embedlab.Printf.Text.{fits, vprintf-text}
use embedlab.Programs.Typo.{seconds}

-- what `printf` makes of two numbers that are not negative
signed-positive : (w : ℕ) → w < 2 ^ 31 → signed no_flags w ≡ (w, 0)
signed-positive w small =
    let plus : ltb (w + w) (2 ^ 32) ≡ true = ground (arith, small) in signed-plain w ∙ rw plus refl

-- a number that is not negative, in a format without flags
step-d :
    (fuel w : ℕ) (ds rest : List ℕ) (args : List Arg)
    → w < 2 ^ 31
    → printnum w 10 ≡ some ds
    → format_from (suc fuel) false 0 (b'%' ∷ b'd' ∷ rest) (number w ∷ args)
      ≡ before ds (format_from fuel false 0 rest args)
unfolding format_from read_spec read_flags read_pad read_width read_prec read_long count_l convert
    print_signed
step-d fuel w ds rest args small run =
    ap
      (λ (r : ℕ × ℕ).
        put_first fuel rest (print_num no_flags false r.0 r.1 10 >>= λ out. some (out, args)))
      (signed-positive w small)
    ∙ ap (λ o. put_first fuel rest (o >>= λ out. some (out, args))) (print_num-plain w 0 10 ds run)
  where
    put_first : ℕ → List ℕ → Option (List ℕ × List Arg) → Formatting
    put_first fuel rest o =
        defined o (λ (out, left). before out (format_from fuel false 0 rest left))

step-plain :
    (fuel c : ℕ) (fmt : List ℕ) (args : List Arg)
    → (c == b'%') ≡ false
    → format_from (suc fuel) false 0 (c ∷ fmt) args
      ≡ before (c ∷ []) (format_from fuel false 0 fmt args)
unfolding format_from
step-plain fuel c fmt args plain = rw plain refl

step-end : (fuel : ℕ) → format_from (suc fuel) false 0 [] [] ≡ some (some [])
unfolding format_from
step-end fuel = refl

doprnt-seconds :
    (w v : ℕ) (ds es : List ℕ)
    → w < 2 ^ 31
    → v < 2 ^ 31
    → printnum w 10 ≡ some ds
    → printnum v 10 ≡ some es
    → doprnt false (b'%' ∷ b'd' ∷ b'.' ∷ b'%' ∷ b'd' ∷ b's' ∷ 10 ∷ []) (number w ∷ number v ∷ []) 0
      ≡ some (ds ++ (b'.' ∷ (es ++ (b's' ∷ 10 ∷ []))))
unfolding doprnt
doprnt-seconds w v ds es small_w small_v run_w run_v =
    let tail =
      step-plain 4 b's' (10 ∷ []) [] refl
      ∙ ap (before (b's' ∷ [])) (step-plain 3 10 [] [] refl ∙ ap (before (10 ∷ [])) (step-end 2)) in
    let behind =
      step-plain 6 b'.' (b'%' ∷ b'd' ∷ b's' ∷ 10 ∷ []) (number v ∷ []) refl
      ∙ ap (before (b'.' ∷ []))
          (step-d 5 v es (b's' ∷ 10 ∷ []) [] small_v run_v ∙ ap (before es) tail) in
    ap put_out (
      step-d 7 w ds (b'.' ∷ b'%' ∷ b'd' ∷ b's' ∷ 10 ∷ []) (number v ∷ []) small_w run_w
      ∙ ap (before ds) behind)

-- the digits fit into the buffer of `printf`
fits-chars_of :
    (n m : ℕ) (ds rest : List ℕ)
    → All (λ d. d < 10) ds
    → m ≡ n + length ds
    → m ≤ 127
    → fits m rest ≡ true
    → fits n (chars_of ds ++ rest) ≡ true
fits-chars_of n m [] rest all same room ok = ap (λ i. fits i rest) (omega (arith, same)) ∙ ok
fits-chars_of n m (d ∷ ds) rest all same room ok =
    let here : (char_of d == 10) ≡ false = ground (arith, all.0) in
    let pos : ltb 0 (char_of d) ≡ true = ground (arith, all.0) in
    let byte : ltb (char_of d) 256 ≡ true = ground (arith, all.0) in
    let left : ltb n 127 ≡ true = ground (arith, same, room) in
    rw (here, pos, byte, left) (fits-chars_of (n + 1) m ds rest all.1 (omega (arith, same)) room ok)

fits-point :
    (n : ℕ) (rest : List ℕ) → n < 127 → fits (n + 1) rest ≡ true → fits n (b'.' ∷ rest) ≡ true
fits-point n rest room ok = let left : ltb n 127 ≡ true = ground (arith, room) in rw (left, ok) refl

fits-end : (n : ℕ) → n < 127 → fits n (b's' ∷ 10 ∷ []) ≡ true
fits-end n room = let left : ltb n 127 ≡ true = ground (arith, room) in rw left refl

-- the time in decimal digits: the seconds, a point, the milliseconds without leading zeros
pub seconds_lem :
    (stack : Mem) (systime : ℕ)
    → systime < 2 ^ 31
    → (ds es : List ℕ) × (seconds stack systime
        ≡ some (chars_of ds ++ (b'.' ∷ (chars_of es ++ (b's' ∷ 10 ∷ [])))))
      × (value 10 0 ds ≡ systime / 1000)
      × (value 10 0 es ≡ systime % 1000)
      × All (λ d. d < 10) ds
      × All (λ d. d < 10) es
unfolding seconds printf
seconds_lem stack systime small =
    let sign : is_negative systime ≡ false = ground (arith, small) in
    let (ds, run_w, same_w, all_w, size_w, _) =
      printnum_lem 10 (omega arith) (omega arith) (systime / 1000) (omega (arith, small)) in
    let (es, run_v, same_v, all_v, size_v, _) =
      printnum_lem 10 (omega arith) (omega arith) (systime % 1000) (omega (arith, small)) in
    let text : List ℕ = chars_of ds ++ (b'.' ∷ (chars_of es ++ (b's' ∷ 10 ∷ []))) in
    let ending : fits 0 text ≡ true =
      fits-chars_of 0 (length ds) ds (b'.' ∷ (chars_of es ++ (b's' ∷ 10 ∷ []))) all_w (omega arith)
        (omega (arith, size_w))
        (fits-point (length ds) (chars_of es ++ (b's' ∷ 10 ∷ [])) (omega (arith, size_w)) (
          fits-chars_of (length ds + 1) (length ds + 1 + length es) es (b's' ∷ 10 ∷ []) all_v refl
            (omega (arith, size_w, size_v))
            (fits-end (length ds + 1 + length es) (omega (arith, size_w, size_v))))) in
    (
      ds,
      es,
      rw
          (
            sign,
            doprnt-seconds (systime / 1000) (systime % 1000) (chars_of ds) (chars_of es)
                (omega (arith, small)) (omega (arith, small)) run_w run_v,
          )
          (vprintf-text stack text ending),
      same_w,
      same_v,
      all_w,
      all_v,
    )
