-- ===== src/Printf/Text.antt =====
-- What `vprintf` puts out of a text, line by line.
use embedlab.Prelude.{
  ℕ, zero, suc, ◌+◌, ◌<◌, ◌≤◌, ◌≡◌, ◌≢◌, refl, ap, sym, ◌∙◌, Bool, true, false, ◌&&◌, ◌||◌,
  Bool-cases, inl, inr, some, List, [], ◌∷◌, ◌++◌, append-nil, append_assoc, length, length-append,
  ◌==◌, if◌then◌else◌, ltb, leb, update, u8, arith,
}
use embedlab.CString.{Mem, IsString, strlen, strlen_lem}
use embedlab.Console.{put_all}
use embedlab.Printf.{flush, puts, printf_char, print_all, end_print, vprintf}

-- bytes without terminators, and at most 127 of them before each newline and the end, with `n` of these
-- already seen
abbrev pub fits : (n : ℕ) → List ℕ → Bool
fits n [] = true
fits n (c ∷ cs) =
    if c == 10 then fits 0 cs else ltb 0 c && (ltb c 256 && (ltb n 127 && fits (n + 1) cs))

-- at `s` stand the characters of a line, none of them a terminator
Stands : Mem → ℕ → List ℕ → Type 0
Stands mem s [] = Unit
Stands mem s (c ∷ cs) = (mem s ≡ c) × (c ≢ 0) × Stands mem (s + 1) cs

update-Stands :
    (mem : Mem) (s a v : ℕ) (line : List ℕ)
    → s + length line ≤ a
    → Stands mem s line
    → Stands (update mem a v) s line
unfolding Stands
update-Stands mem s a v [] far w = tt
update-Stands mem s a v (c ∷ cs) far w =
    (ground (arith, far, w.0), w.1, update-Stands mem (s + 1) a v cs (omega (arith, far)) w.2)

snoc-Stands :
    (mem : Mem) (s a c : ℕ) (line : List ℕ)
    → a ≡ s + length line
    → c ≢ 0
    → Stands mem s line
    → Stands (update mem a c) s (line ++ (c ∷ []))
unfolding Stands
snoc-Stands mem s a c [] e nz w = (ground (arith, e), nz, tt)
snoc-Stands mem s a c (x ∷ xs) e nz w =
    (ground (arith, e, w.0), w.1, snoc-Stands mem (s + 1) a c xs (omega (arith, e)) nz w.2)

Stands-IsString :
    (mem : Mem) (s : ℕ) (line : List ℕ)
    → Stands mem s line
    → mem (s + length line) ≡ 0
    → IsString mem s (length line)
unfolding Stands
Stands-IsString mem s [] w e = ap mem (omega arith) ∙ e
Stands-IsString mem s (c ∷ cs) w e =
    ((λ z. w.1 (sym w.0 ∙ z)), Stands-IsString mem (s + 1) cs w.2 (ap mem (omega arith) ∙ e))

put_all-Stands :
    (mem : Mem) (s : ℕ) (line : List ℕ) → Stands mem s line → put_all (length line) mem s ≡ line
unfolding Stands put_all
put_all-Stands mem s [] w = refl
put_all-Stands mem s (c ∷ cs) w =
    ap (λ x. x ∷ put_all (length cs) mem (s + 1)) w.0
    ∙ ap (λ xs. c ∷ xs) (put_all-Stands mem (s + 1) cs w.2)

-- the line in the buffer is closed and put out
closed :
    (buf : Mem) (i : ℕ) (line : List ℕ)
    → i ≡ length line
    → Stands buf 0 line
    → put_all i (update buf i 0) 0 ≡ line
closed buf i line e w =
    ap (λ n. put_all n (update buf i 0) 0) e
    ∙ put_all-Stands (update buf i 0) 0 line (update-Stands buf 0 i 0 line (omega (arith, e)) w)

newline :
    (buf : Mem) (i : ℕ) (out line : List ℕ)
    → i ≡ length line
    → i < 128
    → Stands buf 0 line
    → printf_char 10 (record { buf = buf; index = i; out = out })
      ≡ some (record { buf = update buf i 0; index = 0; out = out ++ (line ++ (10 ∷ [])) })
unfolding printf_char puts
newline buf i out line e small w =
    let ended : Mem = update buf i 0 in
    let still = update-Stands buf 0 i 0 line (omega (arith, e)) w in
    let zero_at : ended (0 + length line) ≡ 0 = ground (arith, e) in
    let found : strlen 128 ended 0 ≡ some (length line) =
      strlen_lem 128 ended 0 (length line) (Stands-IsString ended 0 line still zero_at)
        (omega (arith, e, small)) in
    rw (found, put_all-Stands ended 0 line still) refl

plain :
    (c : ℕ) (buf : Mem) (i : ℕ) (out : List ℕ)
    → (c == 10) ≡ false
    → 0 < c
    → c < 256
    → i < 127
    → printf_char c (record { buf = buf; index = i; out = out })
      ≡ some (record { buf = update buf i c; index = i + 1; out = out })
unfolding printf_char
plain c buf i out ne pos byte small =
    let stored : u8 c ≡ c = omega (arith, byte) in
    let room : (c == 0 || leb 127 i) ≡ false = ground (arith, pos, small) in
    rw (ne, room, stored) refl

text_from :
    (chars : List ℕ) (buf : Mem) (i : ℕ) (out line : List ℕ)
    → i ≡ length line
    → i < 128
    → Stands buf 0 line
    → fits i chars ≡ true
    → end_print (print_all chars (some (record { buf = buf; index = i; out = out })))
      ≡ some (out ++ (line ++ chars))
unfolding print_all end_print flush Stands
text_from [] buf zero out [] e small w f = ap some (sym (append-nil out))
text_from [] buf zero out (c ∷ cs) e small w f = absurd (omega (arith, e))
text_from [] buf (suc i) out line e small w f =
    let more : (suc i == 0) ≡ false = ground arith in
    rw more (ap (λ xs. some (out ++ xs)) (closed buf (suc i) line e w ∙ sym (append-nil line)))
text_from (c ∷ cs) buf i out line e small w f = elim (Bool-cases (c == 10)) [
  | inl nl ↦
      let ten : c ≡ 10 = ground (arith, nl) in
      let later =
        text_from cs (update buf i 0) 0 (out ++ (line ++ (10 ∷ []))) [] refl (omega arith) tt
          (ground (arith, f, nl)) in
      ap
        (λ x. end_print (print_all cs (printf_char x (record { buf = buf; index = i; out = out }))))
        ten
      ∙ (ap (λ o. end_print (print_all cs o)) (newline buf i out line e small w)
          ∙ (later
              ∙ ap some (
                  append_assoc out (line ++ (10 ∷ [])) cs
                  ∙ ap (λ xs. out ++ xs)
                      (append_assoc line (10 ∷ []) cs ∙ ap (λ x. line ++ (x ∷ cs)) (sym ten)))))
  | inr ne ↦
      let pos : 0 < c = ground (arith, f, ne) in
      let room : i < 127 = ground (arith, f, ne) in
      let grown : length (line ++ (c ∷ [])) ≡ length line + 1 = length-append line (c ∷ []) in
      let later =
        text_from cs (update buf i c) (i + 1) out (line ++ (c ∷ [])) (omega (arith, grown, e))
          (omega (arith, room))
          (snoc-Stands buf 0 i c line (omega (arith, e)) (λ z. omega (arith, z, pos)) w)
          (ground (arith, f, ne)) in
      ap (λ o. end_print (print_all cs o)) (plain c buf i out ne pos (ground (arith, f, ne)) room)
      ∙ (later ∙ ap (λ xs. some (out ++ xs)) (append_assoc line (c ∷ []) cs))
]

-- A text of bytes without terminators, of which at most 127 stand before each newline and the end, is
-- put out as it is, whatever the buffer holds at first.
pub vprintf-text :
    (buf : Mem) (chars : List ℕ) → fits 0 chars ≡ true → vprintf buf chars ≡ some chars
unfolding vprintf Stands
vprintf-text buf chars f = text_from chars buf 0 [] [] refl (omega arith) tt f
