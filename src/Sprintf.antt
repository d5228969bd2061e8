-- ===== src/Sprintf.antt =====
-- tasks/libc/stdio/sprintf.c: printing to a string. `chars` are the characters that `_doprnt` gives
-- to `savechar`, in order.
use embedlab.Prelude.{
  ◌<◌, ℕ, zero, suc, ◌+◌, ◌≡◌, Bool, true, false, Option, none, some, List, [], ◌∷◌, length, ◌==◌,
  if◌then◌else◌, update, u8, arith, min, refl, ap, ◌∙◌,
}
use embedlab.CString.{Mem}

-- `struct sprintf_state`, and the memory; `none` is `SPRINTF_UNLIMITED`
pub record State : Type 0 where
  pub buf : ℕ
  pub len : ℕ
  pub max : Option ℕ
  pub mem : Mem

abbrev is_full : Option ℕ → ℕ → Bool
is_full none len = false
is_full (some max) len = len == max

unfoldable pub savechar : ℕ → State → State
savechar c state = if is_full state.max state.len then state else record state {
  len = state.len + 1;
  mem = update state.mem state.buf (u8 c);
  buf = state.buf + 1;
}

-- what `_doprnt` does with the state
unfoldable pub save_all : List ℕ → State → State
save_all [] state = state
save_all (c ∷ chars) state = save_all chars (savechar c state)

-- `*(state.buf) = '\0'`, and the result
unfoldable pub finish : State → ℕ × Mem
finish state = (state.len, update state.mem state.buf 0)

unfoldable pub vsprintf : ℕ → List ℕ → Mem → ℕ × Mem
vsprintf s chars mem = finish (save_all chars (record { buf = s; len = 0; max = none; mem = mem }))

unfoldable pub vsnprintf : ℕ → (size : ℕ) → List ℕ → Mem → ℕ × Mem
vsnprintf s size chars mem =
    finish (save_all chars (record { buf = s; len = 0; max = some size; mem = mem }))

unfoldable pub sprintf : ℕ → List ℕ → Mem → ℕ × Mem
sprintf s chars mem = vsprintf s chars mem

unfoldable pub snprintf : ℕ → (size : ℕ) → List ℕ → Mem → ℕ × Mem
snprintf s size chars mem = vsnprintf s size chars mem

savechar-full :
    (c : ℕ) (state : State) → is_full state.max state.len ≡ true → savechar c state ≡ state
unfolding savechar
savechar-full c state full = rw full refl

savechar-room :
    (c : ℕ) (state : State)
    → is_full state.max state.len ≡ false
    → savechar c state ≡ record state {
      len = state.len + 1;
      mem = update state.mem state.buf (u8 c);
      buf = state.buf + 1;
    }
unfolding savechar
savechar-room c state room = rw room refl

-- With a limit, the counter ends at the limit or at the number of characters, and the pointer as far
-- behind its start.
save_all_lem :
    (chars : List ℕ) (state : State) (room : ℕ)
    → state.max ≡ some (state.len + room)
    → ((save_all chars state).buf ≡ state.buf + min room (length chars))
      × ((save_all chars state).len ≡ state.len + min room (length chars))
unfolding save_all
save_all_lem [] state room limit = (omega arith, omega arith)
save_all_lem (c ∷ chars) state zero limit =
    let full : is_full state.max state.len ≡ true =
      ap (λ m. is_full m state.len) limit ∙ ground arith in
    let (b, l) = save_all_lem chars state zero limit in
    (
      ap (λ s. (save_all chars s).buf) (savechar-full c state full) ∙ b ∙ omega arith,
      ap (λ s. (save_all chars s).len) (savechar-full c state full) ∙ l ∙ omega arith,
    )
save_all_lem (c ∷ chars) state (suc room) limit =
    let free : is_full state.max state.len ≡ false =
      ap (λ m. is_full m state.len) limit ∙ ground arith in
    let next : State = record state {
      len = state.len + 1;
      mem = update state.mem state.buf (u8 c);
      buf = state.buf + 1;
    } in
    let (b, l) = save_all_lem chars next room (limit ∙ ap some (omega arith)) in
    (
      ap (λ s. (save_all chars s).buf) (savechar-room c state free) ∙ b ∙ omega arith,
      ap (λ s. (save_all chars s).len) (savechar-room c state free) ∙ l ∙ omega arith,
    )

-- `vsnprintf` returns the number of characters it has stored, which is `size` at most, and stores
-- the terminator behind them: with `size` characters or more, one byte behind the `size` bytes.
pub vsnprintf_lem :
    (s size : ℕ) (chars : List ℕ) (mem : Mem)
    → ((vsnprintf s size chars mem).0 ≡ min size (length chars))
      × ((vsnprintf s size chars mem).1 (s + min size (length chars)) ≡ 0)
unfolding vsnprintf finish
vsnprintf_lem s size chars mem =
    let (b, l) =
      save_all_lem chars (record { buf = s; len = 0; max = some size; mem = mem }) size
        (ap some (omega arith)) in
    (l ∙ omega arith, ground (arith, b))

-- At `s` stand the characters `chars` and a terminator.
abbrev pub Holds : Mem → ℕ → List ℕ → Type 0
Holds mem s [] = mem s ≡ 0
Holds mem s (c ∷ chars) = (mem s ≡ u8 c) × Holds mem (s + 1) chars

-- what stands below the buffer is not touched
save_all-below :
    (chars : List ℕ) (buf len : ℕ) (mem : Mem) (a : ℕ)
    → a < buf
    → (finish (save_all chars (record { buf = buf; len = len; max = none; mem = mem }))).1 a ≡ mem a
unfolding save_all savechar finish
save_all-below [] buf len mem a below = ground arith
save_all-below (c ∷ chars) buf len mem a below =
    save_all-below chars (buf + 1) (len + 1) (update mem buf (u8 c)) a (omega (arith, below))
    ∙ ground arith

save_all-Holds :
    (chars : List ℕ) (buf len : ℕ) (mem : Mem)
    → Holds
        (finish (save_all chars (record { buf = buf; len = len; max = none; mem = mem }))).1
        buf
        chars
unfolding save_all savechar finish
save_all-Holds [] buf len mem = ground arith
save_all-Holds (c ∷ chars) buf len mem = (
  save_all-below chars (buf + 1) (len + 1) (update mem buf (u8 c)) buf (omega arith) ∙ ground arith,
  save_all-Holds chars (buf + 1) (len + 1) (update mem buf (u8 c)),
)

-- `vsprintf` leaves the characters and a terminator at the target.
pub vsprintf-Holds : (s : ℕ) (chars : List ℕ) (mem : Mem) → Holds (vsprintf s chars mem).1 s chars
unfolding vsprintf
vsprintf-Holds s chars mem = save_all-Holds chars s 0 mem
