-- ===== src/Doprnt/Thread.antt =====
-- The conversion `%t` of doprnt.c, which prints a thread id of two words: `version_low` has ten bits,
-- `lthread` seven and `task` eleven, from the lowest bit of the first word on.
use embedlab.Prelude.{
  ℕ, ◌+◌, ◌-◌, ◌/◌, ◌%◌, ◌^◌, Bool, ◌&&◌, not, Option, some, List, [], ◌∷◌, ◌++◌, ltb, leb, ◌==◌,
  if◌then◌else◌,
}
use embedlab.Doprnt.{◌>>=◌, Arg, next_number, repeat, printnum, printnum_16}
use embedlab.Doprnt.Number.{Spec}

abbrev one_if : Bool → ℕ
one_if b = if b then 1 else 0

abbrev chars_if : Bool → ℕ → List ℕ
chars_if b c = if b then c ∷ [] else []

abbrev pub lthread : ℕ → ℕ
lthread tid = tid / 2 ^ 10 % 2 ^ 7

abbrev pub task_of : ℕ → ℕ
task_of tid = tid / 2 ^ 17 % 2 ^ 11

-- with `l`: both words in eight digits each
unfoldable pub long_thread : Spec → ℕ → Option (List ℕ)
long_thread spec tid =
    let pad = if ltb 0 spec.length then spec.length - (if spec.altfmt then 19 else 17) else 0 in
    printnum_16 (tid % 2 ^ 32) >>= λ high. printnum_16 (tid / 2 ^ 32) >>= λ low. some (
      (if spec.ladjust then [] else repeat b' ' pad)
      ++ (chars_if spec.altfmt b'['
          ++ (high
              ++ (b':'
                  ∷ (low
                      ++ (chars_if spec.altfmt b']'
                          ++ (if spec.ladjust then repeat b' ' pad else [])))))))

-- `task.lthread`, each in hexadecimal
unfoldable pub short_thread : Spec → ℕ → Option (List ℕ)
short_thread spec tid =
    let m = 1 + one_if (leb 0x10 (lthread tid)) in
    let n =
      (if spec.altfmt then 4 else 2)
      + (one_if (leb 0x10 (task_of tid)) + one_if (leb 0x100 (task_of tid))) in
    let right = ltb 0 spec.length && not spec.ladjust in
    let before = if right then spec.length - (n + 2) else 0 in
    let n1 = n + before in
    let between = if right then spec.length - (n1 + m) else 0 in
    let n2 = n1 + between in
    let after = if spec.ladjust then spec.length - (n2 + m) else 0 in
    printnum (task_of tid) 16 >>= λ high. printnum (lthread tid) 16 >>= λ low. some (
      (if spec.padc == b' ' then repeat b' ' before else [])
      ++ (chars_if spec.altfmt b'['
          ++ ((if spec.padc == b'0' then repeat b'0' before else [])
              ++ (high
                  ++ (b'.'
                      ∷ (repeat spec.padc between
                          ++ (low ++ (chars_if spec.altfmt b']' ++ repeat b' ' after))))))))

unfoldable pub print_thread : Spec → List Arg → Option (List ℕ × List Arg)
print_thread spec args = next_number args >>= λ (tid, left).
    (if ltb 0 spec.longopt then long_thread spec tid else short_thread spec tid) >>= λ out.
    some (out, left)
