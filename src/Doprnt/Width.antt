-- ===== src/Doprnt/Width.antt =====
-- How wide the fields of `_doprnt` are.
use embedlab.Prelude.{
  ℕ, zero, suc, ◌+◌, ◌-◌, ◌≡◌, refl, Bool, true, false, ◌&&◌, not, ◌⊎◌, List, [], ◌∷◌, ◌++◌, length,
  length-append, take, min, max, ltb, ◌==◌, if◌then◌else◌, arith,
}
use embedlab.Doprnt.{repeat}
use embedlab.Doprnt.Number.{Spec, lay_out}
use embedlab.Doprnt.Format.{limit, lay_out_string}

length-repeat : (c n : ℕ) → length (repeat c n) ≡ n
length-repeat c zero = refl
length-repeat c (suc n) = omega (arith, length-repeat c n)

length-take : (n : ℕ) (xs : List ℕ) → length (take n xs) ≡ min n (length xs)
length-take zero xs = omega arith
length-take (suc n) [] = omega arith
length-take (suc n) (x ∷ xs) = omega (arith, length-take n xs)

length-pad : (b : Bool) (c n : ℕ) → length (if b then repeat c n else []) ≡ (if b then n else 0)
length-pad true c n = length-repeat c n
length-pad false c n = refl

-- A number takes as many characters as its digits, its sign and its prefix, and at least as many as
-- the width of the field.
pub lay_out-length :
    (spec : Spec) (sign prefix digits : List ℕ)
    → (spec.padc ≡ b' ') ⊎ (spec.padc ≡ b'0')
    → length (lay_out spec sign prefix digits)
      ≡ max spec.length (length digits + length sign + length prefix)
unfolding lay_out
lay_out-length spec sign prefix digits fill =
    let pad = spec.length - (length digits + length sign + length prefix) in
    let left = if spec.padc == b' ' && not spec.ladjust then repeat b' ' pad else [] in
    let inner = if spec.padc == b'0' then repeat b'0' pad else [] in
    let right = if spec.ladjust && not (spec.padc == b'0') then repeat b' ' pad else [] in
    ground (
      arith,
      fill,
      length-append left (sign ++ (prefix ++ (inner ++ (digits ++ right)))),
      length-append sign (prefix ++ (inner ++ (digits ++ right))),
      length-append prefix (inner ++ (digits ++ right)),
      length-append inner (digits ++ right),
      length-append digits right,
      length-pad (spec.padc == b' ' && not spec.ladjust) b' ' pad,
      length-pad (spec.padc == b'0') b'0' pad,
      length-pad (spec.ladjust && not (spec.padc == b'0')) b' ' pad,
    )

-- A string takes as many characters as the precision lets through, and at least as many as the
-- width of the field; but a string that is cut short in a left-adjusted field gets one blank less.
pub lay_out_string-length :
    (spec : Spec) (s : List ℕ)
    → length (lay_out_string spec s) ≡ (
        if spec.ladjust && ltb (limit spec) (length s)
        then max (limit spec) (spec.length - 1)
        else max spec.length (min (limit spec) (length s)))
unfolding lay_out_string
lay_out_string-length spec s =
    let n = if ltb (limit spec) (length s) then limit spec + 1 else length s in
    let left =
      if ltb 0 spec.length && not spec.ladjust
      then repeat b' ' (spec.length - min (length s) (limit spec))
      else [] in
    let right = if spec.ladjust then repeat b' ' (spec.length - n) else [] in
    ground (
      arith,
      length-append left (take (limit spec) s ++ right),
      length-append (take (limit spec) s) right,
      length-take (limit spec) s,
      length-pad (ltb 0 spec.length && not spec.ladjust) b' '
          (spec.length - min (length s) (limit spec)),
      length-pad spec.ladjust b' ' (spec.length - n),
    )
