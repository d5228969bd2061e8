-- ===== src/CString/Search.antt =====
-- tasks/libc/string: strchr.c, strrchr.c, strspn.c, strcspn.c, strpbrk.c and strstr.c. A pointer
-- that may be null is `none` or the address.
use embedlab.Prelude.{
  ℕ, zero, suc, ◌+◌, ◌-◌, Bool, true, false, Option, none, some, ◌==◌, if◌then◌else◌,
}
use mathlib.Core.Option
use embedlab.CString.{Mem, strlen}
use embedlab.CString.Compare.{memcmp}

unfoldable pub strchr : ℕ → Mem → (s c : ℕ) → Option (Option ℕ)
strchr zero mem s c = none
strchr (suc fuel) mem s c =
    let rest = strchr fuel mem (s + 1) c in
    if mem s == c then some (some s) else if mem s == 0 then some none else rest

-- the loop, with the value of `save`
unfoldable pub strrchr_loop : ℕ → Mem → (s c : ℕ) → Option ℕ → Option (Option ℕ)
strrchr_loop zero mem s c save = none
strrchr_loop (suc fuel) mem s c save =
    let rest = strrchr_loop fuel mem (s + 1) c (if mem s == c then some s else save) in
    if mem s == 0 then some save else rest

unfoldable pub strrchr : ℕ → Mem → (s c : ℕ) → Option (Option ℕ)
unfolding strrchr_loop
strrchr fuel mem s c = strrchr_loop fuel mem s c none

-- `for (spanp = s2; (sc = *spanp++) != 0;) if (sc == c)`: whether the test succeeds
unfoldable pub in_set : ℕ → Mem → (spanp c : ℕ) → Option Bool
in_set zero mem spanp c = none
in_set (suc fuel) mem spanp c =
    let rest = in_set fuel mem (spanp + 1) c in
    if mem spanp == 0 then some false else if mem spanp == c then some true else rest

-- what follows the test of an inner loop
abbrev pub choose : {A : Type 0} → Option Bool → Option A → Option A → Option A
choose none x y = none
choose (some true) x y = x
choose (some false) x y = y

-- `strspn` from `p` on; the result is the address of the first character that is not in the set
unfoldable pub span_from : ℕ → ℕ → Mem → (p s2 : ℕ) → Option ℕ
unfolding in_set
span_from zero inner mem p s2 = none
span_from (suc fuel) inner mem p s2 =
    let rest = span_from fuel inner mem (p + 1) s2 in
    choose (in_set inner mem s2 (mem p)) rest (some p)

-- The loops share the fuel.
unfoldable pub strspn : ℕ → Mem → (s1 s2 : ℕ) → Option ℕ
unfolding span_from
strspn fuel mem s1 s2 = Option.map (λ p. p - s1) (span_from fuel fuel mem s1 s2)

-- the `do` of `strcspn`, which compares with the terminator as well
unfoldable pub in_set_or_end : ℕ → Mem → (spanp c : ℕ) → Option Bool
in_set_or_end zero mem spanp c = none
in_set_or_end (suc fuel) mem spanp c =
    let rest = in_set_or_end fuel mem (spanp + 1) c in
    if mem spanp == c then some true else if mem spanp == 0 then some false else rest

unfoldable pub cspan_from : ℕ → ℕ → Mem → (p s2 : ℕ) → Option ℕ
unfolding in_set_or_end
cspan_from zero inner mem p s2 = none
cspan_from (suc fuel) inner mem p s2 =
    let rest = cspan_from fuel inner mem (p + 1) s2 in
    choose (in_set_or_end inner mem s2 (mem p)) (some p) rest

unfoldable pub strcspn : ℕ → Mem → (s1 s2 : ℕ) → Option ℕ
unfolding cspan_from
strcspn fuel mem s1 s2 = Option.map (λ p. p - s1) (cspan_from fuel fuel mem s1 s2)

unfoldable pub strpbrk_loop : ℕ → ℕ → Mem → (s1 s2 : ℕ) → Option (Option ℕ)
unfolding in_set
strpbrk_loop zero inner mem s1 s2 = none
strpbrk_loop (suc fuel) inner mem s1 s2 =
    let rest = strpbrk_loop fuel inner mem (s1 + 1) s2 in
    if mem s1 == 0 then some none else choose (in_set inner mem s2 (mem s1)) (some (some s1)) rest

unfoldable pub strpbrk : ℕ → Mem → (s1 s2 : ℕ) → Option (Option ℕ)
unfolding strpbrk_loop
strpbrk fuel mem s1 s2 = strpbrk_loop fuel fuel mem s1 s2

-- the `while` of `strstr`, with `rounds` places left to try
unfoldable pub strstr_loop : (rounds : ℕ) → Mem → (haystack needle nlen : ℕ) → Option ℕ
strstr_loop zero mem haystack needle nlen = none
strstr_loop (suc rounds) mem haystack needle nlen =
    let rest = strstr_loop rounds mem (haystack + 1) needle nlen in
    if memcmp nlen mem haystack needle == 0 then some haystack else rest

-- There are `hlen - nlen + 1` rounds if `hlen >= nlen`, and else none.
unfoldable pub strstr_in : Mem → (haystack needle : ℕ) → Option ℕ → Option ℕ → Option (Option ℕ)
unfolding strstr_loop
strstr_in mem haystack needle none nlen = none
strstr_in mem haystack needle (some hlen) none = none
strstr_in mem haystack needle (some hlen) (some nlen) =
    some (strstr_loop (hlen + 1 - nlen) mem haystack needle nlen)

unfoldable pub strstr : ℕ → Mem → (haystack needle : ℕ) → Option (Option ℕ)
unfolding strstr_in
strstr fuel mem haystack needle =
    strstr_in mem haystack needle (strlen fuel mem haystack) (strlen fuel mem needle)
