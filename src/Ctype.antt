-- ===== src/Ctype.antt =====
-- tasks/libc/include/ctype.h, of which kernel/include/ctype.h is a copy. An `int` is a 32-bit word;
-- a negative one is above every bound that is tested.
pub mod Classes
use embedlab.Prelude.{ℕ, ◌+◌, ◌-◌, Bool, ◌&&◌, ◌||◌, not, ◌==◌, if◌then◌else◌, ltb, leb}

unfoldable pub isascii : ℕ → Bool
isascii c = leb c 127

unfoldable pub iscntrl : ℕ → Bool
iscntrl c = ltb c 32 || ltb 126 c

unfoldable pub isdigit : ℕ → Bool
isdigit c = leb 48 c && leb c 57

unfoldable pub isgraph : ℕ → Bool
isgraph c = ltb 32 c && leb c 126

unfoldable pub islower : ℕ → Bool
islower c = leb 97 c && leb c 122

unfoldable pub isprint : ℕ → Bool
isprint c = leb 32 c && leb c 126

unfoldable pub isspace : ℕ → Bool
isspace c = c == 32 || c == 12 || c == 10 || c == 10 || c == 13 || c == 9 || c == 11

unfoldable pub isupper : ℕ → Bool
isupper c = leb 65 c && leb c 90

unfoldable pub isxdigit : ℕ → Bool
unfolding isdigit
isxdigit c = isdigit c || (leb 65 c && leb c 70) || (leb 97 c && leb c 102)

unfoldable pub isalpha : ℕ → Bool
unfolding islower isupper
isalpha c = islower c || isupper c

unfoldable pub isalnum : ℕ → Bool
unfolding isalpha isdigit
isalnum c = isalpha c || isdigit c

unfoldable pub ispunct : ℕ → Bool
unfolding isgraph isalnum
ispunct c = isgraph c && not (isalnum c)

unfoldable pub toupper : ℕ → ℕ
unfolding islower
toupper c = if islower c then c - 97 + 65 else c

unfoldable pub tolower : ℕ → ℕ
unfolding isupper
tolower c = if isupper c then c - 65 + 97 else c
