-- ===== src/Ctype/Classes.antt =====
-- How the classes of characters divide the words.
use embedlab.Prelude.{ℕ, ◌+◌, ◌≡◌, Bool, false, not, ◌==◌, if◌then◌else◌, arith}
use embedlab.Ctype.{iscntrl, isdigit, islower, isprint, isupper, isalpha, ispunct, toupper, tolower}

abbrev one_if : Bool → ℕ
one_if b = if b then 1 else 0

-- Every word is in exactly one of six classes: control, the blank, digits, capitals, small letters and
-- punctuation; printable are all but the first.
pub classes :
    (c : ℕ)
    → (one_if (iscntrl c)
          + one_if (c == 32)
          + one_if (isdigit c)
          + one_if (isupper c)
          + one_if (islower c)
          + one_if (ispunct c)
        ≡ 1)
      × (isprint c ≡ not (iscntrl c))
unfolding iscntrl isdigit isupper islower ispunct isprint
classes c = ground arith

-- `toupper` and `tolower` change exactly the letters of the other case, and each takes the other's
-- change back.
pub cases :
    (c : ℕ)
    → (toupper (tolower c) ≡ toupper c)
      × (tolower (toupper c) ≡ tolower c)
      × (islower (toupper c) ≡ false)
      × (isupper (tolower c) ≡ false)
      × (isalpha (toupper c) ≡ isalpha c)
      × (isalpha (tolower c) ≡ isalpha c)
unfolding toupper tolower islower isupper isalpha
cases c = ground arith
