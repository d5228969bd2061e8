-- ===== src/Tests/Sprintf.antt =====
-- Printing to a string of two bytes, and to the console.
use embedlab.Prelude.{ℕ, ◌≡◌, refl, some, List, [], ◌∷◌}
use embedlab.CString.{Mem}
use embedlab.Printf.{vprintf}
use embedlab.Printf.Text.{vprintf-text}
use embedlab.Sprintf.{vsnprintf, vsnprintf_lem}

abbrev ones : Mem
ones a = 1

vsnprintf_lem_example :
    ((vsnprintf 50 2 (97 ∷ 98 ∷ 99 ∷ []) ones).0 ≡ 2)
    × ((vsnprintf 50 2 (97 ∷ 98 ∷ 99 ∷ []) ones).1 52 ≡ 0)
vsnprintf_lem_example = vsnprintf_lem 50 2 (97 ∷ 98 ∷ 99 ∷ []) ones

-- "hi", a newline and "you"
abbrev greeting : List ℕ
greeting = 104 ∷ 105 ∷ 10 ∷ 121 ∷ 111 ∷ 117 ∷ []

vprintf-text_example : vprintf ones greeting ≡ some greeting
vprintf-text_example = vprintf-text ones greeting refl
