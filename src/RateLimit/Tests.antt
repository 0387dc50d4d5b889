-- ===== src/RateLimit/Tests.antt =====
-- The limiters on small inputs.
use dash_drop.Base.{
  ℕ, String, true, List, [], ◌∷◌, ◌≡◌, refl, string_eq, lookup, arith, length, min,
}
use dash_drop.RateLimit.{Counter, hit, check, passed, roll}
use dash_drop.RateLimit.Window.{passed_window}

abbrev full : List (String × Counter)
full = ("fp", record { count = 20; window_start = 1000 }) ∷ []

abbrev times : List ℕ
times = 5 ∷ 6 ∷ 7 ∷ []

abbrev no_calls : List (String × Counter)
no_calls = []

passed_window_example : passed hit 2 "fp" times no_calls ≡ min (length times) 2
unfolding lookup
passed_window_example =
    passed_window 2 "fp" 5 (6 ∷ 7 ∷ []) no_calls refl (omega arith, (omega arith, tt)) (omega arith)

over : (check hit 20 1500 "fp" full).1 ≡ true
unfolding check hit roll lookup
over = refl
