-- ===== src/Strings.antt =====
-- Methods of Python's `str`, as the code uses them.
use safe_context.Base.{ℕ, Bool, true, false, ◌&&◌, ◌||◌, [], ◌∷◌, any, ◌==◌, if◌then◌else◌}
use safe_context.Store.{Text}

unfoldable pub starts_with : Text → Text → Bool
starts_with [] s = true
starts_with (c ∷ k) [] = false
starts_with (c ∷ k) (d ∷ s) = c == d && starts_with k s

-- `k in s`
unfoldable pub contains : Text → Text → Bool
unfolding starts_with
contains k [] = starts_with k []
contains k (d ∷ s) = starts_with k (d ∷ s) || contains k s

-- `s.split(c)[-1]`
unfoldable pub after_last : ℕ → Text → Text
after_last c [] = []
after_last c (d ∷ s) =
    let rest = after_last c s in if any (λ e. e == c) s then rest else if d == c then s else d ∷ s
