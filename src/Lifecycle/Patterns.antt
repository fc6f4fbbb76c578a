-- ===== src/Lifecycle/Patterns.antt =====
-- Regular expressions over code points, as the program's searches use them. A search for `r` is
-- the match of the whole text against `r` between two stretches of any characters.
use skills_sdk.Prelude.{ℕ, Bool, true, false, ◌&&◌, ◌||◌, List, [], ◌∷◌, if◌then◌else◌}

pub data Pattern : Type 0 where
  nothing : Pattern
  empty : Pattern
  one : (ℕ → Bool) → Pattern
  then_ : Pattern → Pattern → Pattern
  either : Pattern → Pattern → Pattern
  many : Pattern → Pattern

accepts_empty : Pattern → Bool
accepts_empty nothing = false
accepts_empty empty = true
accepts_empty (one p) = false
accepts_empty (then_ r s) = accepts_empty r && accepts_empty s
accepts_empty (either r s) = accepts_empty r || accepts_empty s
accepts_empty (many r) = true

joined : Pattern → Pattern → Pattern
joined nothing s = nothing
joined empty s = s
joined r s = then_ r s

choice : Pattern → Pattern → Pattern
choice nothing s = s
choice r nothing = r
choice r s = either r s

-- What may follow the character `c`.
after : ℕ → Pattern → Pattern
unfolding accepts_empty joined choice
after c nothing = nothing
after c empty = nothing
after c (one p) = if p c then empty else nothing
after c (then_ r s) =
    let first = joined (after c r) s in
    let second = after c s in if accepts_empty r then choice first second else first
after c (either r s) = choice (after c r) (after c s)
after c (many r) = joined (after c r) (many r)

unfoldable pub full_match : Pattern → List ℕ → Bool
unfolding accepts_empty after
full_match r [] = accepts_empty r
full_match r (c ∷ cs) = full_match (after c r) cs

abbrev pub sequence : List Pattern → Pattern
sequence [] = empty
sequence (r ∷ []) = r
sequence (r ∷ s ∷ rs) = then_ r (sequence (s ∷ rs))

abbrev pub one_of : List Pattern → Pattern
one_of [] = nothing
one_of (r ∷ []) = r
one_of (r ∷ s ∷ rs) = either r (one_of (s ∷ rs))

abbrev pub some_of : Pattern → Pattern
some_of r = then_ r (many r)

abbrev pub maybe : Pattern → Pattern
maybe r = either r empty

abbrev pub anything : Pattern
anything = many (one (λ c. true))
