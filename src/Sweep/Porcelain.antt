-- ===== src/Sweep/Porcelain.antt =====
-- `_parse_porcelain`: the records of `git status --porcelain=v1 -z`.
use Prim.Native.Char.{code}
use skills_sdk.Prelude.{
  ℕ, Bool, ◌&&◌, ◌||◌, Option, none, some, List, [], ◌∷◌, ◌++◌, String, nat_eq, if◌then◌else◌,
}
use skills_sdk.Sweep.{PrSweepDirtyState, sorted_set, dirty_state_ok}

-- `text.split("\x00")`
unfoldable pub split_nul : String → List String
split_nul String.[] = "" ∷ []
split_nul (String.◌∷◌ c s) = elim (split_nul s) [
  | [] ↦ []
  | piece ∷ pieces ↦ if nat_eq (code c) 0 then "" ∷ piece ∷ pieces else String.◌∷◌ c piece ∷ pieces
]

pub record Dirt : Type 0 where
  pub staged : List String
  pub unstaged : List String
  pub untracked : List String

abbrev pub clean : Dirt
clean = record { staged = []; unstaged = []; untracked = [] }

abbrev is_question : ℕ → Bool
is_question c = nat_eq c b'?'

abbrev moves : ℕ → Bool
moves c = nat_eq c b'R' || nat_eq c b'C'

-- A record by its two status letters, the path, and with a move the path it came from.
unfoldable pub add_record : ℕ → ℕ → String → List String → Dirt → Dirt
add_record x y path origin d =
    if is_question x && is_question y
    then record d { untracked = (path ∷ origin) ++ d.untracked }
    else record {
      staged = if nat_eq x b' ' then d.staged else (path ∷ origin) ++ d.staged;
      unstaged = if nat_eq y b' ' then d.unstaged else path ∷ d.unstaged;
      untracked = d.untracked;
    }

abbrev without_blank : String → String
without_blank String.[] = ""
without_blank (String.◌∷◌ c s) = s

-- A record of one letter is an `IndexError`, `none`.
unfoldable pub parse_records : List String → Option Dirt
parse_records [] = some clean
parse_records (String.[] ∷ rest) = parse_records rest
parse_records (String.◌∷◌ x String.[] ∷ rest) = none
parse_records (String.◌∷◌ x (String.◌∷◌ y path) ∷ []) =
    some (add_record (code x) (code y) (without_blank path) [] clean)
parse_records (String.◌∷◌ x (String.◌∷◌ y path) ∷ next ∷ rest) =
    let moved = parse_records rest in
    let plain = parse_records (next ∷ rest) in
    if moves (code x) || moves (code y)
    then elim moved [
      | none ↦ none
      | some d ↦ some (add_record (code x) (code y) (without_blank path) (next ∷ []) d)
    ]
    else elim plain [
      | none ↦ none
      | some d ↦ some (add_record (code x) (code y) (without_blank path) [] d)
    ]

abbrev pub state_of : Dirt → PrSweepDirtyState
state_of d = record {
  staged_paths = sorted_set d.staged;
  unstaged_paths = sorted_set d.unstaged;
  untracked_paths = sorted_set d.untracked;
  dirty_paths = sorted_set (d.staged ++ d.unstaged ++ d.untracked);
}

-- A path that the model of the state refuses is an exception too.
unfoldable pub parse_porcelain : String → Option PrSweepDirtyState
parse_porcelain output = elim (parse_records (split_nul output)) [
  | none ↦ none
  | some d ↦ if dirty_state_ok (state_of d) then some (state_of d) else none
]
