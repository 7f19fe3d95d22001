-- ===== src/Center/Diff.antt =====
-- config/center.go: `generateDiff` and `DiffRevisions`. The loop runs on fuel, one unit for each line of both texts.
use mango_waf.Center.Load.{Libraries}
use mango_waf.Center.Store.{ConfigCenter}
use mango_waf.Center.Save.{revision_path}
use mango_waf.Common.Bytes.{Str, codes, str_eq}
use mango_waf.Common.Decimal.{print_nat}
use mango_waf.Common.Dict.{lookup}
use mango_waf.Common.{
  any, ℕ, zero, suc, none, some, [], ◌∷◌, Bool, Option, List, ◌++◌, ◌+◌, not, ◌==◌, if◌then◌else◌,
  length,
}

-- A line with the mark that it is printed with.
pub data DiffLine : Type 0 where
  both added removed : Str → DiffLine

abbrev pub cons_line : ℕ → List Str → List Str
cons_line c [] = (c ∷ []) ∷ []
cons_line c (line ∷ lines) = (c ∷ line) ∷ lines

-- strings.Split by a newline.
unfoldable pub split_lines : Str → List Str
split_lines [] = [] ∷ []
split_lines (c ∷ text) =
    let rest = split_lines text in if c == b'\n' then [] ∷ rest else cons_line c rest

abbrev pub has_line : List Str → Str → Bool
has_line lines line = any (str_eq line) lines

-- The loop, by the lines of both texts and those that are left. Without a new line left, both branches
-- that remain print the old one, and the other way round.
unfoldable pub diff_from : ℕ → List Str → List Str → List Str → List Str → List DiffLine
unfolding str_eq
diff_from zero m1 m2 olds news = []
diff_from (suc fuel) m1 m2 [] [] = []
diff_from (suc fuel) m1 m2 (old ∷ olds) [] = removed old ∷ diff_from fuel m1 m2 olds []
diff_from (suc fuel) m1 m2 [] (new ∷ news) = added new ∷ diff_from fuel m1 m2 [] news
diff_from (suc fuel) m1 m2 (old ∷ olds) (new ∷ news) =
    let further = diff_from fuel m1 m2 olds news in
    let without_new = diff_from fuel m1 m2 (old ∷ olds) news in
    let without_old = diff_from fuel m1 m2 olds (new ∷ news) in
    if str_eq old new
    then both old ∷ further
    else if not (has_line m1 new)
    then added new ∷ without_new
    else if not (has_line m2 old)
    then removed old ∷ without_old
    else removed old ∷ added new ∷ further

unfoldable pub diff_lines : Str → Str → List DiffLine
unfolding diff_from split_lines
diff_lines old_text new_text =
    let olds = split_lines old_text in
    let news = split_lines new_text in diff_from (length olds + length news) olds news olds news

abbrev pub print_line : DiffLine → Str
print_line (both line) = codes "  " ++ (line ++ b'\n' ∷ [])
print_line (added line) = codes "+ " ++ (line ++ b'\n' ∷ [])
print_line (removed line) = codes "- " ++ (line ++ b'\n' ∷ [])

unfoldable pub print_lines : List DiffLine → Str
print_lines [] = []
print_lines (line ∷ lines) = print_line line ++ print_lines lines

unfoldable pub generate_diff : Str → Str → Str
unfolding diff_lines print_lines
generate_diff old_text new_text =
    codes "--- Original Configuration\n+++ Proposed Configuration\n\n"
    ++ print_lines (diff_lines old_text new_text)

abbrev pub version_text : Libraries → ConfigCenter → ℕ → Option Str
version_text o cc v = if v == 0 then some cc.raw_yaml else lookup (revision_path o cc v) cc.disk

abbrev pub diff_of : Option Str → Option Str → Option Str
diff_of none new = none
diff_of (some old) none = none
diff_of (some old) (some new) = some (generate_diff old new)

-- `DiffRevisions`, none on an error.
unfoldable pub diff_revisions : Libraries → ConfigCenter → ℕ → ℕ → Option Str
unfolding generate_diff lookup print_nat
diff_revisions o cc v1 v2 = diff_of (version_text o cc v1) (version_text o cc v2)
