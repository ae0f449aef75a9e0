-- ===== src/Tests/Globs.antt =====
-- `glob_match` (src/commandExecutor.cpp) on concrete patterns.
use tinycache.Prelude.{◌≡◌, ◌↔◌, refl, Bool, true, false, ok}
use tinycache.Prelude.Bytes.{codes}
use tinycache.Executor.Glob.{glob_match, glob_loop, only_stars, times}
use tinycache.Executor.Matches.{Matches}
use tinycache.Executor.Inversion.{NoStar}
use tinycache.Executor.Refusals.{glob_match-decides}

save_NoStar : NoStar (codes "save")
unfolding NoStar
save_NoStar = (refl, (refl, (refl, (refl, tt))))

glob_match-decides_example :
    (b : Bool) × (glob_match (codes "*a?e") (codes "save") ≡ ok b)
    × ((b ≡ true) ↔ Matches (codes "*a?e") (codes "save"))
glob_match-decides_example = glob_match-decides (codes "*a?e") (codes "save") save_NoStar

accepted : glob_match (codes "*a?e") (codes "save") ≡ ok true
unfolding glob_match glob_loop only_stars times
accepted = refl

-- A star in the pattern is taken for the byte in the text.
star_in_text : glob_match (codes "*") (codes "*a") ≡ ok false
unfolding glob_match glob_loop only_stars times
star_in_text = refl
