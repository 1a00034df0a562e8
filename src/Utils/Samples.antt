-- ===== src/Utils/Samples.antt =====
-- Some paths, and what botocore/utils.py makes of them.
use Prim.Native.Char.{code}
use jcsapitest.Prelude.{String, ◌≡◌, refl, some, [], ◌∷◌, ok}
use jcsapitest.Value.{Value, dict, str, end, field}
use jcsapitest.Utils.{merge_dicts, set_value_from_jmespath}
use jcsapitest.Utils.Path.{Text, remove_dot_segments, normalize_url_path}
use jcsapitest.Utils.Path.Normal.{IsNormal}
use jcsapitest.Utils.Path.Idempotent.{remove_dot_segments_idem}

abbrev codes : String → Text
codes String.[] = []
codes (String.◌∷◌ c s) = code c ∷ codes s

program : Unit {0}
unfolding normalize_url_path remove_dot_segments merge_dicts set_value_from_jmespath
program = tt

-- Slashes in a row count as one before the dots are looked at.
normalize-dots : normalize_url_path (codes "/a/./b//../c/") ≡ some (codes "/a/c/")
unfolding program
normalize-dots = refl

normalize-empty : normalize_url_path [] ≡ some (codes "/")
unfolding program
normalize-empty = refl

-- A name that begins with a dot loses the dot, and one that begins with two dots also its parent.
normalize-hidden : normalize_url_path (codes "/a/.hidden") ≡ some (codes "/a/hidden")
unfolding program
normalize-hidden = refl

normalize-parent : normalize_url_path (codes "/a/..b") ≡ some (codes "/b")
unfolding program
normalize-parent = refl

abbrev nested : Value
nested = dict (field "a" (dict (field "x" (str "1") end)) (field "b" (str "2") end))

merge-nested :
    merge_dicts nested (field "a" (dict (field "y" (str "3") end)) (field "c" (str "4") end))
    ≡ ok (
        dict (
          field "a"
            (dict (field "x" (str "1") (field "y" (str "3") end)))
            (field "b" (str "2") (field "c" (str "4") end))))
unfolding program
merge-nested = refl

set-nested :
    set_value_from_jmespath nested "a.z.w" (str "5")
    ≡ ok (
        dict (
          field "a"
            (dict (field "x" (str "1") (field "z" (dict (field "w" (str "5") end)) end)))
            (field "b" (str "2") end)))
unfolding program
set-nested = refl

remove_dot_segments_idem_example :
    (r : Text) × (remove_dot_segments (codes "/a/../b/.c") ≡ some r)
    × IsNormal r
    × (remove_dot_segments r ≡ some r)
remove_dot_segments_idem_example = remove_dot_segments_idem (codes "a/../b/.c")
