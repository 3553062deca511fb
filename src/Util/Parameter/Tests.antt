-- ===== src/Util/Parameter/Tests.antt =====
-- src/unittest.cpp, test_has_parameter and test_substitute_parameter, and the theorems at concrete
-- texts.
use distray.Base.{◌≡◌, ◌↔◌, ◌⊎◌, refl, true, false, [], codes, arith, Bytes}
use distray.Base.Int.{pos, negsuc}
use distray.Util.CString.{c_str}
use distray.Util.Parameter.Pattern.{HasDocumented, HasZeroWidth, Finds}
use distray.Util.Parameter.Find.{find_parameter-Finds, string_has_parameter_iff}
use distray.Util.Parameter.Substitute.{Expands, substitute_parameter-Expands}
use distray.Util.Parameter.{find_parameter, string_has_parameter, substitute_parameter}

string_has_parameter_cases :
    (string_has_parameter (codes "image.png") ≡ false)
    × (string_has_parameter (codes "image-%d.png") ≡ true)
    × (string_has_parameter (codes "image-%03d.png") ≡ true)
    × (string_has_parameter (codes "image-%3d.png") ≡ false)
    × (string_has_parameter (codes "image-%f.png") ≡ false)
    × (string_has_parameter (codes "image-%d%d.png") ≡ true)
    × (string_has_parameter (codes "image-% 3d.png") ≡ false)
unfolding string_has_parameter
string_has_parameter_cases = (refl, refl, refl, refl, refl, refl, refl)

substitute_parameter_cases :
    (substitute_parameter [] (pos 0) ≡ [])
    × (substitute_parameter (codes "no parameter") (pos 0) ≡ codes "no parameter")
    × (substitute_parameter (codes "%d") (pos 123) ≡ codes "123")
    × (substitute_parameter (codes "%d") (negsuc 0) ≡ codes "%d")
    × (substitute_parameter (codes "%05d") (pos 123) ≡ codes "00123")
    × (substitute_parameter (codes "abc%ddef") (pos 123) ≡ codes "abc123def")
    × (substitute_parameter (codes "abc%05ddef") (pos 123) ≡ codes "abc00123def")
    × (substitute_parameter (codes "abc%05ddef%dghi") (pos 123) ≡ codes "abc00123def123ghi")
    × (substitute_parameter (codes "%5d") (pos 123) ≡ codes "%5d")
    × (substitute_parameter (codes "%g") (pos 123) ≡ codes "%g")
    × (substitute_parameter (codes "%%") (pos 123) ≡ codes "%%")
unfolding substitute_parameter
substitute_parameter_cases = (refl, refl, refl, refl, refl, refl, refl, refl, refl, refl, refl)

-- The comment on find_parameter wants a positive N in "%0Nd"; the code takes these as "%d".
zero_width :
    (substitute_parameter (codes "%0d") (pos 7) ≡ codes "7")
    × (substitute_parameter (codes "%00d") (pos 7) ≡ codes "7")
unfolding substitute_parameter
zero_width = (refl, refl)

-- A result may hold a new parameter, made of the value and the text round it.
substitute_makes_parameter : substitute_parameter (codes "%%dd") (pos 0) ≡ codes "%0d"
unfolding substitute_parameter
substitute_makes_parameter = refl

abbrev frame_name : Bytes
frame_name = codes "out-%03d.png"

find_parameter-Finds_example : Finds 0 (c_str frame_name) (find_parameter frame_name)
find_parameter-Finds_example = find_parameter-Finds frame_name

string_has_parameter_iff_example :
    (string_has_parameter frame_name ≡ true)
    ↔ (HasDocumented (c_str frame_name) ⊎ HasZeroWidth (c_str frame_name))
string_has_parameter_iff_example = string_has_parameter_iff frame_name

substitute_parameter-Expands_example :
    Expands 7 frame_name (substitute_parameter frame_name (pos 7))
    × (substitute_parameter frame_name (negsuc 7) ≡ frame_name)
substitute_parameter-Expands_example = substitute_parameter-Expands frame_name 7 (ground arith)
