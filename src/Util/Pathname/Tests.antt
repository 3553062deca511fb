-- ===== src/Util/Pathname/Tests.antt =====
-- src/unittest.cpp, test_is_pathname_local, and the theorems at concrete pathnames.
use distray.Base.{◌≡◌, arith, refl, true, false, List, [], ◌∷◌, ◌++◌, Bytes, codes}
use distray.Util.Pathname.Resolve.{resolve, is_pathname_local-resolve}
use distray.Util.Pathname.Substitute.{substitute_parameter-local}
use distray.Util.Parameter.{substitute_parameter}
use distray.Base.Int.{pos}
use distray.Util.Pathname.{is_pathname_local, is_absolute, has_dotdot}

is_pathname_local_cases :
    (is_pathname_local (codes "image.png") ≡ true)
    × (is_pathname_local (codes "./image.png") ≡ true)
    × (is_pathname_local (codes "foo/bar/./image.png") ≡ true)
    × (is_pathname_local (codes "../image.png") ≡ false)
    × (is_pathname_local (codes "foo/bar/../image.png") ≡ false)
    × (is_pathname_local (codes "/image.png") ≡ false)
unfolding is_pathname_local
is_pathname_local_cases = (refl, refl, refl, refl, refl, refl)

-- Without the check a pathname may leave the tree.
resolve_escapes : resolve (codes "work" ∷ []) (codes "../x") ≡ codes "x" ∷ []
unfolding resolve
resolve_escapes = refl

is_pathname_local-resolve_example :
    (extra : List Bytes) × (resolve (codes "work" ∷ []) (codes "foo/./a.png")
      ≡ extra ++ codes "work" ∷ [])
unfolding is_pathname_local
is_pathname_local-resolve_example =
    is_pathname_local-resolve (codes "work" ∷ []) (codes "foo/./a.png") refl

substitute_parameter-local_example :
    is_pathname_local (substitute_parameter (codes "out/f-%03d.png") (pos 7)) ≡ true
unfolding is_pathname_local is_absolute has_dotdot
substitute_parameter-local_example =
    substitute_parameter-local (codes "out/f-%03d.png") (pos 7) (ground arith) refl
