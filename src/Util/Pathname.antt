-- ===== src/Util/Pathname.antt =====
-- src/util.cpp, is_pathname_local: the check on every path that is used on a worker.
pub mod Resolve
pub mod Substitute
mod Tests
use distray.Base.{ℕ, Bool, true, false, ◌||◌, ◌&&◌, [], ◌∷◌, ◌==◌, if◌then◌else◌, Bytes}
use distray.Util.CString.{peek}

-- pathname.length() > 0 && pathname[0] == '/'
unfoldable pub is_absolute : Bytes → Bool
is_absolute [] = false
is_absolute (c ∷ s) = c == b'/'

-- pathname.find("..") != std::string::npos
unfoldable pub has_dotdot : Bytes → Bool
has_dotdot [] = false
has_dotdot (c ∷ s) = (c == b'.' && peek s == b'.') || has_dotdot s

unfoldable pub is_pathname_local : Bytes → Bool
unfolding is_absolute has_dotdot
is_pathname_local pathname =
    if is_absolute pathname then false else if has_dotdot pathname then false else true
