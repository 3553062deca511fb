-- ===== src/Util/Parameter/Pattern.antt =====
-- What a parameter is: as the comment on find_parameter describes it, and with a width of zero besides.
use distray.Base.{ℕ, ◌+◌, ◌≤◌, length, Option, none, some, ◌≡◌, ◌≢◌, ◌⊎◌, ◌<◌, [], ◌∷◌, ◌++◌, Bytes}
use distray.Util.Parameter.{Found, in_int}
use distray.Util.CString.{IsDigits, value}

-- The digits between '%' and 'd': none, or '0' and further digits.
pub data IsWidth : Bytes → Type 0 where
  plain : IsWidth []
  zeros : {ds : Bytes} → IsDigits ds → IsWidth (b'0' ∷ ds)

-- `s` has a parameter with the digits `ds` behind `pre` and in front of `post`.
pub record Occurs (s pre ds post : Bytes) : Type 0 where
  pub is_width : IsWidth ds
  pub split : s ≡ pre ++ b'%' ∷ (ds ++ b'd' ∷ post)

abbrev pub HasParameter : Bytes → Type 0
HasParameter s = (pre : Bytes) × (ds : Bytes) × (post : Bytes) × Occurs s pre ds post

-- As the comment has it: "%d", or "%0Nd" with a positive N.
abbrev pub HasDocumented : Bytes → Type 0
HasDocumented s =
    (pre : Bytes) × (ds : Bytes) × (post : Bytes) × Occurs s pre ds post
    × ((ds ≡ []) ⊎ (0 < value 0 ds))

-- "%0d", "%00d" and so on, which the comment does not have.
abbrev pub HasZeroWidth : Bytes → Type 0
HasZeroWidth s =
    (pre : Bytes) × (ds : Bytes) × (post : Bytes) × Occurs s pre ds post
    × (ds ≢ [])
    × (value 0 ds ≡ 0)

-- No other occurrence begins before this one.
pub record First (s pre ds post : Bytes) : Type 0 where
  pub occurs : Occurs s pre ds post
  pub first : (pre' ds' post' : Bytes) → Occurs s pre' ds' post' → length pre ≤ length pre'

-- What a search of `s`, which starts at an offset, has to return.
abbrev pub Finds : ℕ → Bytes → Option Found → Type 0
Finds offset s none = ¬ HasParameter s
Finds offset s (some f) =
    (pre : Bytes) × (ds : Bytes) × (post : Bytes) × First s pre ds post
    × (f.begin ≡ offset + length pre)
    × (f.end ≡ f.begin + 2 + length ds)
    × (f.width ≡ in_int (value 0 ds))
