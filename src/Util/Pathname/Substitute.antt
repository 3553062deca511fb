-- ===== src/Util/Pathname/Substitute.antt =====
-- A local pathname stays local when a number is put in for its parameters.
use distray.Base.{
  ℕ, ◌≡◌, ◌≢◌, refl, sym, ap, ◌∙◌, true, false, [], ◌∷◌, ◌++◌, arith, Bytes, append_assoc, ◌↔◌,
}
use distray.Base.Int.{ℤ, pos, negsuc}
use distray.Util.CString.{peek, IsDigits, NoNul}
use distray.Util.Pathname.{is_absolute, has_dotdot, is_pathname_local}
use distray.Util.Parameter.{substitute_parameter}
use distray.Util.Parameter.Substitute.{Expands, same, next, substitute_parameter-Expands}

has_dotdot-prefix : (a b : Bytes) → has_dotdot (a ++ b) ≡ false → has_dotdot a ≡ false
unfolding has_dotdot
has_dotdot-prefix [] b h = refl
has_dotdot-prefix (c ∷ []) b h = ground arith
has_dotdot-prefix (c ∷ x ∷ a) b h = ground (arith, has_dotdot-prefix (x ∷ a) b)

has_dotdot-suffix : (a b : Bytes) → has_dotdot (a ++ b) ≡ false → has_dotdot b ≡ false
unfolding has_dotdot
has_dotdot-suffix [] b h = h
has_dotdot-suffix (c ∷ a) b h = ground (arith, has_dotdot-suffix a b)

-- No two dots come together where the second part begins with something else.
has_dotdot-append :
    (a b : Bytes)
    → has_dotdot a ≡ false
    → has_dotdot b ≡ false
    → peek b ≢ b'.'
    → has_dotdot (a ++ b) ≡ false
unfolding has_dotdot
has_dotdot-append [] b ha hb n = hb
has_dotdot-append (c ∷ []) b ha hb n = ground arith
has_dotdot-append (c ∷ x ∷ a) b ha hb n = ground (arith, has_dotdot-append (x ∷ a) b)

has_dotdot-digits :
    (ds r : Bytes) → IsDigits ds → has_dotdot r ≡ false → has_dotdot (ds ++ r) ≡ false
unfolding has_dotdot
has_dotdot-digits [] r h hr = hr
has_dotdot-digits (d ∷ ds) r (h, hs) hr = ground (arith, has_dotdot-digits ds r hs hr)

-- A number has a digit at its front.
peek-digits :
    (ds r : Bytes)
    → IsDigits ds
    → ds ≢ []
    → (peek (ds ++ r) ≢ b'.') × (is_absolute (ds ++ r) ≡ false)
unfolding is_absolute
peek-digits [] r h n = absurd (n refl)
peek-digits (d ∷ ds) r (h, hs) n = (ground arith, ground arith)

is_absolute-append :
    (a b c : Bytes)
    → is_absolute (a ++ b) ≡ false
    → is_absolute c ≡ false
    → is_absolute (a ++ c) ≡ false
unfolding is_absolute
is_absolute-append [] b c h k = k
is_absolute-append (x ∷ a) b c h k = h

Expands-local :
    {v : ℕ} {s r : Bytes}
    → Expands v s r
    → has_dotdot s ≡ false
    → (has_dotdot r ≡ false) × (is_absolute s ≡ false → is_absolute r ≡ false)
Expands-local (same n) h = (h, λ k. k)
Expands-local {v} (next {s} {pre} {ds} {post} {t} {r} f numeral more) h =
    let split = f.occurs.split in
    let whole = ap has_dotdot (sym split) ∙ h in
    let before = has_dotdot-prefix pre (b'%' ∷ (ds ++ b'd' ∷ post)) whole in
    let tail =
      has_dotdot-suffix (b'%' ∷ ds) (b'd' ∷ post)
        (has_dotdot-suffix pre (b'%' ∷ (ds ++ b'd' ∷ post)) whole) in
    let after = (Expands-local more (has_dotdot-suffix (b'd' ∷ []) post tail)).0 in
    let number = numeral.digits in
    let front = peek-digits t r number numeral.some_digits in
    let clean =
      has_dotdot-append pre (t ++ r) before (has_dotdot-digits t r number after) front.0 in
    (
      rw (append_assoc pre t r) clean,
      λ k. rw (append_assoc pre t r) (
          is_absolute-append pre (b'%' ∷ (ds ++ b'd' ∷ post)) (t ++ r)
            (ap is_absolute (sym split) ∙ k) front.1),
    )

is_pathname_local_iff :
    (s : Bytes) → (is_pathname_local s ≡ true) ↔ ((is_absolute s ≡ false) × (has_dotdot s ≡ false))
unfolding is_pathname_local
is_pathname_local_iff s = ground arith

-- Where a pathname without NUL is local, so is every pathname that it stands for: whatever frame
-- number is put in for its parameters, the result is neither absolute nor has it two dots together.
pub substitute_parameter-local :
    (s : Bytes) (v : ℤ)
    → NoNul s
    → is_pathname_local s ≡ true
    → is_pathname_local (substitute_parameter s v) ≡ true
substitute_parameter-local s (pos n) nul h =
    let (relative, clean) = (is_pathname_local_iff s).0 h in
    let (dots, start) = Expands-local (substitute_parameter-Expands s n nul).0 clean in
    (is_pathname_local_iff (substitute_parameter s (pos n))).1 (start relative, dots)
substitute_parameter-local s (negsuc n) nul h = rw (substitute_parameter-Expands s n nul).1 h
