-- ===== src/Util/Parameter/Occurrences.antt =====
-- Occurrences of a parameter in a text, and where the steps of find_parameter can pass over none.
use distray.Base.{
  ℕ, ◌+◌, ◌*◌, ◌-◌, ◌≡◌, ◌≢◌, inl, inr, refl, sym, ap, ◌∙◌, Bool, true, false, ◌||◌, [], ◌∷◌, ◌++◌,
  Option, none, some, arith, ◌==◌, Bytes, length, All, length-append, append_assoc, Bool-cases,
}
use distray.Util.CString.{strchr, peek, span_digits, span_digits-append, value, IsDigits}
use distray.Util.Parameter.Pattern.{IsWidth, plain, zeros, Occurs, Finds}
use distray.Util.Parameter.{Found, in_int, push_digit, scan_width}

abbrev pub Lacks : Bytes → Type 0
Lacks = All (λ c. c ≢ b'%')

pub IsDigits-Lacks : (ds : Bytes) → IsDigits ds → Lacks ds
IsDigits-Lacks [] h = tt
IsDigits-Lacks (d ∷ ds) (h, hs) = (ground arith, IsDigits-Lacks ds hs)

IsWidth-IsDigits : {ds : Bytes} → IsWidth ds → IsDigits ds
IsWidth-IsDigits plain = tt
IsWidth-IsDigits (zeros h) = (refl, h)

-- A parameter begins behind any text without '%'.
Occurs-skip :
    (a t pre ds post : Bytes)
    → Lacks a
    → Occurs (a ++ t) pre ds post
    → (pre' : Bytes) × (pre ≡ a ++ pre') × Occurs t pre' ds post
Occurs-skip [] t pre ds post h o = (pre, refl, o)
Occurs-skip (x ∷ a) t [] ds post (h, hs) o = absurd (h (ground (arith, o.split)))
Occurs-skip (x ∷ a) t (y ∷ pre) ds post (h, hs) o =
    let (pre', e, o') =
      Occurs-skip a t pre ds post hs
        (record { is_width = o.is_width; split = ground (arith, o.split) }) in
    (pre', ground (arith, e, o.split), o')

Occurs-append :
    (a t pre ds post : Bytes) → Occurs t pre ds post → Occurs (a ++ t) (a ++ pre) ds post
Occurs-append a t pre ds post o = record {
  is_width = o.is_width;
  split = ap (◌++◌ a) o.split ∙ sym (append_assoc a pre _);
}

pub strchr-none : (offset : ℕ) (p : Bytes) → strchr b'%' offset p ≡ none → Lacks p
unfolding strchr
strchr-none offset [] h = tt
strchr-none offset (x ∷ p) h = ground (arith, strchr-none (offset + 1) p)

-- What strchr finds is the first '%'.
pub strchr-some :
    (offset : ℕ) (p : Bytes) {begin : ℕ} {q : Bytes}
    → strchr b'%' offset p ≡ some (begin, q)
    → (a : Bytes) × (q' : Bytes) × (p ≡ a ++ q)
      × (q ≡ b'%' ∷ q')
      × Lacks a
      × (offset + length a ≡ begin)
unfolding strchr
strchr-some offset [] h = cc
strchr-some offset (x ∷ p) {begin} {q} h = elim (Bool-cases (x == b'%')) [
  | inl e ↦ ([], p, ground arith, ground arith, tt, ground arith)
  | inr e ↦
      let (a, q', f, g, l, n) = strchr-some (offset + 1) p {begin = begin} {q = q} (ground arith) in
      (x ∷ a, q', ground arith, g, (ground arith, l), omega arith)
]

-- The `int` overflows on the way just where it does in the end.
push_digit-in_int : (width c : ℕ) → push_digit (in_int width) c ≡ in_int (width * 10 + (c - b'0'))
push_digit-in_int width c = ground arith

scan_width-span :
    (width offset : ℕ) (p : Bytes)
    → scan_width (in_int width) offset p ≡ (
      in_int (value width (span_digits p).0),
      offset + length (span_digits p).0,
      (span_digits p).1,
    )
unfolding scan_width span_digits
scan_width-span width offset [] = ground arith
scan_width-span width offset (c ∷ p) =
    ground (arith, scan_width-span (width * 10 + (c - b'0')) (offset + 1) p)

-- From the front of the digits.
pub scan_width-start :
    (offset : ℕ) (p : Bytes)
    → scan_width (some 0) offset p
      ≡ (in_int (value 0 (span_digits p).0), offset + length (span_digits p).0, (span_digits p).1)
scan_width-start = scan_width-span 0

pub Finds-skip :
    (a t : Bytes) (offset : ℕ) (o : Option Found)
    → Lacks a
    → Finds (offset + length a) t o
    → Finds offset (a ++ t) o
Finds-skip a t offset none h f = λ (pre, ds, post, o).
    let (pre', e, o') = Occurs-skip a t pre ds post h o in f (pre', ds, post, o')
Finds-skip a t offset (some r) h (pre, ds, post, f, b, e, w) = (
  a ++ pre,
  ds,
  post,
  record {
    occurs = Occurs-append a t pre ds post f.occurs;
    first = λ pre' ds' post' o.
        let (rest, same, o') = Occurs-skip a t pre' ds' post' h o in
        omega (
          arith,
          ap length same,
          length-append a pre,
          length-append a rest,
          f.first rest ds' post' o',
        );
  },
  omega (arith, length-append a pre),
  e,
  w,
)

-- No parameter begins with the '%' in front of `q`.
abbrev NoHead : Bytes → Type 0
NoHead q = (ds post : Bytes) → IsWidth ds → q ≢ ds ++ b'd' ∷ post

Occurs-behind :
    (q pre ds post : Bytes)
    → NoHead q
    → Occurs (b'%' ∷ q) pre ds post
    → (pre' : Bytes) × (pre ≡ b'%' ∷ pre') × Occurs q pre' ds post
Occurs-behind q [] ds post h o = absurd (h ds post o.is_width (ground (arith, o.split)))
Occurs-behind q (x ∷ pre) ds post h o = (
  pre,
  ground (arith, o.split),
  record { is_width = o.is_width; split = ground (arith, o.split) },
)

pub Finds-behind :
    (q : Bytes) (offset : ℕ) (o : Option Found)
    → NoHead q
    → Finds (offset + 1) q o
    → Finds offset (b'%' ∷ q) o
Finds-behind q offset none h f = λ (pre, ds, post, o).
    let (pre', e, o') = Occurs-behind q pre ds post h o in f (pre', ds, post, o')
Finds-behind q offset (some r) h (pre, ds, post, f, b, e, w) = (
  b'%' ∷ pre,
  ds,
  post,
  record {
    occurs = Occurs-append (b'%' ∷ []) q pre ds post f.occurs;
    first = λ pre' ds' post' o.
        let (rest, same, o') = Occurs-behind q pre' ds' post' h o in
        omega (arith, ap length same, f.first rest ds' post' o');
  },
  omega arith,
  e,
  w,
)

abbrev pub is_start : Bytes → Bool
is_start q = peek q == b'0' || peek q == b'd'

pub NoHead-start : (q : Bytes) → is_start q ≡ false → NoHead q
NoHead-start q h _ post plain e = ground (arith, ap peek e)
NoHead-start q h _ post (zeros ds) e = ground (arith, ap peek e)

pub NoHead-span : (q : Bytes) → (peek (span_digits q).1 == b'd') ≡ false → NoHead q
NoHead-span q h ds post w e =
    ground
      (arith, e, ap span_digits e, span_digits-append ds (b'd' ∷ post) (IsWidth-IsDigits w) refl)

pub IsWidth-start : (ds r : Bytes) → IsDigits ds → is_start (ds ++ r) ≡ true → IsWidth ds
IsWidth-start [] r h s = plain
IsWidth-start (d ∷ ds) r (h, hs) s =
    let zero_first : d ≡ b'0' = ground arith in rw zero_first (zeros hs)

pub peek_cons : (r : Bytes) (c : ℕ) → c ≢ 0 → peek r ≡ c → (t : Bytes) × (r ≡ c ∷ t)
peek_cons [] c h e = absurd (h (sym e))
peek_cons (x ∷ t) c h e = (t, ap (λ y. y ∷ t) e)
