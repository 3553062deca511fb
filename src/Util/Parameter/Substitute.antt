-- ===== src/Util/Parameter/Substitute.antt =====
-- substitute_parameter replaces every parameter, from the left, by the number in its width.
use distray.Base.{
  ℕ, zero, suc, ◌+◌, ◌<◌, ◌≤◌, ◌^◌, ltb, ◌≡◌, ◌≢◌, refl, ap, ◌∙◌, [], ◌∷◌, ◌++◌, Option, none, some,
  arith, Bytes, length, take, drop, take-append, drop-append, append_assoc, length-append,
  All-append_right, subst, Bool-cases, inl, inr, max, ◌==◌,
}
use distray.Base.Int.{pos, negsuc}
use distray.Util.CString.{c_str, c_str_lem, NoNul, value, IsDigits}
use distray.Util.Decimal.{decimal, padded_lem, decimal-IsDigits, decimal-ne-nil, value-decimal}
use distray.Util.Parameter.Pattern.{Occurs, HasParameter, First, Finds}
use distray.Util.Parameter.Find.{find_parameter-Finds}
use distray.Util.Parameter.{
  Found, in_int, find_parameter, value_str, substitute_from, substitute_parameter,
}

-- What stands for a parameter of this width: digits that spell the value, as many as its decimal form has
-- or as the width asks for, whichever is more. Nothing is asked of their count where the width overflows
-- an `int`.
pub record Numeral (width v : ℕ) (t : Bytes) : Type 0 where
  pub digits : IsDigits t
  pub some_digits : t ≢ []
  pub spells : value 0 t ≡ v
  pub wide : width < 2 ^ 31 → length t ≡ max width (length (decimal v))

-- `r` is `s` with each parameter, found from the left, replaced by `v` in the parameter's width.
pub data Expands (v : ℕ) : Bytes → Bytes → Type 0 where
  same : {s : Bytes} → ¬ HasParameter s → Expands v s s
  next :
      {s pre ds post t r : Bytes}
      → First s pre ds post
      → Numeral (value 0 ds) v t
      → Expands v post r
      → Expands v s (pre ++ t ++ r)

-- What stands for a parameter is all digits, spells the value, and has at least the width asked for
-- and no more digits than that or the plain decimal form have.
value_str_lem :
    (width v : ℕ)
    → IsDigits (value_str (some width) v)
      × (value 0 (value_str (some width) v) ≡ v)
      × (length (value_str (some width) v) ≡ max width (length (decimal v)))
unfolding value_str
value_str_lem width v = elim (Bool-cases (width == 0)) [
  | inl e ↦ rw e (decimal-IsDigits v, value-decimal v, ground arith)
  | inr e ↦ rw e (let p = padded_lem width v in (p.1, p.2, p.0))
]

length-ne-nil : (t u : Bytes) → u ≢ [] → length u ≤ length t → t ≢ []
length-ne-nil t [] n h e = n refl
length-ne-nil t (x ∷ u) n h e = absurd (omega (arith, ap length e))

value_str-Numeral : (width v : ℕ) → Numeral width v (value_str (in_int width) v)
unfolding value_str
value_str-Numeral width v = elim (Bool-cases (ltb width (2 ^ 31))) [
  | inl e ↦
      let (digits, spells, wide) = value_str_lem width v in
      rw e (record {
        digits = digits;
        some_digits =
            length-ne-nil (value_str (some width) v) (decimal v) (decimal-ne-nil v) (omega arith);
        spells = spells;
        wide = λ h. wide;
      })
  | inr e ↦ rw e (record {
    digits = decimal-IsDigits v;
    some_digits = decimal-ne-nil v;
    spells = value-decimal v;
    wide = λ h. absurd (ground arith);
  })
]

take-Occurs : {s pre ds post : Bytes} → Occurs s pre ds post → take (length pre) s ≡ pre
take-Occurs {s} {pre} {ds} {post} o = rw o.split (take-append pre (b'%' ∷ (ds ++ b'd' ∷ post)))

drop-Occurs :
    {s pre ds post : Bytes} → Occurs s pre ds post → drop (length pre + 2 + length ds) s ≡ post
drop-Occurs {s} {pre} {ds} {post} o =
    let head : Bytes = pre ++ b'%' ∷ (ds ++ b'd' ∷ []) in
    let n : length pre + 2 + length ds ≡ length head =
      omega (arith, length-append pre (b'%' ∷ (ds ++ b'd' ∷ [])), length-append ds (b'd' ∷ [])) in
    let e : s ≡ head ++ post = o.split ∙ simp append_assoc in rw (n, e) (drop-append head post)

length-Occurs : {s pre ds post : Bytes} → Occurs s pre ds post → length post < length s
length-Occurs {s} {pre} {ds} {post} o = omega (
  arith,
  ap length o.split,
  length-append pre (b'%' ∷ (ds ++ b'd' ∷ post)),
  length-append ds (b'd' ∷ post),
)

NoNul-post : {s pre ds post : Bytes} → Occurs s pre ds post → NoNul s → NoNul post
NoNul-post {s} {pre} {ds} {post} o h =
    let rest = All-append_right _ pre (b'%' ∷ (ds ++ b'd' ∷ post)) (subst NoNul o.split h) in
    (All-append_right _ ds (b'd' ∷ post) rest.1).1

substitute_from-Expands :
    (fuel : ℕ) (s : Bytes) (v : ℕ)
    → NoNul s
    → length s < fuel
    → Expands v s (substitute_from fuel s v)
unfolding substitute_from
substitute_from-Expands zero s v nul h = absurd (omega arith)
substitute_from-Expands (suc fuel) s v nul h =
    go (find_parameter s) refl (λ t n l. substitute_from-Expands fuel t v n l)
  where
    go :
        (o : Option Found)
        → find_parameter s ≡ o
        → ((t : Bytes) → NoNul t → length t < fuel → Expands v t (substitute_from fuel t v))
        → Expands v s (substitute_from (suc fuel) s v)
    go none e ih =
        rw (e, substitute_from)
          (same (
            subst (λ t. ¬ HasParameter t) (c_str_lem s nul)
              (subst (Finds 0 (c_str s)) e (find_parameter-Finds s))))
    go (some f) e ih =
        let (pre, ds, post, first, begin, end, width) =
          subst (λ t. Finds 0 t (some f)) (c_str_lem s nul)
            (subst (Finds 0 (c_str s)) e (find_parameter-Finds s)) in
        let o = first.occurs in
        let begin' : f.begin ≡ length pre = omega arith in
        let end' : f.end ≡ length pre + 2 + length ds = omega arith in
        rw (e, substitute_from, begin', end', width, take-Occurs o, drop-Occurs o)
          (next first (value_str-Numeral (value 0 ds) v)
            (ih post (NoNul-post o nul) (omega (arith, length-Occurs o))))

-- On a text without NUL, substitute_parameter with a value of at least 0 replaces each parameter,
-- from the left, by digits that spell the value, with zeros in front up to the parameter's width and no
-- further, and with a negative value changes nothing. "%0d" counts as "%d". Of a width that overflows
-- an `int`, which is undefined behaviour in C++, no number of zeros is claimed.
pub substitute_parameter-Expands :
    (s : Bytes) (v : ℕ)
    → NoNul s
    → Expands v s (substitute_parameter s (pos v)) × (substitute_parameter s (negsuc v) ≡ s)
unfolding substitute_parameter
substitute_parameter-Expands s v nul =
    (substitute_from-Expands (suc (length s)) s v nul (omega arith), refl)
