-- ===== src/Util/Parameter/Find.antt =====
-- find_parameter finds the first parameter.
use distray.Base.{
  ℕ, zero, suc, ◌+◌, ◌<◌, ◌≡◌, ◌↔◌, ◌⊎◌, ==_iff, inl, inr, refl, sym, ap, ◌∙◌, true, false, [], ◌∷◌,
  ◌++◌, Option, none, some, arith, ◌==◌, if◌then◌else◌, Bytes, length, length-append, append-nil,
  Bool-cases, Option-cases, subst,
}
use distray.Util.CString.{strchr, c_str, peek, span_digits, span_digits_lem, value}
use distray.Util.Parameter.Pattern.{HasParameter, HasDocumented, HasZeroWidth, Finds}
use distray.Util.Parameter.{Found, in_int, find_from, find_parameter, string_has_parameter}
use distray.Util.Parameter.Occurrences.{
  Lacks, IsDigits-Lacks, strchr-none, strchr-some, scan_width-start, Finds-skip, Finds-behind,
  is_start, NoHead-start, NoHead-span, IsWidth-start, peek_cons,
}

-- A parameter right at the '%'.
Finds-here :
    (q : Bytes) (offset : ℕ)
    → is_start q ≡ true
    → peek (span_digits q).1 ≡ b'd'
    → Finds offset (b'%' ∷ q) (
        some (record {
          begin = offset;
          end = offset + 1 + length (span_digits q).0 + 1;
          width = in_int (value 0 (span_digits q).0);
        }))
Finds-here q offset s e =
    let (digits, join, _) = span_digits_lem q in
    let (post, e') = peek_cons (span_digits q).1 b'd' (omega arith) e in
    let split : (span_digits q).0 ++ b'd' ∷ post ≡ q =
      ap (◌++◌ (span_digits q).0) (sym e') ∙ join in
    (
      [],
      (span_digits q).0,
      post,
      record {
        occurs = record {
          is_width = IsWidth-start (span_digits q).0 (span_digits q).1 digits (rw join s);
          split = ap (◌∷◌ b'%') (sym split);
        };
        first = λ pre' ds' post' o. omega arith;
      },
      omega arith,
      omega arith,
      refl,
    )

not-Occurs-nil : ¬ HasParameter []
not-Occurs-nil ([], ds, post, o) = cc (o.split)
not-Occurs-nil (x ∷ pre, ds, post, o) = cc (o.split)

Lacks-none : (offset : ℕ) (p : Bytes) → Lacks p → Finds offset p none
Lacks-none offset p h =
    subst (λ t. ¬ HasParameter t) (append-nil p) (Finds-skip p [] offset none h not-Occurs-nil)

-- One round behind the '%', given that the rest of the search is right.
module _ (fuel : ℕ)
    (ih : (offset : ℕ) (p : Bytes)
      → length p < fuel
      → Finds offset p (find_from fuel offset p)) where
  round : ℕ → Bytes → Option Found
  round begin q =
      if is_start q
      then (if peek (span_digits q).1 == b'd'
          then some (record {
            begin = begin;
            end = begin + 1 + length (span_digits q).0 + 1;
            width = in_int (value 0 (span_digits q).0);
          })
          else find_from fuel (begin + 1 + length (span_digits q).0) (span_digits q).1)
      else find_from fuel (begin + 1) q

  again-Finds :
      (begin : ℕ) (q : Bytes)
      → length q < fuel
      → (peek (span_digits q).1 == b'd') ≡ false
      → Finds begin
          (b'%' ∷ q)
          (find_from fuel (begin + 1 + length (span_digits q).0) (span_digits q).1)
  again-Finds begin q h e =
      let (digits, join, _) = span_digits_lem q in
      let ds = (span_digits q).0 in
      let r = (span_digits q).1 in
      let rest = ih (begin + 1 + length ds) r (omega (arith, ap length join, length-append ds r)) in
      Finds-behind q begin _ (NoHead-span q e) (
        subst (λ t. Finds (begin + 1) t (find_from fuel (begin + 1 + length ds) r)) join
          (Finds-skip ds r (begin + 1) _ (IsDigits-Lacks ds digits) rest))

  round-Finds : (begin : ℕ) (q : Bytes) → length q < fuel → Finds begin (b'%' ∷ q) (round begin q)
  unfolding round
  round-Finds begin q h = elim (Bool-cases (is_start q)) [
    | inr no_start ↦
        rw no_start (Finds-behind q begin _ (NoHead-start q no_start) (ih (begin + 1) q h))
    | inl start ↦ rw start (elim (Bool-cases (peek (span_digits q).1 == b'd')) [
      | inl e ↦ rw e (Finds-here q begin start (ground arith))
      | inr e ↦ rw e (again-Finds begin q h e)
    ])
  ]

find_from-round :
    (fuel offset : ℕ) (p : Bytes)
    → length p < suc fuel
    → ((o : ℕ) (t : Bytes) → length t < fuel → Finds o t (find_from fuel o t))
    → Finds offset p (find_from (suc fuel) offset p)
unfolding find_from round
find_from-round fuel offset p h ih = elim (Option-cases (strchr b'%' offset p)) [
  | inl e ↦ rw (e, find_from) (Lacks-none offset p (strchr-none offset p e))
  | inr ((begin, q), e) ↦
      let (a, q', f, g, lacks, n) = strchr-some offset p e in
      let same : p ≡ a ++ b'%' ∷ q' = f ∙ ap (◌++◌ a) g in
      let shorter : length q' < fuel = omega (arith, ap length same, length-append a (b'%' ∷ q')) in
      let here = round-Finds fuel ih begin q' shorter in
      rw (e, find_from, g, scan_width-start)
        (subst (λ t. Finds offset t (round fuel ih begin q')) (sym same)
          (Finds-skip a (b'%' ∷ q') offset _ lacks
            (subst (λ k. Finds k (b'%' ∷ q') (round fuel ih begin q')) (sym n) here)))
]

find_from-Finds :
    (fuel offset : ℕ) (p : Bytes) → length p < fuel → Finds offset p (find_from fuel offset p)
find_from-Finds zero offset p h = absurd (omega arith)
find_from-Finds (suc fuel) offset p h =
    find_from-round fuel offset p h (λ o t l. find_from-Finds fuel o t l)

-- find_parameter returns the first parameter of the text, with its offsets and with its width, unless
-- the width overflows an `int`, and reports that there is none only where no parameter occurs. A
-- parameter is "%d" or "%0" with any further digits and "d": "%0d" too, of width 0, which the comment
-- on find_parameter leaves out.
pub find_parameter-Finds : (s : Bytes) → Finds 0 (c_str s) (find_parameter s)
unfolding find_parameter
find_parameter-Finds s = find_from-Finds (suc (length (c_str s))) 0 (c_str s) (omega arith)

found_iff : (s : Bytes) → (string_has_parameter s ≡ true) ↔ HasParameter (c_str s)
unfolding string_has_parameter
found_iff s = decide (find_parameter s) refl
  where
    decide :
        (o : Option Found)
        → find_parameter s ≡ o
        → (string_has_parameter s ≡ true) ↔ HasParameter (c_str s)
    decide none e = (
      λ h. ground (arith, h, e),
      λ h. absurd (subst (Finds 0 (c_str s)) e (find_parameter-Finds s) h),
    )
    decide (some f) e =
        let (pre, ds, post, first, _, _, _) =
          subst (Finds 0 (c_str s)) e (find_parameter-Finds s) in
        (λ h. (pre, ds, post, first.occurs), λ h. ground (arith, e))

HasParameter-kind : (s : Bytes) → HasParameter s → HasDocumented s ⊎ HasZeroWidth s
HasParameter-kind s (pre, [], post, o) = inl (pre, [], post, o, inl refl)
HasParameter-kind s (pre, d ∷ ds, post, o) = elim (Bool-cases (value 0 (d ∷ ds) == 0)) [
  | inl e ↦ inr (pre, d ∷ ds, post, o, (λ h. cc), (==_iff (value 0 (d ∷ ds)) 0).0 e)
  | inr e ↦ inl (pre, d ∷ ds, post, o, inr (ground arith))
]

-- string_has_parameter tells that there is a parameter just where the text has one that the comment on
-- find_parameter describes, "%d" or "%0Nd" with a positive N, or one with a width of zero, "%0d" or
-- "%00d" and so on, which the comment does not describe.
pub string_has_parameter_iff :
    (s : Bytes)
    → (string_has_parameter s ≡ true) ↔ (HasDocumented (c_str s) ⊎ HasZeroWidth (c_str s))
string_has_parameter_iff s =
    let (there, told) = found_iff s in
    (
      λ h. HasParameter-kind (c_str s) (there h),
      λ h. told (elim h [
        | inl (pre, ds, post, o, _) ↦ (pre, ds, post, o)
        | inr (pre, ds, post, o, _, _) ↦ (pre, ds, post, o)
      ]),
    )
