-- ===== src/Util/Decimal.antt =====
-- Decimal output of the C++ library as src/util.cpp uses it: `stream << value`, with `setfill('0')`
-- and `setw(width)` in substitute_parameter.
use distray.Base.{
  ℕ, zero, suc, ◌+◌, ◌-◌, ◌*◌, ◌/◌, ◌%◌, ◌<◌, ◌≡◌, ◌≢◌, refl, ap, ◌∙◌, [], ◌∷◌, ◌++◌, arith, ltb,
  if◌then◌else◌, Bytes, length, replicate, length-append, length-replicate, All-append, max,
}
use distray.Util.CString.{IsDigits, value}

-- The digits of `n` in front of `out`, the last digit first; the fuel bounds the digits.
unfoldable pub emit : ℕ → ℕ → Bytes → Bytes
emit zero n out = out
emit (suc fuel) n out =
    let digit = b'0' + n % 10 in
    let rest = emit fuel (n / 10) (digit ∷ out) in if ltb n 10 then digit ∷ out else rest

-- `stream << value` for a non-negative value.
unfoldable pub decimal : ℕ → Bytes
unfolding emit
decimal n = emit (suc n) n []

-- `stream << setfill('0') << setw(width) << value`
unfoldable pub padded : ℕ → ℕ → Bytes
padded width n = replicate (width - length (decimal n)) b'0' ++ decimal n

pub value-append : (n : ℕ) (xs ys : Bytes) → value n (xs ++ ys) ≡ value (value n xs) ys
value-append n [] ys = refl
value-append n (x ∷ xs) ys = value-append (n * 10 + (x - b'0')) xs ys

emit-IsDigits : (fuel n : ℕ) (out : Bytes) → IsDigits out → IsDigits (emit fuel n out)
unfolding emit
emit-IsDigits zero n out h = h
emit-IsDigits (suc fuel) n out h =
    ground (arith, emit-IsDigits fuel (n / 10) ((b'0' + n % 10) ∷ out))

pub decimal-IsDigits : (n : ℕ) → IsDigits (decimal n)
unfolding decimal
decimal-IsDigits n = emit-IsDigits (suc n) n [] tt

value-emit : (fuel n : ℕ) (out : Bytes) → n < fuel → value 0 (emit fuel n out) ≡ value n out
unfolding emit
value-emit zero n out h = absurd (omega arith)
value-emit (suc fuel) n out h = ground (arith, value-emit fuel (n / 10) ((b'0' + n % 10) ∷ out))

-- The digits spell the number.
pub value-decimal : (n : ℕ) → value 0 (decimal n) ≡ n
unfolding decimal
value-decimal n = value-emit (suc n) n [] (omega arith)

emit-ne-nil : (fuel n : ℕ) (out : Bytes) → out ≢ [] → emit fuel n out ≢ []
unfolding emit
emit-ne-nil zero n out h = h
emit-ne-nil (suc fuel) n out h = ground (arith, emit-ne-nil fuel (n / 10) ((b'0' + n % 10) ∷ out))

pub decimal-ne-nil : (n : ℕ) → decimal n ≢ []
unfolding decimal emit
decimal-ne-nil n = ground (arith, emit-ne-nil n (n / 10) ((b'0' + n % 10) ∷ []))

value-replicate_zero : (k : ℕ) → value 0 (replicate k b'0') ≡ 0
value-replicate_zero zero = refl
value-replicate_zero (suc k) = value-replicate_zero k

replicate-IsDigits : (k : ℕ) → IsDigits (replicate k b'0')
replicate-IsDigits zero = tt
replicate-IsDigits (suc k) = (refl, replicate-IsDigits k)

-- A padded number has at least the width asked for, all digits, and still spells the number.
pub padded_lem :
    (width n : ℕ)
    → (length (padded width n) ≡ max width (length (decimal n)))
      × IsDigits (padded width n)
      × (value 0 (padded width n) ≡ n)
unfolding padded
padded_lem width n = (
  omega (
    arith,
    length-append (replicate (width - length (decimal n)) b'0') (decimal n),
    length-replicate {A = ℕ} (width - length (decimal n)) b'0',
  ),
  All-append _ (replicate (width - length (decimal n)) b'0') (decimal n) (replicate-IsDigits _)
      (decimal-IsDigits n),
  value-append 0 (replicate (width - length (decimal n)) b'0') (decimal n)
      ∙ ap (λ k. value k (decimal n)) (value-replicate_zero (width - length (decimal n)))
      ∙ value-decimal n,
)
