-- ===== src/Drp/Encoding.antt =====
-- A plain encoding of the messages of src/Drp.proto, as something that protobuf's could be.
use distray.Base.{
  ℕ, zero, suc, ◌≡◌, refl, sym, ap, ◌∙◌, Bool, true, false, List, [], ◌∷◌, ◌++◌, Option, none, some,
  Bytes, length, take, drop, take-append, drop-append, append-nil, append_assoc,
}
use distray.Base.Int.{ℤ, pos, negsuc}
use distray.Drp.{RequestType, welcome, copy_in, execute, copy_out, Request, Response}
use distray.Wire.Codec.{Codec}

-- A value at the front of a byte string.
pub record Format (A : Type 0) : Type 0 where
  pub put : A → Bytes
  pub get : Bytes → Option (A × Bytes)
  pub get-put : (a : A) (rest : Bytes) → get (put a ++ rest) ≡ some (a, rest)

abbrev first : {A : Type 0} → Option (A × Bytes) → Option A
first none = none
first (some (a, rest)) = some a

abbrev pub codec_of : {A : Type 0} → Format A → Codec A
codec_of f = record {
  serialize = f.put;
  parse = λ s. first (f.get s);
  parse-serialize =
      λ a. ap (λ s. first (f.get s)) (sym (append-nil (f.put a))) ∙ ap first (f.get-put a []);
}

abbrev get_number : Bytes → Option (ℕ × Bytes)
get_number [] = none
get_number (n ∷ s) = some (n, s)

abbrev number : Format ℕ
number = record { put = λ n. n ∷ []; get = get_number; get-put = λ n rest. refl }

abbrev get_text : Bytes → Option (Bytes × Bytes)
get_text [] = none
get_text (n ∷ s) = some (take n s, drop n s)

abbrev text : Format Bytes
text = record {
  put = λ s. length s ∷ s;
  get = get_text;
  get-put = λ s rest. rw (take-append s rest, drop-append s rest) refl;
}

module _ {A B : Type 0} where
  abbrev beside : A → Option (B × Bytes) → Option ((A × B) × Bytes)
  beside a none = none
  beside a (some (b, rest)) = some ((a, b), rest)

  abbrev get_second : Format B → Option (A × Bytes) → Option ((A × B) × Bytes)
  get_second g none = none
  get_second g (some (a, s)) = beside a (g.get s)

  pub both-law :
      (f : Format A) (g : Format B) (a : A) (b : B) (rest : Bytes)
      → get_second g (f.get ((f.put a ++ g.put b) ++ rest)) ≡ some ((a, b), rest)
  both-law f g a b rest =
      ap (λ s. get_second g (f.get s)) (append_assoc (f.put a) (g.put b) rest)
      ∙ ap (get_second g) (f.get-put a (g.put b ++ rest))
      ∙ ap (beside a) (g.get-put b rest)

  infixr 5 ◌and◌
  abbrev ◌and◌ : Format A → Format B → Format (A × B)
  f and g = record {
    put = λ (a, b). f.put a ++ g.put b;
    get = λ s. get_second g (f.get s);
    get-put = λ (a, b) rest. both-law f g a b rest;
  }

  abbrev with : (A → B) → Option (A × Bytes) → Option (B × Bytes)
  with f none = none
  with f (some (a, s)) = some (f a, s)

  abbrev via : (to : A → B) (from : B → A) → ((b : B) → to (from b) ≡ b) → Format A → Format B
  via to from law f = record {
    put = λ b. f.put (from b);
    get = λ s. with to (f.get s);
    get-put = λ b rest. ap (with to) (f.get-put (from b) rest) ∙ ap (λ x. some (x, rest)) (law b);
  }

module _ {A : Type 0} (f : Format A) where
  abbrev put_all : List A → Bytes
  put_all [] = []
  put_all (x ∷ xs) = f.put x ++ put_all xs

  abbrev get_all : ℕ → Bytes → Option (List A × Bytes)
  get_all zero s = some ([], s)
  get_all (suc n) s = elim (f.get s) [
    | none ↦ none
    | some (x, rest) ↦ elim (get_all n rest) [ none ↦ none | some (xs, r) ↦ some (x ∷ xs, r) ]
  ]

  abbrev get_list : Bytes → Option (List A × Bytes)
  get_list [] = none
  get_list (n ∷ s) = get_all n s

  pub get_all-put :
      (xs : List A) (rest : Bytes) → get_all (length xs) (put_all xs ++ rest) ≡ some (xs, rest)
  get_all-put [] rest = refl
  get_all-put (x ∷ xs) rest =
      rw
        (
          append_assoc (f.put x) (put_all xs) rest,
          f.get-put x (put_all xs ++ rest),
          get_all-put xs rest,
        )
        refl

  abbrev list : Format (List A)
  list = record { put = λ xs. length xs ∷ put_all xs; get = get_list; get-put = get_all-put }

abbrev type_of : ℕ → RequestType
type_of zero = welcome
type_of (suc zero) = copy_in
type_of (suc (suc zero)) = execute
type_of _ = copy_out

abbrev tag_of : RequestType → ℕ
tag_of welcome = 0
tag_of copy_in = 1
tag_of execute = 2
tag_of copy_out = 3

pub type_of-tag_of : (t : RequestType) → type_of (tag_of t) ≡ t
type_of-tag_of welcome = refl
type_of-tag_of copy_in = refl
type_of-tag_of execute = refl
type_of-tag_of copy_out = refl

abbrev bool_of : ℕ → Bool
bool_of zero = false
bool_of _ = true

abbrev of_bool : Bool → ℕ
of_bool false = 0
of_bool true = 1

pub bool_of-of_bool : (b : Bool) → bool_of (of_bool b) ≡ b
bool_of-of_bool false = refl
bool_of-of_bool true = refl

abbrev int_of : ℕ × ℕ → ℤ
int_of (zero, n) = pos n
int_of (suc s, n) = negsuc n

abbrev of_int : ℤ → ℕ × ℕ
of_int (pos n) = (0, n)
of_int (negsuc n) = (1, n)

pub int_of-of_int : (n : ℤ) → int_of (of_int n) ≡ n
int_of-of_int (pos n) = refl
int_of-of_int (negsuc n) = refl

abbrev kind : Format RequestType
kind = via type_of tag_of type_of-tag_of number

abbrev flag : Format Bool
flag = via bool_of of_bool bool_of-of_bool number

abbrev int : Format ℤ
int = via int_of of_int int_of-of_int (number and number)

abbrev pub request : Format Request
request =
    via
      (λ (t, ((p, c), ((e, a), o))). record {
        request_type = t;
        copy_in_request = record { pathname = p; content = c };
        execute_request = record { executable = e; argument = a };
        copy_out_request = record { pathname = o };
      })
      (λ r. (
        r.request_type,
        (
          (r.copy_in_request.pathname, r.copy_in_request.content),
          ((r.execute_request.executable, r.execute_request.argument), r.copy_out_request.pathname),
        ),
      ))
      (λ r. refl) (kind and (text and text) and (text and list text) and text)

abbrev pub response : Format Response
response =
    via
      (λ (t, ((h, n), (i, (e, (o, c))))). record {
        request_type = t;
        welcome_response = record { hostname = h; core_count = n };
        copy_in_response = record { success = i };
        execute_response = record { status = e };
        copy_out_response = record { success = o; content = c };
      })
      (λ r. (
        r.request_type,
        (
          (r.welcome_response.hostname, r.welcome_response.core_count),
          (
            r.copy_in_response.success,
            (r.execute_response.status, (r.copy_out_response.success, r.copy_out_response.content)),
          ),
        ),
      ))
      (λ r. refl) (kind and (text and int) and flag and int and (flag and text))
