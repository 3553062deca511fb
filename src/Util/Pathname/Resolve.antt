-- ===== src/Util/Pathname/Resolve.antt =====
-- A local pathname names something in the tree below the current directory. Symbolic links are not
-- looked at: they are not by is_pathname_local either.
use distray.Base.{
  ℕ, ◌≡◌, refl, sym, ap, ◌∙◌, true, false, ◌||◌, List, [], ◌∷◌, ◌++◌, arith, ◌==◌, if◌then◌else◌,
  Bytes, codes, eq_bytes, eq_bytes_iff, All, Bool-cases, inl, inr, append_assoc,
}
use distray.Util.CString.{peek}
use distray.Util.Pathname.{is_absolute, has_dotdot, is_pathname_local}

abbrev push : ℕ → List Bytes → List Bytes
push c [] = (c ∷ []) ∷ []
push c (w ∷ ws) = (c ∷ w) ∷ ws

-- The components of a path: its text cut at each '/'.
unfoldable pub components : Bytes → List Bytes
components [] = [] ∷ []
components (c ∷ s) = if c == b'/' then [] ∷ components s else push c (components s)

abbrev parent : List Bytes → List Bytes
parent [] = []
parent (d ∷ ds) = ds

-- One component of the lookup, in the directory whose names are listed from the inside out.
unfoldable pub enter : Bytes → List Bytes → List Bytes
unfolding eq_bytes
enter name dir =
    if eq_bytes name [] || eq_bytes name (codes ".")
    then dir
    else if eq_bytes name (codes "..")
    then parent dir
    else name ∷ dir

unfoldable pub walk : List Bytes → List Bytes → List Bytes
unfolding enter
walk [] dir = dir
walk (name ∷ names) dir = walk names (enter name dir)

-- The file that a pathname stands for, seen from the directory `cwd`.
unfoldable pub resolve : List Bytes → Bytes → List Bytes
unfolding components walk is_absolute
resolve cwd pathname =
    if is_absolute pathname then walk (components pathname) [] else walk (components pathname) cwd

components-cons :
    (s : Bytes)
    → has_dotdot s ≡ false
    → (w : Bytes) × (ws : List Bytes) × (components s ≡ w ∷ ws)
      × ((peek w ≡ b'.') → peek s ≡ b'.')
      × All (λ (v : Bytes). has_dotdot v ≡ false) (w ∷ ws)
unfolding components has_dotdot
components-cons [] h = ([], [], refl, λ e. e, (refl, tt))
components-cons (c ∷ s) h =
    let (w, ws, e, dot, clean) = components-cons s (ground arith) in
    elim (Bool-cases (c == b'/')) [
      | inl slash ↦ ([], w ∷ ws, ground (arith, e), λ z. ground arith, (refl, clean))
      | inr other ↦ (c ∷ w, ws, ground (arith, e), λ z. z, (ground (arith, dot), clean.1))
    ]

not_dotdot : (name : Bytes) → has_dotdot name ≡ false → eq_bytes name (codes "..") ≡ false
unfolding has_dotdot
not_dotdot name h = elim (Bool-cases (eq_bytes name (codes ".."))) [
  | inr e ↦ e
  | inl e ↦ let same = (eq_bytes_iff name (codes "..")).0 e in cc (sym (ap has_dotdot same) ∙ h)
]

enter_below :
    (name : Bytes) (dir : List Bytes)
    → has_dotdot name ≡ false
    → (extra : List Bytes) × (enter name dir ≡ extra ++ dir)
unfolding enter
enter_below name dir h = elim (Bool-cases (eq_bytes name [] || eq_bytes name (codes "."))) [
  | inl e ↦ ([], rw (enter, e))
  | inr e ↦ (name ∷ [], rw (enter, e, not_dotdot name h))
]

walk_below :
    (names dir : List Bytes)
    → All (λ (v : Bytes). has_dotdot v ≡ false) names
    → (extra : List Bytes) × (walk names dir ≡ extra ++ dir)
unfolding walk
walk_below [] dir h = ([], refl)
walk_below (name ∷ names) dir (h, hs) =
    let (first, e) = enter_below name dir h in
    let (more, f) = walk_below names (enter name dir) hs in
    (more ++ first, f ∙ ap (◌++◌ more) e ∙ sym (append_assoc more first dir))

-- A pathname that is_pathname_local accepts resolves to something in the tree rooted at the current
-- directory, whatever that directory is: the lookup never leaves it.
pub is_pathname_local-resolve :
    (cwd : List Bytes) (pathname : Bytes)
    → is_pathname_local pathname ≡ true
    → (extra : List Bytes) × (resolve cwd pathname ≡ extra ++ cwd)
unfolding is_pathname_local resolve
is_pathname_local-resolve cwd pathname h =
    let relative : is_absolute pathname ≡ false = ground arith in
    let (w, ws, e, _, clean) = components-cons pathname (ground arith) in
    let (extra, f) = walk_below (w ∷ ws) cwd clean in (extra, rw (relative, e) f)
