-- ===== src/CommandLine/Flags.antt =====
-- A controller's command line, from its parts and back.
use distray.Base.{
  ℕ, zero, suc, ◌<◌, ◌≡◌, refl, ap, ◌∙◌, true, false, List, [], ◌∷◌, ◌++◌, append_assoc, arith,
  Bytes, codes, length, All,
}
use distray.Frames.{Frames, parse}
use distray.Parameters.{Parameters, cmd_controller, file_copy}
use distray.CommandLine.Outcome.{accepted}
use distray.CommandLine.Locality.{IsLocal}
use distray.CommandLine.{add_in, add_out, next_is_flag, flag, flags, positional, parse_arguments}

pub data Flag : Type 0 where
  proxy : Bytes → Flag
  copies_in copies_out : Bytes → Bytes → Flag
  listen : Bytes → Flag

abbrev pub render : Flag → List Bytes
render (proxy e) = codes "--proxy" ∷ e ∷ []
render (copies_in local remote) = codes "--in" ∷ local ∷ remote ∷ []
render (copies_out remote local) = codes "--out" ∷ remote ∷ local ∷ []
render (listen e) = codes "--listen" ∷ e ∷ []

abbrev pub render_all : List Flag → List Bytes
render_all [] = []
render_all (f ∷ fs) = render f ++ render_all fs

-- What a flag stands for.
abbrev pub set_flag : Flag → Parameters → Parameters
set_flag (proxy e) p = record p { proxy_endpoints = p.proxy_endpoints ++ e ∷ [] }
set_flag (copies_in local remote) p = add_in p (file_copy local remote)
set_flag (copies_out remote local) p = add_out p (file_copy remote local)
set_flag (listen e) p = record p { endpoint = e }

abbrev pub set_flags : List Flag → Parameters → Parameters
set_flags [] p = p
set_flags (f ∷ fs) p = set_flags fs (set_flag f p)

-- The remote pathname of a copy is local on the worker.
abbrev pub Fits : Flag → Type 0
Fits (copies_in local remote) = IsLocal remote
Fits (copies_out remote local) = IsLocal remote
Fits _ = Unit

set_flag-command : (f : Flag) (p : Parameters) → (set_flag f p).command ≡ p.command
set_flag-command (proxy e) p = refl
set_flag-command (copies_in l r) p = refl
set_flag-command (copies_out r l) p = refl
set_flag-command (listen e) p = refl

-- One round of the loop, on what a flag is rendered as.
flags-render :
    (fuel : ℕ) (f : Flag) (p : Parameters) (args : List Bytes)
    → Fits f
    → p.command ≡ cmd_controller
    → flags (suc fuel) p (render f ++ args) ≡ flags fuel (set_flag f p) args
unfolding flags
flags-render fuel (proxy e) p args fits c = simp (c, flag)
flags-render fuel (copies_in l r) p args fits c = simp (c, fits)
flags-render fuel (copies_out r l) p args fits c = simp (c, fits)
flags-render fuel (listen e) p args fits c = simp c

render_longer : (f : Flag) (xs : List Bytes) → length xs < length (render f ++ xs)
render_longer (proxy e) xs = omega arith
render_longer (copies_in l r) xs = omega arith
render_longer (copies_out r l) xs = omega arith
render_longer (listen e) xs = omega arith

flags-render_all :
    (fuel : ℕ) (fs : List Flag) (p : Parameters) (args : List Bytes)
    → All Fits fs
    → p.command ≡ cmd_controller
    → next_is_flag args ≡ false
    → length (render_all fs ++ args) < fuel
    → (flags fuel p (render_all fs ++ args) ≡ accepted (args, set_flags fs p))
      × ((set_flags fs p).command ≡ cmd_controller)
unfolding flags
flags-render_all zero fs p args fits c plain h = absurd (omega arith)
flags-render_all (suc fuel) [] p [] fits c plain h = (refl, c)
flags-render_all (suc fuel) [] p (a ∷ args) fits c plain h = (rw (plain, flags) refl, c)
flags-render_all (suc fuel) (f ∷ fs) p args (fit, fits) c plain h =
    let regroup = append_assoc (render f) (render_all fs) args in
    let (e, last) =
      flags-render_all fuel fs (set_flag f p) args fits (set_flag-command f p ∙ c) plain
        (omega (arith, render_longer f (render_all fs ++ args), ap length regroup)) in
    (
      ap (flags (suc fuel) p) regroup ∙ flags-render fuel f p (render_all fs ++ args) fit c ∙ e,
      last,
    )

positional-controller :
    (q : Parameters) (frames : Frames) (spec executable : Bytes) (rest : List Bytes)
    → parse q.frames spec ≡ (frames, true)
    → IsLocal executable
    → positional cmd_controller q (spec ∷ executable ∷ rest)
      ≡ accepted
          (record q { frames = frames; executable = executable; arguments = q.arguments ++ rest })
unfolding positional
positional-controller q frames spec executable rest reads local = rw (reads, local) refl

-- A controller's command line is read back as it was written: its flags in order, if their remote
-- pathnames are local, then a frame range that does not look like a flag and that Frames::parse
-- takes, a local executable, and whatever else there is for its arguments.
pub parse_arguments-render :
    (p : Parameters) (program spec executable : Bytes) (fs : List Flag) (rest : List Bytes)
    → (frames : Frames) → All Fits fs
    → next_is_flag (spec ∷ []) ≡ false
    → ((f : Frames) → parse f spec ≡ (frames, true))
    → IsLocal executable
    → let q = set_flags fs (record p { command = cmd_controller }) in
      parse_arguments p (program ∷ codes "controller" ∷ (render_all fs ++ spec ∷ executable ∷ rest))
      ≡ accepted
          (record q { frames = frames; executable = executable; arguments = q.arguments ++ rest })
unfolding parse_arguments
parse_arguments-render p program spec executable fs rest frames fits plain reads local =
    let (e, same) =
      flags-render_all (suc (length (render_all fs ++ spec ∷ executable ∷ rest))) fs
        (record p { command = cmd_controller }) (spec ∷ executable ∷ rest) fits refl
        (plain_spec spec plain) (omega arith) in
    let q = set_flags fs (record p { command = cmd_controller }) in
    rw e (
      ap (λ c. positional c q (spec ∷ executable ∷ rest)) same
      ∙ positional-controller q frames spec executable rest (reads q.frames) local)
  where
    plain_spec :
        (spec : Bytes)
        → next_is_flag (spec ∷ []) ≡ false
        → next_is_flag (spec ∷ executable ∷ rest) ≡ false
    plain_spec [] h = refl
    plain_spec (c ∷ s) h = h
