-- ===== src/CommandLine/Requests.antt =====
-- What a controller asks of a worker passes the worker's checks of pathnames.
use distray.Base.{
  ◌≡◌, refl, subst, List, [], ◌∷◌, ◌++◌, Bytes, All, All-append, Bool-cases, inl, inr, some,
}
use distray.Base.Int.{ℤ}
use distray.Util.CString.{NoNul}
use distray.Util.Pathname.Substitute.{substitute_parameter-local}
use distray.Util.Parameter.{substitute_parameter}
use distray.Parameters.{Parameters, cmd_controller, FileCopy}
use distray.Drp.{Request}
use distray.RemoteWorker.{System, is_for, execute_of}
use distray.RemoteWorker.Session.{in_requests, out_requests}
use distray.Worker.Guards.{path_of}
use distray.CommandLine.Outcome.{accepted, Settles}
use distray.CommandLine.Locality.{IsLocal, AreLocal, RunsLocal, IsTaken, parse_arguments-Settles}
use distray.CommandLine.{parse_arguments}

-- A request about a pathname that is local on the worker.
abbrev pub Admitted : Request → Type 0
Admitted r = (path : Bytes) × (path_of r ≡ some path) × IsLocal path

abbrev pub CleanIn : FileCopy → Type 0
CleanIn c = NoNul c.destination

abbrev pub CleanOut : FileCopy → Type 0
CleanOut c = NoNul c.source

in_requests-Admitted :
    (system : System) (d : system.Disk) (frame : ℤ) (cs : List FileCopy)
    → All (λ c. IsLocal (FileCopy.destination c)) cs
    → All CleanIn cs
    → All Admitted (in_requests system d frame cs)
in_requests-Admitted system d frame [] h n = tt
in_requests-Admitted system d frame (c ∷ cs) (h, hs) (n, ns) =
    let rest = in_requests-Admitted system d frame cs hs ns in
    elim (Bool-cases (is_for frame c)) [
      | inr other ↦ rw other rest
      | inl match ↦ rw match (
        (
          substitute_parameter c.destination frame,
          refl,
          substitute_parameter-local c.destination frame n h,
        ),
        rest,
      )
    ]

out_requests-Admitted :
    (frame : ℤ) (cs : List FileCopy)
    → All (λ c. IsLocal (FileCopy.source c)) cs
    → All CleanOut cs
    → All Admitted (out_requests frame cs)
out_requests-Admitted frame [] h n = tt
out_requests-Admitted frame (c ∷ cs) (h, hs) (n, ns) =
    let rest = out_requests-Admitted frame cs hs ns in
    elim (Bool-cases (is_for frame c)) [
      | inr other ↦ rw other rest
      | inl match ↦ rw match (
        (substitute_parameter c.source frame, refl, substitute_parameter-local c.source frame n h),
        rest,
      )
    ]

runs : (q : Parameters) → q.command ≡ cmd_controller → RunsLocal q.command q → IsLocal q.executable
runs q e h = subst (λ c. RunsLocal c q) e h

-- From a command line that parse_arguments takes for a controller, and whose pathnames have no NUL:
-- for each frame, all requests that a session sends for it, its copies in, the program, and its copies
-- out, are about pathnames that are local on the worker, so that none is refused for its pathname.
pub requests-Admitted :
    (system : System) (p q : Parameters) (program : Bytes) (args : List Bytes)
    → (d : system.Disk) (frame : ℤ) → AreLocal p
    → parse_arguments p (program ∷ args) ≡ accepted q
    → q.command ≡ cmd_controller
    → All CleanIn q.in_copies
    → All CleanOut q.out_copies
    → All Admitted (
        in_requests system d frame q.in_copies
        ++ (execute_of q frame ∷ out_requests frame q.out_copies))
requests-Admitted system p q program args d frame local parsed controller ins outs =
    let (names, run) =
      subst (Settles IsTaken) parsed (parse_arguments-Settles p program args local) in
    All-append Admitted (in_requests system d frame q.in_copies) _
      (in_requests-Admitted system d frame q.in_copies names.ins ins)
      (
        (q.executable, refl, runs q controller run),
        out_requests-Admitted frame q.out_copies names.outs outs,
      )
