-- ===== src/Job/Readme.antt =====
-- The order of execution of README.md, as a script on the disks of the controller and of one worker. A
-- copy goes through the worker's handlers, and the script gives up where one is refused, a local file
-- cannot be read or written, or the program fails.
use distray.Base.{ℕ, ◌≡◌, refl, ◌∙◌, ap, Bool, true, not, List, [], ◌∷◌, if◌then◌else◌, map, All}
use distray.Base.Int.{pos}
use distray.Parameters.{Parameters, FileCopy, has_parameter}
use distray.RemoteWorker.{System, no_frame}
use distray.Worker.{Machine}
use distray.Job.{
  Result, completed, aborted, ◌>>=◌, copy_in_file, copy_out_file, copies_in, copies_out, program,
  render, render_all, job,
}

abbrev pub lacks_parameter : FileCopy → Bool
lacks_parameter c = not (has_parameter c)

-- Those of the copies, in order.
abbrev pub each :
    {D W : Type 0} (chosen : FileCopy → Bool) (copy : FileCopy → D → W → Result D W)
    → List FileCopy
    → D
    → W
    → Result D W
each chosen copy [] d wd = completed d wd
each chosen copy (c ∷ cs) d wd =
    (if chosen c then copy c d wd else completed d wd) >>= each chosen copy cs

module _ (system : System) (parameters : Parameters) (machine : Machine) where
  -- Step 2: the copies in that include a frame number, the binary, the copies out that include one.
  abbrev pub readme_frame : ℕ → system.Disk → machine.Disk → Result system.Disk machine.Disk
  readme_frame n d wd =
      each has_parameter (copy_in_file system parameters machine (pos n)) parameters.in_copies d wd
      >>= λ d1 wd1.
          program system parameters machine (pos n) d1 wd1
          >>= each has_parameter (copy_out_file system parameters machine (pos n))
              parameters.out_copies

  abbrev pub readme_frames : List ℕ → system.Disk → machine.Disk → Result system.Disk machine.Disk
  readme_frames [] d wd = completed d wd
  readme_frames (n ∷ ns) d wd = readme_frame n d wd >>= readme_frames ns

  -- Steps 1 to 3: the copies in without a frame number, the frames, the copies out without one.
  abbrev pub readme : List ℕ → system.Disk → machine.Disk → Result system.Disk machine.Disk
  readme ns d wd =
      each lacks_parameter (copy_in_file system parameters machine no_frame) parameters.in_copies d
        wd
      >>= readme_frames ns
      >>= each lacks_parameter (copy_out_file system parameters machine no_frame)
          parameters.out_copies

  numbered_in_lem :
      (n : ℕ) (cs : List FileCopy)
      → each has_parameter (copy_in_file system parameters machine (pos n)) cs
        ≡ copies_in system parameters machine (pos n) cs
  numbered_in_lem n [] = refl
  numbered_in_lem n (c ∷ cs) =
      ap
        (λ next d wd.
          (if has_parameter c
            then copy_in_file system parameters machine (pos n) c d wd
            else completed d wd)
          >>= next)
        (numbered_in_lem n cs)

  numbered_out_lem :
      (n : ℕ) (cs : List FileCopy)
      → each has_parameter (copy_out_file system parameters machine (pos n)) cs
        ≡ copies_out system parameters machine (pos n) cs
  numbered_out_lem n [] = refl
  numbered_out_lem n (c ∷ cs) =
      ap
        (λ next d wd.
          (if has_parameter c
            then copy_out_file system parameters machine (pos n) c d wd
            else completed d wd)
          >>= next)
        (numbered_out_lem n cs)

  unnumbered_in_lem :
      (cs : List FileCopy)
      → each lacks_parameter (copy_in_file system parameters machine no_frame) cs
        ≡ copies_in system parameters machine no_frame cs
  unnumbered_in_lem [] = refl
  unnumbered_in_lem (c ∷ cs) =
      ap
        (λ next d wd.
          (if lacks_parameter c
            then copy_in_file system parameters machine no_frame c d wd
            else completed d wd)
          >>= next)
        (unnumbered_in_lem cs)

  frame_lem : (n : ℕ) → readme_frame n ≡ render system parameters machine (pos n)
  frame_lem n =
      ap
        (λ copies d wd. copies d wd >>= λ d1 wd1.
          program system parameters machine (pos n) d1 wd1
          >>= each has_parameter (copy_out_file system parameters machine (pos n))
              parameters.out_copies)
        (numbered_in_lem n parameters.in_copies)
      ∙ ap
          (λ copies d wd.
            copies_in system parameters machine (pos n) parameters.in_copies d wd >>= λ d1 wd1.
            program system parameters machine (pos n) d1 wd1 >>= copies)
          (numbered_out_lem n parameters.out_copies)

  frames_lem : (ns : List ℕ) → readme_frames ns ≡ render_all system parameters machine (map pos ns)
  frames_lem [] = refl
  frames_lem (n ∷ ns) =
      ap (λ first d wd. first d wd >>= readme_frames ns) (frame_lem n)
      ∙ ap (λ next d wd. render system parameters machine (pos n) d wd >>= next) (frames_lem ns)

  -- Where every copy has a frame number, there is none without.
  none_left :
      (copy : FileCopy → system.Disk → machine.Disk → Result system.Disk machine.Disk)
      → (cs : List FileCopy) → All (λ c. has_parameter c ≡ true) cs
      → each lacks_parameter copy cs ≡ completed
  none_left copy [] h = refl
  none_left copy (c ∷ cs) (numbered, h) =
      ap
        (λ b d wd. (if not b then copy c d wd else completed d wd) >>= each lacks_parameter copy cs)
        numbered
      ∙ none_left copy cs h

  >>=-completed : (r : Result system.Disk machine.Disk) → (r >>= completed) ≡ r
  >>=-completed (completed d wd) = refl
  >>=-completed (aborted wd) = refl

  -- The script of the code is that of README.md, where every copy out has a frame number.
  pub readme-job :
      (ns : List ℕ) (d : system.Disk) (wd : machine.Disk)
      → All (λ c. has_parameter c ≡ true) parameters.out_copies
      → readme ns d wd ≡ job system parameters machine (map pos ns) d wd
  readme-job ns d wd h =
      ap
        (λ last.
          each lacks_parameter (copy_in_file system parameters machine no_frame)
            parameters.in_copies d wd
          >>= readme_frames ns
          >>= last)
        (none_left (copy_out_file system parameters machine no_frame) parameters.out_copies h)
      ∙ >>=-completed _
      ∙ ap (λ copies. copies d wd >>= readme_frames ns) (unnumbered_in_lem parameters.in_copies)
      ∙ ap (λ next. copies_in system parameters machine no_frame parameters.in_copies d wd >>= next)
          (frames_lem ns)
