-- ===== src/Worker/Tests.antt =====
-- A worker with one program and one scene, and the theorems at requests to it.
use distray.Base.{
  ◌≡◌, refl, true, List, [], ◌∷◌, ◌++◌, Option, none, some, if◌then◌else◌, arith, Bytes, codes,
  eq_bytes, eq_bytes_iff, Bool-cases, inl, inr, ap, sym, ◌∙◌,
}
use distray.Base.Int.{pos}
use distray.Drp.{copy_in, execute, copy_out, Request, request_of}
use distray.Drp.Encoding.{codec_of, request, response}
use distray.Util.Pathname.{is_pathname_local}
use distray.Worker.{Machine, Stat, absent, present, may_overwrite, handle, closed, serve}
use distray.Worker.Guards.{serve-keeps}
use distray.Worker.Stream.{rounds_of, in_turn, serve-stream}

-- The files, latest first; the one program that there is prints its arguments into "out".
abbrev pub look : List (Bytes × Bytes) → Bytes → Option Bytes
look [] path = none
look ((name, content) ∷ d) path = if eq_bytes name path then some content else look d path

abbrev pub mode_of : Bytes → Option Bytes → Stat
mode_of path none = absent
mode_of path (some content) = present (if eq_bytes path (codes "ray") then 493 else 420)

abbrev pub join : List Bytes → Bytes
join [] = []
join (x ∷ xs) = x ++ join xs

abbrev pub machine : Machine
machine = record {
  Disk = List (Bytes × Bytes);
  hostname = some (codes "node");
  core_count = pos 4;
  stat = λ d path. mode_of path (look d path);
  read_file = look;
  write_file = λ d path content. (true, (path, content) ∷ d);
  spawn = λ d path arguments. (pos 0, (codes "out", join arguments) ∷ d);
}

abbrev pub disk : List (Bytes × Bytes)
disk = (codes "ray", codes "elf") ∷ []

abbrev pub put : Bytes → Request
put path = record (request_of copy_in) {
  copy_in_request = record { pathname = path; content = codes "scene" };
}

abbrev pub get : Bytes → Request
get path = record (request_of copy_out) { copy_out_request = record { pathname = path } }

abbrev pub start : Bytes → Request
start path = record (request_of execute) {
  execute_request = record { executable = path; argument = codes "7" ∷ [] };
}

-- The program itself is not overwritten, and another file is.
overwrite_program : (handle machine (put (codes "ray")) disk).1 ≡ disk
unfolding handle eq_bytes
overwrite_program = refl

overwrite_other : (handle machine (put (codes "in")) disk).1 ≡ (codes "in", codes "scene") ∷ disk
unfolding handle eq_bytes
overwrite_other = refl

frame_made :
    let ran = (handle machine (start (codes "ray")) disk).1 in
    let (response, _) = handle machine (get (codes "out")) ran in
    response.copy_out_response.content ≡ codes "7"
unfolding handle eq_bytes
frame_made = refl

abbrev requests_here : List Request
requests_here = put (codes "in") ∷ start (codes "ray") ∷ get (codes "out") ∷ []

-- That the program is there and as it was.
abbrev HasProgram : List (Bytes × Bytes) → Type 0
HasProgram d = look d (codes "ray") ≡ some (codes "elf")

write_elsewhere :
    (d : List (Bytes × Bytes)) (path content : Bytes)
    → is_pathname_local path ≡ true
    → may_overwrite (mode_of path (look d path)) ≡ true
    → HasProgram d
    → HasProgram ((path, content) ∷ d)
write_elsewhere d path content near free h = elim (Bool-cases (eq_bytes path (codes "ray"))) [
  | inr e ↦ rw e h
  | inl e ↦
      let same : path ≡ codes "ray" = (eq_bytes_iff path (codes "ray")).0 e in
      let found : look d path ≡ some (codes "elf") = ap (look d) same ∙ h in
      cc (sym (ap (λ o. may_overwrite (mode_of path o)) found) ∙ free, e)
]

run_elsewhere :
    (d : List (Bytes × Bytes)) (path : Bytes) (arguments : List Bytes)
    → is_pathname_local path ≡ true
    → HasProgram d
    → HasProgram ((codes "out", join arguments) ∷ d)
unfolding eq_bytes
run_elsewhere d path arguments near h = h

serve-keeps_example :
    HasProgram
      (serve machine
        (codec_of request)
        (codec_of response)
        (rounds_of (codec_of request) requests_here)
        disk).disk
unfolding eq_bytes
serve-keeps_example =
    serve-keeps machine HasProgram write_elsewhere run_elsewhere (codec_of request)
      (codec_of response) (rounds_of (codec_of request) requests_here) disk refl

serve-stream_example :
    let (last, bytes) = in_turn machine (codec_of request) (codec_of response) requests_here disk in
    serve machine
      (codec_of request)
      (codec_of response)
      (rounds_of (codec_of request) requests_here)
      disk
    ≡ record { ending = closed; disk = last; sent = bytes }
unfolding handle eq_bytes
serve-stream_example =
    serve-stream machine (codec_of request) (codec_of response) requests_here disk (
      (λ e. cc),
      omega arith,
      omega arith,
      ((λ e. cc), omega arith, omega arith, ((λ e. cc), omega arith, omega arith, tt)),
    )
