-- ===== src/CommandLine/Tests.antt =====
-- Command lines as they are typed, and the theorems at one of them.
use distray.Base.{◌≡◌, refl, true, List, [], ◌∷◌, ◌++◌, arith, Bytes, codes, All}
use distray.Base.Int.{pos}
use distray.Util.Pathname.{is_pathname_local}
use distray.Frames.{Frames, parse}
use distray.Parameters.{Parameters, cmd_controller, file_copy}
use distray.RemoteWorker.{execute_of}
use distray.RemoteWorker.Session.{in_requests, out_requests}
use distray.RemoteWorker.Tests.{system, disk}
use distray.CommandLine.Outcome.{accepted, refused, Settles}
use distray.CommandLine.Locality.{AreLocal, IsTaken, parse_arguments-Settles}
use distray.CommandLine.Flags.{
  Flag, proxy, copies_in, copies_out, render_all, set_flags, parse_arguments-render,
}
use distray.CommandLine.Requests.{Admitted, requests-Admitted}
use distray.CommandLine.{new, parse_arguments}

abbrev blank : Parameters
blank = new (record { first = pos 0; last = pos 0; step = pos 0 })

blank-AreLocal : AreLocal blank
blank-AreLocal = record { ins = tt; outs = tt }

abbrev flags_here : List Flag
flags_here =
    proxy (codes "proxy.example.com")
    ∷ copies_in (codes "in-%03d.cam") (codes "in.cam")
    ∷ copies_out (codes "out.png") (codes "out-%03d.png")
    ∷ []

abbrev line : List Bytes
line =
    codes "controller"
    ∷ (render_all flags_here ++ codes "1,5" ∷ codes "ray" ∷ codes "marble.scene" ∷ codes "%d" ∷ [])

abbrev taken : Parameters
taken = record blank {
  command = cmd_controller;
  proxy_endpoints = codes "proxy.example.com" ∷ [];
  in_copies = file_copy (codes "in-%03d.cam") (codes "in.cam") ∷ [];
  out_copies = file_copy (codes "out.png") (codes "out-%03d.png") ∷ [];
  frames = record { first = pos 1; last = pos 5; step = pos 1 };
  executable = codes "ray";
  arguments = codes "marble.scene" ∷ codes "%d" ∷ [];
}

whole_line : parse_arguments blank (codes "distray" ∷ line) ≡ accepted taken
unfolding parse_arguments
whole_line = refl

-- A range that begins with a negative frame is taken for a flag.
negative_range :
    parse_arguments blank (codes "distray" ∷ codes "controller" ∷ codes "-5,5" ∷ codes "ray" ∷ [])
    ≡ refused 1
unfolding parse_arguments
negative_range = refl

-- A remote name outside of the worker's directory is refused.
outside :
    parse_arguments blank (
      codes "distray"
      ∷ codes "controller"
      ∷ codes "--in"
      ∷ codes "x"
      ∷ codes "/etc/x"
      ∷ codes "1"
      ∷ codes "ray"
      ∷ [])
    ≡ refused 1
unfolding parse_arguments
outside = refl

-- A flag of the proxy is refused for a worker.
wrong_command :
    parse_arguments blank
      (codes "distray" ∷ codes "worker" ∷ codes "--worker-listen" ∷ codes ":1" ∷ codes "h" ∷ [])
    ≡ refused 1
unfolding parse_arguments
wrong_command = refl

no_command : parse_arguments blank (codes "distray" ∷ []) ≡ refused 2
unfolding parse_arguments
no_command = refl

parse_arguments-Settles_example : Settles IsTaken (parse_arguments blank (codes "distray" ∷ line))
parse_arguments-Settles_example =
    parse_arguments-Settles blank (codes "distray") line blank-AreLocal

range_read :
    (f : Frames)
    → parse f (codes "1,5") ≡ (record { first = pos 1; last = pos 5; step = pos 1 }, true)
unfolding parse
range_read f = refl

parse_arguments-render_example :
    parse_arguments blank (codes "distray" ∷ line)
    ≡ accepted (record (set_flags flags_here (record blank { command = cmd_controller })) {
      frames = record { first = pos 1; last = pos 5; step = pos 1 };
      executable = codes "ray";
      arguments = codes "marble.scene" ∷ codes "%d" ∷ [];
    })
unfolding is_pathname_local
parse_arguments-render_example =
    parse_arguments-render blank (codes "distray") (codes "1,5") (codes "ray") flags_here
      (codes "marble.scene" ∷ codes "%d" ∷ [])
      (record { first = pos 1; last = pos 5; step = pos 1 }) (tt, (refl, (refl, tt))) refl
      range_read refl

requests-Admitted_example : All Admitted (
    in_requests system disk (pos 7) taken.in_copies
    ++ (execute_of taken (pos 7) ∷ out_requests (pos 7) taken.out_copies))
unfolding file_copy
requests-Admitted_example =
    requests-Admitted system blank taken (codes "distray") line disk (pos 7) blank-AreLocal
      whole_line refl (omega arith, tt) (omega arith, tt)
