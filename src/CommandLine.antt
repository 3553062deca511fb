-- ===== src/CommandLine.antt =====
-- src/Parameters.cpp: Parameters::parse_arguments. The list of the arguments that are left is the
-- object `Arguments`.
pub mod Outcome
pub mod Locality
pub mod Flags
pub mod Requests
mod Tests
use distray.Base.{
  ℕ, zero, suc, Bool, true, false, ◌||◌, not, List, [], ◌∷◌, ◌++◌, if◌then◌else◌, Bytes, codes,
  eq_bytes, length, ◌==◌,
}
use distray.Frames.{Frames, parse}
use distray.Util.Pathname.{is_pathname_local}
use distray.Parameters.{
  Parameters, Command, cmd_unspecified, cmd_worker, cmd_proxy, cmd_controller, cmd_unittest,
  FileCopy, file_copy,
}
use Outcome.{Verdict, accepted, refused, threw, unfinished, ◌>>=◌}

-- Parameters(); the numbers of m_frames have no value yet.
abbrev pub new : Frames → Parameters
new frames = record {
  command = cmd_unspecified;
  endpoint = [];
  worker_endpoint = [];
  controller_endpoint = [];
  proxy_endpoints = [];
  in_copies = [];
  out_copies = [];
  frames = frames;
  executable = [];
  arguments = [];
}

-- Arguments::next_is_flag
abbrev pub next_is_flag : List Bytes → Bool
next_is_flag [] = false
next_is_flag ([] ∷ args) = false
next_is_flag ((c ∷ s) ∷ args) = c == b'-'

abbrev pub is_controller : Command → Bool
is_controller cmd_controller = true
is_controller _ = false

abbrev pub is_proxy : Command → Bool
is_proxy cmd_proxy = true
is_proxy _ = false

-- What a flag leaves: the arguments behind its own, and the parameters.
abbrev pub Left : Type 0
Left = List Bytes × Parameters

-- A flag with one argument: has_at_least(1), and next.
abbrev pub with_one : (Bytes → Parameters) → List Bytes → Verdict Left
with_one f [] = refused 1
with_one f (a ∷ args) = accepted (args, f a)

unfoldable pub proxy_flag : Parameters → List Bytes → Verdict Left
proxy_flag p args =
    if not (is_controller p.command)
    then refused 1
    else with_one (λ a. record p { proxy_endpoints = p.proxy_endpoints ++ a ∷ [] }) args

abbrev pub add_in : Parameters → FileCopy → Parameters
add_in p c = record p { in_copies = p.in_copies ++ c ∷ [] }

abbrev pub add_out : Parameters → FileCopy → Parameters
add_out p c = record p { out_copies = p.out_copies ++ c ∷ [] }

-- --in, or --out: has_at_least(2), the two pathnames, and the check of the remote one.
unfoldable pub copy_flag : Bool → Parameters → List Bytes → Verdict Left
unfolding is_pathname_local file_copy
copy_flag is_in p [] = refused 1
copy_flag is_in p (source ∷ []) = refused 1
copy_flag is_in p (source ∷ destination ∷ args) =
    if not (is_controller p.command)
    then refused 1
    else if not (is_pathname_local (if is_in then destination else source))
    then refused 1
    else accepted (
      args,
      (if is_in
          then add_in p (file_copy source destination)
          else add_out p (file_copy source destination)),
    )

unfoldable pub listen_flag : Parameters → List Bytes → Verdict Left
listen_flag p args =
    if not (is_controller p.command)
    then refused 1
    else with_one (λ a. record p { endpoint = a }) args

unfoldable pub worker_listen_flag : Parameters → List Bytes → Verdict Left
worker_listen_flag p args =
    if not (is_proxy p.command)
    then refused 1
    else with_one (λ a. record p { worker_endpoint = a }) args

unfoldable pub controller_listen_flag : Parameters → List Bytes → Verdict Left
controller_listen_flag p args =
    if not (is_proxy p.command)
    then refused 1
    else with_one (λ a. record p { controller_endpoint = a }) args

-- One flag; `arg` is its name, and `args` are the arguments behind it.
unfoldable pub flag : Bytes → Parameters → List Bytes → Verdict Left
unfolding eq_bytes proxy_flag copy_flag listen_flag worker_listen_flag controller_listen_flag
flag arg p args =
    if eq_bytes arg (codes "--proxy")
    then proxy_flag p args
    else if eq_bytes arg (codes "--in") || eq_bytes arg (codes "--out")
    then copy_flag (eq_bytes arg (codes "--in")) p args
    else if eq_bytes arg (codes "--listen")
    then listen_flag p args
    else if eq_bytes arg (codes "--worker-listen")
    then worker_listen_flag p args
    else if eq_bytes arg (codes "--controller-listen")
    then controller_listen_flag p args
    else refused 1

-- while (args.next_is_flag()), for as many rounds as the fuel has.
unfoldable pub flags : ℕ → Parameters → List Bytes → Verdict Left
unfolding flag
flags zero p args = unfinished
flags (suc fuel) p [] = accepted ([], p)
flags (suc fuel) p (arg ∷ args) = elim (next_is_flag (arg ∷ args)) [
  | false ↦ accepted (arg ∷ args, p)
  | true ↦ flag arg p args >>= λ (args', p'). flags fuel p' args'
]

abbrev pub framed : Frames × Bool → Bytes → List Bytes → Parameters → Verdict Parameters
framed (frames, false) executable args p = refused 1
framed (frames, true) executable args p =
    if is_pathname_local executable
    then accepted
        (record p { frames = frames; executable = executable; arguments = p.arguments ++ args })
    else refused 1

-- The parameters that are no flags.
unfoldable pub positional : Command → Parameters → List Bytes → Verdict Parameters
unfolding is_pathname_local parse
positional cmd_worker p (endpoint ∷ []) = accepted (record p { endpoint = endpoint })
positional cmd_worker p _ = refused 1
positional cmd_proxy p [] = accepted p
positional cmd_proxy p (a ∷ args) = refused 1
positional cmd_controller p (spec ∷ executable ∷ args) =
    framed (parse p.frames spec) executable args p
positional cmd_controller p _ = refused 1
positional cmd_unittest p [] = accepted p
positional cmd_unittest p (a ∷ args) = refused 1
positional cmd_unspecified p args = threw

-- The name of the command: help is refused with 2, an unknown name with 1.
unfoldable pub command_of : Bytes → Verdict Command
unfolding eq_bytes
command_of arg =
    if eq_bytes arg (codes "--help") || eq_bytes arg (codes "-h") || eq_bytes arg (codes "help")
    then refused 2
    else if eq_bytes arg (codes "worker")
    then accepted cmd_worker
    else if eq_bytes arg (codes "proxy")
    then accepted cmd_proxy
    else if eq_bytes arg (codes "controller")
    then accepted cmd_controller
    else if eq_bytes arg (codes "unittest")
    then accepted cmd_unittest
    else refused 1

-- Each round of the loop takes one argument at least.
unfoldable pub parse_arguments : Parameters → List Bytes → Verdict Parameters
unfolding command_of flags positional
parse_arguments p [] = threw
parse_arguments p (program ∷ []) = refused 2
parse_arguments p (program ∷ arg ∷ args) = do
  command ← command_of arg
  (args', p') ← flags (suc (length args)) (record p { command = command }) args
  positional p'.command p' args'
