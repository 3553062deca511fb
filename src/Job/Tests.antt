-- ===== src/Job/Tests.antt =====
-- A job of two frames on a worker with one program, and one that the worker refuses.
use distray.Base.{
  ℕ, zero, suc, length, replicate, length-replicate, ◌≡◌, refl, true, List, [], ◌∷◌, Bytes, codes,
  arith, eq_bytes, All,
}
use distray.Base.Int.{ℤ, pos}
use distray.Parameters.{Parameters, file_copy, has_parameter}
use distray.RemoteWorker.{start, new}
use distray.RemoteWorker.Tests
use distray.RemoteWorker.Tests.{system, arrives}
use distray.Worker.{handle_copy_in, handle_execute, handle_copy_out}
use distray.Util.Parameter.{substitute_parameter}
use distray.Worker.Tests.{machine}
use distray.Job.{completed}
use distray.Job.Readme.{readme}
use distray.Wire.Codec.{be32, ntohl}
use distray.Wire.Outgoing.{set_message, need_send, offered, send}
use distray.Wire.Blocking.{send_message}
use distray.Wire.RoundTrip.{deliver}
use distray.Wire.Incoming.Pump.{pump, Positive}
use distray.Job.Delivery.{Pieces}
use distray.Wire.Incoming.{get_message, reset, receive, need_receive, bytes_left}
use distray.Controller.{Round, run}
use distray.Controller.Start.{initial}
use distray.Job.Rounds.{passes_all, whole, Ends}
use distray.Job.Whole.{whole-job}

-- The program is on the worker, and writes "out".
abbrev parameters : Parameters
parameters = record Tests.parameters {
  in_copies = file_copy (codes "model.obj") (codes "in.obj") ∷ [];
  out_copies = file_copy (codes "out") (codes "out-%d.png") ∷ [];
  executable = codes "ray";
}

abbrev files_here : List (Bytes × Bytes)
files_here = (codes "model.obj", codes "obj") ∷ []

abbrev worker_files : List (Bytes × Bytes)
worker_files = (codes "ray", codes "elf") ∷ []

abbrev frames : List ℕ
frames = 4 ∷ 5 ∷ []

abbrev numbers : List ℤ
numbers = pos 4 ∷ pos 5 ∷ []

-- Each image has the number of its frame.
images_numbered : All (λ c. has_parameter c ≡ true) parameters.out_copies
unfolding file_copy
images_numbered = (refl, tt)

-- The script on both disks.
job_done :
    readme system parameters machine frames files_here worker_files
    ≡ completed ((codes "out-5.png", codes "5") ∷ (codes "out-4.png", codes "4") ∷ files_here) (
        (codes "out", codes "5")
        ∷ (codes "out", codes "4")
        ∷ (codes "in.obj", codes "obj")
        ∷ worker_files)
unfolding file_copy eq_bytes substitute_parameter handle_copy_in handle_execute handle_copy_out
job_done = refl

replicate-Positive : (n k : ℕ) → Positive (replicate n (suc k))
replicate-Positive zero k = tt
replicate-Positive (suc n) k = (omega arith, replicate-Positive n k)

-- At most three bytes go out at a time, and at most two come in.
abbrev pieces : Pieces
pieces = record {
  sends = λ bytes. replicate (length bytes) 3;
  receives = λ bytes. replicate (length bytes) 2;
  sends_positive = λ bytes. replicate-Positive (length bytes) 2;
  receives_positive = λ bytes. replicate-Positive (length bytes) 1;
  sends_enough = λ bytes. omega (arith, length-replicate {A = ℕ} (length bytes) 3);
  receives_enough = λ bytes. omega (arith, length-replicate {A = ℕ} (length bytes) 2);
}

-- No request is empty, and no message is too long.
messages_pass :
    passes_all system parameters machine pieces 3 numbers
      (start system parameters new files_here)
      worker_files
    ≡ true
unfolding passes_all start new file_copy eq_bytes substitute_parameter set_message be32 get_message
    reset pump deliver send_message receive need_receive bytes_left need_send offered send ntohl
messages_pass = refl

whole-job_example :
    Ends system parameters machine pieces
      (readme system parameters machine frames files_here worker_files)
      (whole system parameters machine pieces 9 numbers files_here worker_files)
    × (rounds : List Round) × ((whole system parameters machine pieces 9 numbers files_here
          worker_files).0
        ≡ run system parameters rounds (initial numbers files_here))
whole-job_example =
    whole-job system parameters machine pieces 3 9 4 (5 ∷ []) files_here worker_files refl
      images_numbered (omega arith) (omega arith) messages_pass
