-- ===== src/RemoteWorker/Session/Steps.antt =====
-- One round of dispatch in each state that a frame goes through.
use distray.Base.{ℕ, suc, ◌+◌, length, ap, ◌≡◌, true, false, none, some, arith, Bytes, get_elem?}
use distray.Util.Parameter.{substitute_parameter}
use distray.Parameters.{Parameters, FileCopy}
use distray.Drp.{copy_in, execute, copy_out, Request}
use distray.Wire.Codec.{be32}
use distray.Wire.Outgoing.{set_message}
use distray.Wire.Incoming.{reset}
use distray.RemoteWorker.Session.{Peer, pending, arrived}
use distray.RemoteWorker.{
  RemoteWorker, State, System, continues, is_for, copy_in_of, execute_of, copy_out_of, dispatch,
  dispatch_from, enough, send_request, idle, send_copy_in_frame_file, receive_copy_in_frame_file,
  send_execute_request, receive_execute_response, send_copy_out_frame_file,
  receive_copy_out_frame_file,
}

-- A worker in a state, at an index.
abbrev pub at : State → ℕ → RemoteWorker → RemoteWorker
at s i w = record w { state = s; state_index = i }

module _ (system : System) (parameters : Parameters) where
  -- What is sent waits in the outgoing buffer.
  pub pending-send_request :
      (r : Request) (s : State) (w : RemoteWorker)
      → pending system (send_request system parameters r s w) ≡ some r
  unfolding pending send_request set_message be32
  pending-send_request r s w = system.requests.parse-serialize r

  -- The fuel of dispatch, with one round taken off.
  abbrev pub rest_fuel : ℕ
  rest_fuel = length parameters.in_copies + length parameters.out_copies + 3

  pub dispatch-fuel :
      (w : RemoteWorker) (d : system.Disk)
      → dispatch system parameters w d ≡ dispatch_from system parameters (suc rest_fuel) w d
  unfolding dispatch
  dispatch-fuel w d =
      let e : enough system parameters ≡ suc rest_fuel = omega arith in
      ap (λ f. dispatch_from system parameters f w d) e

  module _ (fuel i : ℕ) (c : FileCopy) (w : RemoteWorker) (d : system.Disk) where
    pub skip_in :
        get_elem? parameters.in_copies i ≡ some c
        → is_for w.frame c ≡ false
        → dispatch_from system parameters (suc fuel) (at send_copy_in_frame_file i w) d
          ≡ dispatch_from system parameters fuel (at send_copy_in_frame_file (suc i) w) d
    unfolding dispatch_from
    skip_in e h = rw (e, dispatch_from, h)

    pub send_in :
        (content : Bytes)
        → get_elem? parameters.in_copies i ≡ some c
        → is_for w.frame c ≡ true
        → system.read_file d (substitute_parameter c.source w.frame) ≡ some content
        → dispatch_from system parameters (suc fuel) (at send_copy_in_frame_file i w) d
          ≡ continues
              (send_request system parameters
                (copy_in_of c w.frame content)
                receive_copy_in_frame_file
                (at send_copy_in_frame_file i w))
              d
    unfolding dispatch_from
    send_in content e h r = rw (e, dispatch_from, h, r)

    pub skip_out :
        get_elem? parameters.out_copies i ≡ some c
        → is_for w.frame c ≡ false
        → dispatch_from system parameters (suc fuel) (at send_copy_out_frame_file i w) d
          ≡ dispatch_from system parameters fuel (at send_copy_out_frame_file (suc i) w) d
    unfolding dispatch_from
    skip_out e h = rw (e, dispatch_from, h)

    pub send_out :
        get_elem? parameters.out_copies i ≡ some c
        → is_for w.frame c ≡ true
        → dispatch_from system parameters (suc fuel) (at send_copy_out_frame_file i w) d
          ≡ continues
              (send_request system parameters
                (copy_out_of c w.frame)
                receive_copy_out_frame_file
                (at send_copy_out_frame_file i w))
              d
    unfolding dispatch_from
    send_out e h = rw (e, dispatch_from, h)

  module _ (fuel i : ℕ) (w : RemoteWorker) (d : system.Disk) where
    -- Behind the last file to copy in the program is executed.
    pub end_in :
        get_elem? parameters.in_copies i ≡ none
        → dispatch_from system parameters (suc (suc fuel)) (at send_copy_in_frame_file i w) d
          ≡ continues
              (send_request system parameters
                (execute_of parameters w.frame)
                receive_execute_response
                (at send_execute_request i w))
              d
    unfolding dispatch_from
    end_in e = rw (e, dispatch_from)

    -- Behind the last file to copy out the worker is idle.
    pub end_out :
        get_elem? parameters.out_copies i ≡ none
        → dispatch_from system parameters (suc fuel) (at send_copy_out_frame_file i w) d
          ≡ continues (at idle i w) d
    unfolding dispatch_from
    end_out e = rw (e, dispatch_from)

-- Behind a response the incoming buffer is ready for the next one.
abbrev pub settled : (system : System) → Peer system → Request → RemoteWorker → RemoteWorker
settled system peer r w = record w { incoming_buffer = reset (peer.inbox (peer.answer r)) }

module _ (system : System) (parameters : Parameters) (peer : Peer system) (fuel i : ℕ) (r : Request)
    (w : RemoteWorker) (d : system.Disk) where
  pub recv_in :
      (peer.answer r).request_type ≡ copy_in
      → dispatch_from system parameters
          (suc fuel)
          (arrived system parameters peer r (at receive_copy_in_frame_file i w))
          d
        ≡ dispatch_from system parameters fuel
            (at send_copy_in_frame_file (suc i) (settled system peer r w))
            d
  unfolding dispatch_from
  recv_in t = rw (peer.arrives r, dispatch_from, t, peer.copies_in r)

  pub recv_execute :
      (peer.answer r).request_type ≡ execute
      → dispatch_from system parameters
          (suc fuel)
          (arrived system parameters peer r (at receive_execute_response i w))
          d
        ≡ dispatch_from system parameters fuel
            (at send_copy_out_frame_file 0 (settled system peer r w))
            d
  unfolding dispatch_from
  recv_execute t = rw (peer.arrives r, dispatch_from, t, peer.executes r)

  pub recv_out :
      (c : FileCopy) (d' : system.Disk)
      → (peer.answer r).request_type ≡ copy_out
      → get_elem? parameters.out_copies i ≡ some c
      → system.write_file d
          (substitute_parameter c.destination w.frame)
          (peer.answer r).copy_out_response.content
        ≡ some d'
      → dispatch_from system parameters
          (suc fuel)
          (arrived system parameters peer r (at receive_copy_out_frame_file i w))
          d
        ≡ dispatch_from system parameters fuel
            (at send_copy_out_frame_file (suc i) (settled system peer r w))
            d'
  unfolding dispatch_from
  recv_out c d' t e write =
      rw (peer.arrives r, dispatch_from) (ground (arith, t, e, peer.copies_out r, write))
